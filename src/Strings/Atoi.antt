-- ===== src/Strings/Atoi.antt =====
-- `strconv.Atoi`, for an `int` of 64 bits.
use sysbox_libs.Prelude.{
  Bool, Bytes, Option, [], arith, codes, if◌then◌else◌, leb, ltb, lt→ltb, nat_beq, none, refl, some,
  suc, true, zero, ℕ, ◌&&◌, ◌*◌, ◌+◌, ◌-◌, ◌<◌, ◌^◌, ◌||◌, ◌∷◌, ◌≡◌,
}
use sysbox_libs.Prelude.Int.{negsuc, pos, ℤ}
use sysbox_libs.Strings.Decimal.{format_uint, is_digit, parse_uint, parse_uint-format_uint}

minus : ℕ → ℤ
minus zero = pos 0
minus (suc n) = negsuc n

positive : Option ℕ → Option ℤ
positive none = none
positive (some n) = if ltb n (2 ^ 63) then some (pos n) else none

negative : Option ℕ → Option ℤ
unfolding minus
negative none = none
negative (some n) = if leb n (2 ^ 63) then some (minus n) else none

unfoldable pub atoi : Bytes → Option ℤ
unfolding positive negative
atoi [] = none
atoi (c ∷ s) =
    if nat_beq c b'-'
    then negative (parse_uint 64 s)
    else positive (parse_uint 64 (if nat_beq c b'+' then s else c ∷ s))

-- Whether a text that is no `int` begins as a number that is too large, up to a digit by which it
-- no longer fits in 64 bits or up to its end.
is_large : ℕ → Bytes → Bool
is_large n [] = true
is_large n (c ∷ s) =
    let m = n * 10 + (c - b'0') in
    let rest = is_large m s in is_digit c && (ltb (2 ^ 64 - 1) m || rest)

-- The number that stands beside the error.
error_value : Bytes → ℤ
unfolding is_large
error_value [] = pos 0
error_value (c ∷ []) = pos 0
error_value (c ∷ d ∷ s) =
    if nat_beq c b'-'
    then (if is_large 0 (d ∷ s) then negsuc (2 ^ 63 - 1) else pos 0)
    else (if is_large 0 (if nat_beq c b'+' then d ∷ s else c ∷ d ∷ s)
        then pos (2 ^ 63 - 1)
        else pos 0)

or_error_value : Bytes → Option ℤ → ℤ
or_error_value s none = error_value s
or_error_value s (some n) = n

-- The number that `Atoi` gives when its error is not looked at.
unfoldable pub atoi_value : Bytes → ℤ
unfolding or_error_value error_value
atoi_value s = or_error_value s (atoi s)

large_test : atoi_value (codes "-99999999999999999999x") ≡ negsuc (2 ^ 63 - 1)
unfolding atoi_value atoi parse_uint
large_test = refl

word_test : atoi_value (codes "1x") ≡ pos 0
unfolding atoi_value atoi parse_uint
word_test = refl

digit_head : (bits c : ℕ) (s : Bytes) (n : ℕ) → parse_uint bits (c ∷ s) ≡ some n → is_digit c ≡ true
unfolding parse_uint
digit_head bits c s n h = ground arith

digits-atoi : (s : Bytes) (n : ℕ) → parse_uint 64 s ≡ some n → n < 2 ^ 63 → atoi s ≡ some (pos n)
unfolding atoi
digits-atoi [] n h lt = unfold parse_uint in ground arith
digits-atoi (c ∷ s) n h lt = ground (arith, h, digit_head 64 c s n h, lt→ltb n (2 ^ 63) lt)

-- The print of a number that fits in an `int` is read back.
pub atoi-format_uint : (n : ℕ) → n < 2 ^ 63 → atoi (format_uint n) ≡ some (pos n)
atoi-format_uint n h = digits-atoi (format_uint n) n (parse_uint-format_uint 64 n (omega arith)) h

pub atoi_value-format_uint : (n : ℕ) → n < 2 ^ 63 → atoi_value (format_uint n) ≡ pos n
unfolding atoi_value or_error_value
atoi_value-format_uint n h = rw (atoi-format_uint n h) refl
