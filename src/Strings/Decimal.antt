-- ===== src/Strings/Decimal.antt =====
-- Decimal numbers: `%d`, `strconv.FormatUint(n, 10)` and `strconv.ParseUint(s, 10, bits)`.
use sysbox_libs.Prelude.{
  Bool, Bool-cases, Bytes, Option, [], all, ap, arith, codes, contains, false, if◌then◌else◌, inl,
  inr, leb, ltb, nat_beq_iff, none, refl, some, suc, true, zero, ℕ, ◌%◌, ◌&&◌, ◌*◌, ◌+◌, ◌-◌, ◌/◌,
  ◌<◌, ◌^◌, ◌∷◌, ◌≡◌, ◌≢◌, ◌≤◌, nat_comparable, bytes_comparable,
}
use native.Mathlib.Nat.{one-le-pow}

-- The digits of `n`, put in front of `out`; one round of fuel for each digit.
emit : ℕ → ℕ → Bytes → Bytes
emit zero n out = out
emit (suc f) n out =
    let rest = emit f (n / 10) ((b'0' + n % 10) ∷ out) in
    if ltb n 10 then (b'0' + n) ∷ out else rest

-- `suc n` rounds are enough: each round divides by ten.
unfoldable pub format_uint : ℕ → Bytes
unfolding emit
format_uint n = emit (suc n) n []

abbrev pub is_digit : ℕ → Bool
is_digit c = leb b'0' c && leb c b'9'

-- `max` is the largest value of the type; beyond it the parse fails.
scan : ℕ → ℕ → Bytes → Option ℕ
scan max n [] = some n
scan max n (c ∷ s) =
    let m = n * 10 + (c - b'0') in
    let rest = scan max m s in if is_digit c then (if ltb max m then none else rest) else none

unfoldable pub parse_uint : ℕ → Bytes → Option ℕ
unfolding scan
parse_uint bits [] = none
parse_uint bits (c ∷ s) = scan (2 ^ bits - 1) 0 (c ∷ s)

format_165536 : format_uint 165536 ≡ codes "165536"
unfolding format_uint
format_165536 = refl

parse_4294967295 : parse_uint 32 (codes "4294967295") ≡ some 4294967295
unfolding parse_uint
parse_4294967295 = refl

parse_4294967296 : parse_uint 32 (codes "4294967296") ≡ none
unfolding parse_uint
parse_4294967296 = refl

-- The digits of `n` are read back as `n`, and the scan goes on with what follows them.
scan-emit :
    (max f n : ℕ) (out : Bytes) → n < f → n ≤ max → scan max 0 (emit f n out) ≡ scan max n out
unfolding scan emit
scan-emit max zero n out h k = absurd (omega arith)
scan-emit max (suc f) n out h k = ground (arith, scan-emit max f (n / 10) ((b'0' + n % 10) ∷ out))

emit-ne-nil : (f n c : ℕ) (out : Bytes) → emit f n (c ∷ out) ≢ []
unfolding emit
emit-ne-nil zero n c out = λ h. cc
emit-ne-nil (suc f) n c out = ground (arith, emit-ne-nil f (n / 10) (b'0' + n % 10) (c ∷ out))

pub format_uint-ne-nil : (n : ℕ) → format_uint n ≢ []
unfolding format_uint
format_uint-ne-nil n = ground (arith, emit-ne-nil n (n / 10) (b'0' + n % 10) [])

parse_uint-scan : (bits : ℕ) (s : Bytes) → s ≢ [] → parse_uint bits s ≡ scan (2 ^ bits - 1) 0 s
unfolding parse_uint
parse_uint-scan bits [] h = absurd (h refl)
parse_uint-scan bits (c ∷ s) h = refl

-- A number that fits is read back from its decimal print.
pub parse_uint-format_uint : (bits n : ℕ) → n < 2 ^ bits → parse_uint bits (format_uint n) ≡ some n
parse_uint-format_uint bits n h =
    rw (parse_uint-scan bits (format_uint n) (format_uint-ne-nil n))
      (scan-format (2 ^ bits - 1) n (omega arith))
  where
    scan-format : (max n : ℕ) → n ≤ max → scan max 0 (format_uint n) ≡ some n
    scan-format max n k = unfold format_uint scan in scan-emit max (suc n) n [] (omega arith) k

-- Different numbers have different prints.
pub format_uint_inj : (a b : ℕ) → format_uint a ≡ format_uint b → a ≡ b
unfolding format_uint scan
format_uint_inj a b h =
    grind
      (arith, scan-emit (a + b) (suc a) a [], scan-emit (a + b) (suc b) b [], ap (scan (a + b) 0) h)

scan-emit_over : (max f n : ℕ) (out : Bytes) → n < f → max < n → scan max 0 (emit f n out) ≡ none
unfolding scan emit
scan-emit_over max zero n out h k = absurd (omega arith)
scan-emit_over max (suc f) n out h k = ground (
  arith,
  scan-emit_over max f (n / 10) ((b'0' + n % 10) ∷ out),
  scan-emit max f (n / 10) ((b'0' + n % 10) ∷ out),
)

-- The print of a number that does not fit is refused.
pub parse_uint-format_uint_over :
    (bits n : ℕ) → 2 ^ bits ≤ n → parse_uint bits (format_uint n) ≡ none
parse_uint-format_uint_over bits n h =
    rw (parse_uint-scan bits (format_uint n) (format_uint-ne-nil n)) (
      unfold format_uint in
      scan-emit_over (2 ^ bits - 1) (suc n) n [] (omega arith)
        (omega (arith, one-le-pow bits 2 (omega arith))))

scan-digits :
    (max m c : ℕ) (s : Bytes) (n : ℕ)
    → is_digit c ≡ false
    → scan max m s ≡ some n
    → contains s c ≡ false
unfolding scan
scan-digits max m c [] n h e = refl
scan-digits max m c (x ∷ s) n h e = elim (Bool-cases (is_digit x)) [
  | inl digit ↦ ground (
    arith,
    nat_beq_iff x c,
    ap is_digit,
    scan-digits max (m * 10 + (x - b'0')) c s n h,
    e,
    digit,
    h,
  )
  | inr other ↦ absurd (ground (arith, e, other))
]

-- A byte that is no digit is not in the print of a number.
pub format_uint-lacks : (c n : ℕ) → is_digit c ≡ false → contains (format_uint n) c ≡ false
unfolding format_uint scan
format_uint-lacks c n h =
    scan-digits n 0 c (format_uint n) n h (scan-emit n (suc n) n [] (omega arith) (omega arith))

scan-all_digits : (max m : ℕ) (s : Bytes) (n : ℕ) → scan max m s ≡ some n → all is_digit s ≡ true
unfolding scan
scan-all_digits max m [] n h = refl
scan-all_digits max m (x ∷ s) n h = elim (Bool-cases (is_digit x)) [
  | inl digit ↦ ground (arith, scan-all_digits max (m * 10 + (x - b'0')) s n, digit, h)
  | inr other ↦ absurd (ground (arith, other))
]

-- The print of a number has digits only.
pub format_uint-digits : (n : ℕ) → all is_digit (format_uint n) ≡ true
unfolding format_uint scan
format_uint-digits n =
    scan-all_digits n 0 (format_uint n) n (scan-emit n (suc n) n [] (omega arith) (omega arith))
