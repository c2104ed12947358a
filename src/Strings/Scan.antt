-- ===== src/Strings/Scan.antt =====
-- `fmt.Sscanf`, one part of the format at a time, on a text with no line end in it: a verb or a
-- character takes its share of the text and leaves the rest, or the scan fails.
use sysbox_libs.Prelude.{
  Bool, Bytes, Option, [], all, ap, arith, false, if◌then◌else◌, nat_beq, none, not, refl, some,
  true, ℕ, ◌++◌, ◌<◌, ◌^◌, ◌||◌, ◌∷◌, ◌≡◌, ◌≢◌,
}
use sysbox_libs.Prelude.Int.{pos, ℤ}
use sysbox_libs.Strings.Trim.{Free, is_space, trim_left}
use sysbox_libs.Strings.Atoi.{atoi, atoi-format_uint}
use sysbox_libs.Strings.Decimal.{format_uint, format_uint-digits, format_uint-ne-nil, is_digit}
use sysbox_libs.Strings.Fields.{IsWord, is_outside}

-- The longest part at the front whose bytes pass, and the rest.
span : (ℕ → Bool) → Bytes → Bytes × Bytes
span p [] = ([], [])
span p (c ∷ s) = let rest = span p s in if p c then (c ∷ rest.0, rest.1) else ([], c ∷ s)

with_value : Option ℤ → Bytes → Option (ℤ × Bytes)
with_value none s = none
with_value (some n) s = some (n, s)

is_sign : ℕ → Bool
is_sign c = nat_beq c b'-' || nat_beq c b'+'

scan_number : Bytes → Option (ℤ × Bytes)
unfolding with_value span is_sign
scan_number [] = none
scan_number (c ∷ s) =
    if is_sign c
    then with_value (atoi (c ∷ (span is_digit s).0)) (span is_digit s).1
    else with_value (atoi (span is_digit (c ∷ s)).0) (span is_digit (c ∷ s)).1

-- `%d`
unfoldable pub scan_int : Bytes → Option (ℤ × Bytes)
unfolding scan_number
scan_int s = scan_number (trim_left is_space s)

scan_token : Bytes → Option (Bytes × Bytes)
unfolding span
scan_token [] = none
scan_token (c ∷ s) = some (span (λ d. not (is_space d)) (c ∷ s))

-- `%s`
unfoldable pub scan_word : Bytes → Option (Bytes × Bytes)
unfolding scan_token
scan_word s = scan_token (trim_left is_space s)

-- A blank of the format.
unfoldable pub scan_blank : Bytes → Option Bytes
scan_blank [] = some []
scan_blank (c ∷ s) = if is_space c then some (trim_left is_space s) else none

-- Another character of the format.
unfoldable pub scan_char : ℕ → Bytes → Option Bytes
scan_char d [] = none
scan_char d (c ∷ s) = if nat_beq c d then some s else none

span-all :
    (p : ℕ → Bool) (a : Bytes) (c : ℕ) (s : Bytes)
    → all p a ≡ true
    → p c ≡ false
    → span p (a ++ c ∷ s) ≡ (a, c ∷ s)
unfolding span
span-all p [] c s h e = rw e refl
span-all p (d ∷ a) c s h e = ground (arith, span-all p a c s)

trim_left-at : (p : ℕ → Bool) (c : ℕ) (s : Bytes) → p c ≡ false → trim_left p (c ∷ s) ≡ c ∷ s
unfolding trim_left
trim_left-at p c s h = rw h refl

scan_number-digits :
    (w : Bytes) (n : ℤ) (c : ℕ) (s : Bytes)
    → all is_digit w ≡ true
    → w ≢ []
    → atoi w ≡ some n
    → is_digit c ≡ false
    → scan_int (w ++ c ∷ s) ≡ some (n, c ∷ s)
scan_number-digits [] n c s d h e k = absurd (h refl)
scan_number-digits (x ∷ w) n c s d h e k =
    unfold scan_int in
    rw (trim_left-at is_space x (w ++ c ∷ s) (ground (arith, d))) (
      unfold scan_number is_sign with_value in
      rw (span-all is_digit (x ∷ w) c s d k, e) (ground (arith, d)))

-- A number is scanned up to what follows it.
pub scan_int-format_uint :
    (n c : ℕ) (s : Bytes)
    → n < 2 ^ 63
    → is_digit c ≡ false
    → scan_int (format_uint n ++ c ∷ s) ≡ some (pos n, c ∷ s)
scan_int-format_uint n c s h e =
    scan_number-digits (format_uint n) (pos n) c s (format_uint-digits n) (format_uint-ne-nil n)
      (atoi-format_uint n h) e

unspaced : (w : Bytes) → Free is_outside w → all (λ d. not (is_space d)) w ≡ true
unspaced [] h = refl
unspaced (c ∷ w) h = ground (arith, unspaced w)

-- A word is scanned up to the white space that follows it.
pub scan_word-append :
    (w : Bytes) (c : ℕ) (s : Bytes)
    → IsWord w
    → is_space c ≡ true
    → scan_word (w ++ c ∷ s) ≡ some (w, c ∷ s)
scan_word-append [] c s h e = absurd (ground (arith, h.1))
scan_word-append (x ∷ w) c s h e =
    unfold scan_word in
    rw (trim_left-at is_space x (w ++ c ∷ s) (ground (arith, h.0))) (
      unfold scan_token in
      ap some (span-all (λ d. not (is_space d)) (x ∷ w) c s (unspaced (x ∷ w) h.0) (rw e refl)))

pub scan_blank-blank :
    (c : ℕ) (s : Bytes) → is_space c ≡ true → scan_blank (c ∷ s) ≡ some (trim_left is_space s)
unfolding scan_blank
scan_blank-blank c s h = rw h refl
