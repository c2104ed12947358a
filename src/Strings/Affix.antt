-- ===== src/Strings/Affix.antt =====
-- `strings.HasPrefix`, `strings.TrimPrefix` and `strings.Contains`.
use sysbox_libs.Prelude.{
  ◌≡◌, refl, Bool, ◌||◌, Option, none, some, [], ◌∷◌, ◌++◌, arith, Bytes, ◌==◌, nat_comparable,
  eq_refl, if◌then◌else◌, is_some,
}

-- What follows the prefix, if it is there.
unfoldable pub strip_prefix : Bytes → Bytes → Option Bytes
strip_prefix [] s = some s
strip_prefix (p ∷ ps) [] = none
strip_prefix (p ∷ ps) (x ∷ s) = let rest = strip_prefix ps s in if p == x then rest else none

abbrev pub has_prefix : Bytes → Bytes → Bool
has_prefix s p = is_some (strip_prefix p s)

or_else : Option Bytes → Bytes → Bytes
or_else none s = s
or_else (some r) s = r

unfoldable pub trim_prefix : Bytes → Bytes → Bytes
unfolding or_else
trim_prefix s p = or_else (strip_prefix p s) s

-- Whether the second string stands in the first.
unfoldable pub has_part : Bytes → Bytes → Bool
has_part [] sub = has_prefix [] sub
has_part (x ∷ s) sub = has_prefix (x ∷ s) sub || has_part s sub

pub strip_prefix-append : (p s : Bytes) → strip_prefix p (p ++ s) ≡ some s
unfolding strip_prefix
strip_prefix-append [] s = refl
strip_prefix-append (x ∷ p) s = ground (arith, strip_prefix-append p s, eq_refl x)

pub trim_prefix-append : (p s : Bytes) → trim_prefix (p ++ s) p ≡ s
unfolding trim_prefix
trim_prefix-append p s = rw (strip_prefix-append p s) refl

pub strip_prefix-eq : (p s r : Bytes) → strip_prefix p s ≡ some r → s ≡ p ++ r
unfolding strip_prefix
strip_prefix-eq [] s r h = ground arith
strip_prefix-eq (x ∷ p) [] r h = ground arith
strip_prefix-eq (x ∷ p) (y ∷ s) r h = ground (arith, strip_prefix-eq p s r)
