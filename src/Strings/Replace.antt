-- ===== src/Strings/Replace.antt =====
-- `strings.Replace(s, old, new, -1)` for an `old` that is not empty, and `strings.ContainsAny` for
-- sets of ASCII characters.
use sysbox_libs.Prelude.{
  Bool, Bytes, [], arith, codes, contains, false, if◌then◌else◌, length, nat_beq_iff, refl, suc,
  zero, ℕ, ◌++◌, ◌-◌, ◌||◌, ◌∷◌, ◌≡◌, nat_comparable, bytes_comparable,
}
use sysbox_libs.Strings.Affix.{has_prefix}

-- `skip` bytes belong to an occurrence that has been replaced.
replace_from : Bytes → Bytes → ℕ → Bytes → Bytes
replace_from old new skip [] = []
replace_from old new (suc skip) (c ∷ s) = replace_from old new skip s
replace_from old new zero (c ∷ s) =
    let found = has_prefix (c ∷ s) old in
    (if found then new else c ∷ []) ++ replace_from old new (if found then length old - 1 else 0) s

unfoldable pub replace_all : Bytes → Bytes → Bytes → Bytes
unfolding replace_from
replace_all s old new = replace_from old new 0 s

unfoldable pub contains_any : Bytes → Bytes → Bool
contains_any [] chars = false
contains_any (c ∷ s) chars = contains chars c || contains_any s chars

replace_test : replace_all (codes "a\\\"b\\\\\"") (codes "\\\"") (codes "\"") ≡ codes "a\"b\\\""
unfolding replace_all sysbox_libs.Strings.Affix.strip_prefix
replace_test = refl

-- Nothing changes where the first character of `old` does not stand.
pub replace_all-Lacks :
    (x : ℕ) (old new s : Bytes) → contains s x ≡ false → replace_all s (x ∷ old) new ≡ s
unfolding replace_all replace_from sysbox_libs.Strings.Affix.strip_prefix
replace_all-Lacks x old new [] h = unfold replace_from in refl
replace_all-Lacks x old new (c ∷ s) h =
    ground (arith, replace_all-Lacks x old new s, nat_beq_iff x c, nat_beq_iff c x)

pub contains_any-Lacks :
    (x : ℕ) (s : Bytes) → contains s x ≡ false → contains_any s (x ∷ []) ≡ false
unfolding contains_any
contains_any-Lacks x [] h = refl
contains_any-Lacks x (c ∷ s) h =
    ground (arith, contains_any-Lacks x s, nat_beq_iff x c, nat_beq_iff c x)
