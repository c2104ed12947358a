-- ===== src/Utils/Filepath/Ancestors.antt =====
-- The order that FilepathSort of utils/filepath.go gives.
use sysbox_libs.Prelude.{
  All, All-front, Bool, Bool-cases, Bytes, List, [], arith, bytes_beq_iff, codes, contains, false,
  inl, inr, length, length-append, lt→ltb, refl, suc, sym, true, ◌++◌, ◌==◌, ◌∷◌, ◌≡◌,
  nat_comparable, bytes_comparable,
}
use sysbox_libs.Utils.Filepath.{depth, filepath_sort, less}
use sysbox_libs.Strings.Path.{clean}
use sysbox_libs.Strings.Split.{Lacks, join, split-append, split-join}
use mathlib.Core.Path.{subst}

-- No element is less than one before it: what `sort.Sort` documents.
abbrev pub IsOrdered : (Bytes → Bytes → Bool) → List Bytes → Type 0
IsOrdered lt [] = Unit
IsOrdered lt (p ∷ ps) = All (λ q. lt q p ≡ false) ps × IsOrdered lt ps

-- The absolute path of the elements, and the elements that a path can have.
abbrev pub path_of : List Bytes → Bytes
path_of elems = b'/' ∷ join (codes "/") elems

depth-path_of :
    (p e : Bytes) (es : List Bytes)
    → clean p ≡ path_of (e ∷ es)
    → All (Lacks b'/') (e ∷ es)
    → depth p ≡ suc (length (e ∷ es))
unfolding depth
depth-path_of p e es h l =
    rw (h, split-append b'/' [] (join (codes "/") (e ∷ es)) refl, split-join b'/' e es l) refl

behind-false :
    (lt : Bytes → Bytes → Bool) (before after : List Bytes) (p q : Bytes)
    → IsOrdered lt (before ++ p ∷ after)
    → contains after q ≡ true
    → lt q p ≡ false
behind-false lt (b ∷ before) after p q h c = behind-false lt before after p q h.1 c
behind-false lt [] after p q h c = among after h.0 c
  where
    among :
        (after : List Bytes)
        → All (λ q. lt q p ≡ false) after
        → contains after q ≡ true
        → lt q p ≡ false
    among [] h c = absurd (ground (arith, c))
    among (r ∷ after) h c = elim (Bool-cases (r == q)) [
      | inl same ↦ rw (sym ((bytes_beq_iff r q).0 same)) h.0
      | inr other ↦ among after h.1 (ground (arith, c, other))
    ]

-- In what FilepathSort gives, if Go's sort leaves no element behind a greater one, no directory
-- stands behind a path below it: when the cleaned paths are absolute, the directory is not the
-- root, and its elements lead those of the other path.
pub filepath_sort-ancestor :
    (sort : (Bytes → Bytes → Bool) → List Bytes → List Bytes) (paths before after : List Bytes)
    (p q e f : Bytes) (es fs : List Bytes)
    → ((paths : List Bytes) → IsOrdered less (sort less paths))
    → filepath_sort sort paths ≡ before ++ p ∷ after
    → clean q ≡ path_of (e ∷ es)
    → clean p ≡ path_of ((e ∷ es) ++ f ∷ fs)
    → All (Lacks b'/') ((e ∷ es) ++ f ∷ fs)
    → contains after q ≡ false
unfolding filepath_sort
filepath_sort-ancestor sort paths before after p q e f es fs sorted h hq hp l =
    elim (Bool-cases (contains after q)) [
      | inl c ↦ absurd (
          ground (
            arith,
            below,
            behind-false less before after p q (subst (IsOrdered less) h (sorted paths)) c,
          ))
      | inr no_q ↦ no_q
    ]
  where
    below : less q p ≡ true
    below =
        unfold less in
        lt→ltb (depth q) (depth p) (
          omega (
            arith,
            depth-path_of q e es hq (All-front (Lacks b'/') (e ∷ es) (f ∷ fs) l),
            depth-path_of p e (es ++ f ∷ fs) hp l,
            length-append es (f ∷ fs),
          ))
