-- ===== src/Utils/Filepath/Examples.antt =====
-- Concrete sorts of paths, by insertion.
use sysbox_libs.Strings.Path.{clean, clean_elems, is_abs}
use sysbox_libs.Strings.Split.{join, split}
use sysbox_libs.Utils.Filepath.{depth, filepath_sort, less}
use sysbox_libs.Prelude.{
  All, Bool, Bool-cases, Bytes, List, [], arith, codes, contains, false, if◌then◌else◌, inl, inr,
  refl, true, ◌++◌, ◌∷◌, ◌≡◌, nat_comparable, bytes_comparable,
}
use sysbox_libs.Utils.Filepath.Ancestors.{IsOrdered, filepath_sort-ancestor}

abbrev insert_path : (Bytes → Bytes → Bool) → Bytes → List Bytes → List Bytes
insert_path lt p [] = p ∷ []
insert_path lt p (q ∷ qs) =
    let rest = insert_path lt p qs in if lt q p then q ∷ rest else p ∷ q ∷ qs

abbrev insertion_sort : (Bytes → Bytes → Bool) → List Bytes → List Bytes
insertion_sort lt [] = []
insertion_sort lt (p ∷ ps) = insert_path lt p (insertion_sort lt ps)

less_trans : (p q r : Bytes) → less q p ≡ false → less r q ≡ false → less r p ≡ false
unfolding less
less_trans p q r h k = ground (arith, h, k)

less_asym : (p q : Bytes) → less q p ≡ true → less p q ≡ false
unfolding less
less_asym p q h = ground (arith, h)

least_of_all :
    (p q : Bytes) (qs : List Bytes)
    → less q p ≡ false
    → All (λ r. less r q ≡ false) qs
    → All (λ r. less r p ≡ false) qs
least_of_all p q [] h k = tt
least_of_all p q (r ∷ qs) h k = (less_trans p q r h k.0, least_of_all p q qs h k.1)

insert_path-All :
    (p q : Bytes) (qs : List Bytes)
    → less p q ≡ false
    → All (λ r. less r q ≡ false) qs
    → All (λ r. less r q ≡ false) (insert_path less p qs)
insert_path-All p q [] h k = (h, tt)
insert_path-All p q (r ∷ qs) h k = ground (arith, insert_path-All p q qs h k.1, k.0, k.1, h)

insert_path-IsOrdered :
    (p : Bytes) (qs : List Bytes) → IsOrdered less qs → IsOrdered less (insert_path less p qs)
insert_path-IsOrdered p [] h = (tt, tt)
insert_path-IsOrdered p (q ∷ qs) h = elim (Bool-cases (less q p)) [
  | inl before ↦
      rw before (insert_path-All p q qs (less_asym p q before) h.0, insert_path-IsOrdered p qs h.1)
  | inr behind ↦ rw behind ((behind, least_of_all p q qs behind h.0), h)
]

insertion_sort-IsOrdered : (ps : List Bytes) → IsOrdered less (insertion_sort less ps)
insertion_sort-IsOrdered [] = tt
insertion_sort-IsOrdered (p ∷ ps) =
    insert_path-IsOrdered p (insertion_sort less ps) (insertion_sort-IsOrdered ps)

abbrev paths : List Bytes
paths = codes "/a/b/c" ∷ codes "/x/y/z/w" ∷ codes "/d" ∷ codes "/a//b/" ∷ []

sort_test :
    filepath_sort insertion_sort paths
    ≡ (codes "/d" ∷ codes "/a//b/" ∷ []) ++ codes "/a/b/c" ∷ codes "/x/y/z/w" ∷ []
unfolding filepath_sort less depth split clean is_abs join clean_elems
sort_test = refl

clean_ab : clean (codes "/a//b/") ≡ codes "/a/b"
unfolding clean is_abs join clean_elems split
clean_ab = refl

clean_abc : clean (codes "/a/b/c") ≡ codes "/a/b/c"
unfolding clean is_abs join clean_elems split
clean_abc = refl

filepath_sort-ancestor_example : contains (codes "/x/y/z/w" ∷ []) (codes "/a//b/") ≡ false
unfolding join
filepath_sort-ancestor_example =
    filepath_sort-ancestor insertion_sort paths (codes "/d" ∷ codes "/a//b/" ∷ [])
      (codes "/x/y/z/w" ∷ []) (codes "/a/b/c") (codes "/a//b/") (codes "a") (codes "c")
      (codes "b" ∷ []) [] insertion_sort-IsOrdered sort_test clean_ab clean_abc
      (refl, (refl, (refl, tt)))

-- The root has the depth of its children, so that it may stand behind them.
root_test : filepath_sort insertion_sort (codes "/a" ∷ codes "/" ∷ []) ≡ codes "/a" ∷ codes "/" ∷ []
unfolding filepath_sort less depth split clean is_abs join clean_elems
root_test = refl
