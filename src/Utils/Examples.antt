-- ===== src/Utils/Examples.antt =====
-- Concrete slices.
use sysbox_libs.Strings.Split.{split}
use sysbox_libs.Utils.Slices.{
  Mount, is_found, string_slice_remove, string_slice_uniquify, unique_from,
}
use sysbox_libs.Prelude.Table.{insert, lookup}
use sysbox_libs.Prelude.{
  Bytes, Distinct, List, [], codes, contains, err, if◌then◌else◌, refl, ℕ, ◌++◌, ◌∷◌, ◌≡◌,
  nat_comparable, bytes_comparable,
}
use sysbox_libs.Utils.Unique.{string_slice_uniquify-contains}
use sysbox_libs.Utils.Env.{get_env_var_info, invalid_variable}

abbrev words : List Bytes
words = codes "usr" ∷ codes "a" ∷ codes "usr" ∷ codes "b" ∷ []

string_slice_uniquify-contains_example :
    Distinct (string_slice_uniquify words)
    × ((x : Bytes) → contains (string_slice_uniquify words) x ≡ contains words x)
    × ((x : Bytes)
        → string_slice_uniquify (words ++ x ∷ []) ≡ (
            if contains words x
            then string_slice_uniquify words
            else string_slice_uniquify words ++ x ∷ []))
string_slice_uniquify-contains_example = string_slice_uniquify-contains words

abbrev bind_mount : ℕ → Mount
bind_mount rest = record {
  destination = codes "/mnt";
  fstype = codes "bind";
  source = codes "/a";
  options = codes "ro" ∷ [];
  rest = rest;
}

uniquify_test : string_slice_uniquify words ≡ codes "usr" ∷ codes "a" ∷ codes "b" ∷ []
unfolding string_slice_uniquify unique_from lookup insert
uniquify_test = refl

remove_test : string_slice_remove words (codes "usr" ∷ codes "x" ∷ []) ≡ codes "a" ∷ codes "b" ∷ []
unfolding string_slice_remove is_found
remove_test = refl

-- A second `=` is refused.
two_signs_test : get_env_var_info (codes "a=b=c") ≡ err (invalid_variable (codes "a=b=c"))
unfolding get_env_var_info split
two_signs_test = refl
