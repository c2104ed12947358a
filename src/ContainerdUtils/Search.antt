-- ===== src/ContainerdUtils/Search.antt =====
-- The search for the configuration file in containerdUtils/containerdUtils.go.
use sysbox_libs.Prelude.{
  All, Bytes, List, Option, Result, [], ap, eq_ne, err, none, ok, refl, some, ℕ, ◌++◌, ◌∙◌, ◌∷◌,
  ◌≡◌, ◌≢◌, nat_comparable, bytes_comparable,
}
use sysbox_libs.ContainerdUtils.{
  Error, default_data_root, first_root, is_not_exist, on_opened, on_parsed, parse_data_root,
  root_or_default,
}

module _ (open_file : Bytes → Option ℕ) (decode : Bytes → Result Bytes Bytes) where
  on_parsed-opened :
      (path : Bytes) (o : Option ℕ) (next : Result Error Bytes)
      → o ≢ some 2
      → on_parsed path (on_opened o (decode path)) next
        ≡ on_parsed path (on_opened o (decode path)) (ok default_data_root)
  unfolding on_parsed on_opened
  on_parsed-opened path none next n = on_decoded (decode path)
    where
      on_decoded :
          (r : Result Bytes Bytes)
          → on_parsed path (root_or_default r) next
            ≡ on_parsed path (root_or_default r) (ok default_data_root)
      on_decoded (ok root) = unfold root_or_default in refl
      on_decoded (err why) = unfold root_or_default is_not_exist in refl
  on_parsed-opened path (some e) next n =
      unfold is_not_exist in rw (eq_ne e 2 (λ h. n (ap some h))) refl

  pass_missing :
      (path : Bytes) (o : Option ℕ) (next : Result Error Bytes)
      → o ≡ some 2
      → on_parsed path (on_opened o (decode path)) next ≡ next
  unfolding on_parsed on_opened is_not_exist
  pass_missing path o next h = rw h refl

  -- The files before the first one that is there play no part, and those behind it neither.
  pub first_root-append :
      (before after : List Bytes) (path : Bytes)
      → All (λ p. open_file p ≡ some 2) before
      → open_file path ≢ some 2
      → first_root open_file decode (before ++ path ∷ after)
        ≡ first_root open_file decode (path ∷ [])
  unfolding first_root parse_data_root
  first_root-append [] after path h n = on_parsed-opened path (open_file path) _ n
  first_root-append (p ∷ before) after path h n =
      pass_missing p (open_file p) (first_root open_file decode (before ++ path ∷ after)) h.0
      ∙ first_root-append before after path h.1 n
