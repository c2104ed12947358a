-- ===== src/Utils/Env.antt =====
-- GetEnvVarInfo of utils/env.go.
use sysbox_libs.Prelude.{
  All, Bytes, List, Result, [], ap, arith, codes, contains, err, ok, ok_inj, sym, ◌++◌, ◌↔◌, ◌∙◌,
  ◌∷◌, ◌≡◌, nat_comparable, bytes_comparable,
}
use sysbox_libs.Strings.Split.{
  Lacks, join, join-split, split, split-Lacks, split-append, split-whole,
}

pub data EnvError : Type 0 where
  invalid_variable : Bytes → EnvError

unfoldable pub two_tokens : Bytes → List Bytes → Result EnvError (Bytes × Bytes)
two_tokens v [] = err (invalid_variable v)
two_tokens v (name ∷ []) = err (invalid_variable v)
two_tokens v (name ∷ value ∷ []) = ok (name, value)
two_tokens v (name ∷ value ∷ more ∷ rest) = err (invalid_variable v)

unfoldable pub get_env_var_info : Bytes → Result EnvError (Bytes × Bytes)
unfolding two_tokens
get_env_var_info v = two_tokens v (split b'=' v)

-- The parts are two, without the separator in them.
two_tokens-parts :
    (v : Bytes) (parts : List Bytes) (name value : Bytes)
    → two_tokens v parts ≡ ok (name, value)
    → All (Lacks b'=') parts
    → (join (codes "=") parts ≡ name ++ (codes "=" ++ value)) × Lacks b'=' name × Lacks b'=' value
unfolding two_tokens join
two_tokens-parts v [] name value h l = absurd (ground (arith, h))
two_tokens-parts v (a ∷ []) name value h l = absurd (ground (arith, h))
two_tokens-parts v (a ∷ b ∷ []) name value h l =
    let same = ok_inj h in
    (
      ap (λ (t : Bytes × Bytes). t.0 ++ (codes "=" ++ t.1)) same,
      sym (ap (λ (t : Bytes × Bytes). contains t.0 b'=') same) ∙ l.0,
      sym (ap (λ (t : Bytes × Bytes). contains t.1 b'=') same) ∙ l.1.0,
    )
two_tokens-parts v (a ∷ b ∷ c ∷ rest) name value h l = absurd (ground (arith, h))

-- GetEnvVarInfo gives a name and a value exactly if the variable is these two with one `=` between
-- them and no other; so it refuses a value that has a `=` in it.
pub get_env_var_info-split :
    (v name value : Bytes)
    → (get_env_var_info v ≡ ok (name, value))
      ↔ ((v ≡ name ++ (codes "=" ++ value)) × Lacks b'=' name × Lacks b'=' value)
unfolding get_env_var_info
get_env_var_info-split v name value = (
  λ h.
      let (text, ln, lv) = two_tokens-parts v (split b'=' v) name value h (split-Lacks b'=' v) in
      (sym (join-split b'=' v) ∙ text, ln, lv),
  λ facts. found facts.0 facts.1 facts.2,
)
  where
    found :
        v ≡ name ++ (codes "=" ++ value)
        → Lacks b'=' name
        → Lacks b'=' value
        → get_env_var_info v ≡ ok (name, value)
    found text ln lv =
        unfold get_env_var_info two_tokens in
        ap (two_tokens v) (
          ap (split b'=') text
          ∙ split-append b'=' name value ln
          ∙ ap (λ (r : List Bytes). name ∷ r) (split-whole b'=' value lv))
