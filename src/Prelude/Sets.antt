-- ===== src/Prelude/Sets.antt =====
-- Finite sets as lists without repetition, with which the parameters for sets are filled.
use mathlib.Core.Path.{◌≡◌, refl}
use mathlib.Core.Logic.{◌⊎◌, inl, inr}
use mathlib.Core.Bool.{Bool, true, false, ◌&&◌, ◌||◌}
use mathlib.Core.List.{List, [], ◌∷◌}
use native.Mathlib.Omega.{arith}
use sysbox_libs.Prelude.Tests.{Bool-cases}
use sysbox_libs.Prelude.Lists.{keep}
use sysbox_libs.Prelude.Equality.{Comparable, ◌==◌, contains, Distinct}

abbrev pub Members {ℓ} : (A : Type ℓ) ⦃e : Comparable A⦄ → Type ℓ
Members A = (xs : List A) × Distinct xs

module _ {ℓ} {A : Type ℓ} ⦃e : Comparable A⦄ where
  add_new :
      (x : A) (xs : List A)
      → Distinct xs
      → (contains xs x ≡ true) ⊎ (contains xs x ≡ false)
      → Members A
  add_new x xs d (inl old) = (xs, d)
  add_new x xs d (inr new) = (x ∷ xs, (new, d))

  pub add_member : A → Members A → Members A
  add_member x s = add_new x s.0 s.1 (Bool-cases (contains s.0 x))

  contains-add_new :
      (x : A) (xs : List A) (d : Distinct xs) (y : A)
      (c : (contains xs x ≡ true) ⊎ (contains xs x ≡ false))
      → contains (add_new x xs d c).0 y ≡ ((x == y) || contains xs y)
  unfolding add_new
  contains-add_new x xs d y (inl old) = ground (arith, old, e.equal_iff x y)
  contains-add_new x xs d y (inr new) = refl

  pub contains-add_member :
      (x : A) (s : Members A) (y : A) → contains (add_member x s).0 y ≡ ((x == y) || contains s.0 y)
  unfolding add_member
  contains-add_member x s y = contains-add_new x s.0 s.1 y (Bool-cases (contains s.0 x))

  module _ (p : A → Bool) where
    pub contains-keep : (xs : List A) (y : A) → contains (keep p xs) y ≡ (contains xs y && p y)
    contains-keep [] y = refl
    contains-keep (x ∷ xs) y = ground (arith, contains-keep xs y, e.equal_iff x y)

    pub keep-Distinct : (xs : List A) → Distinct xs → Distinct (keep p xs)
    keep-Distinct [] d = d
    keep-Distinct (x ∷ xs) d = ground (arith, keep-Distinct xs, contains-keep xs x, d)

  pub keep_members : (A → Bool) → Members A → Members A
  keep_members p s = (keep p s.0, keep-Distinct p s.0 s.1)

  pub contains-keep_members :
      (p : A → Bool) (s : Members A) (y : A)
      → contains (keep_members p s).0 y ≡ (contains s.0 y && p y)
  unfolding keep_members
  contains-keep_members p s y = contains-keep p s.0 y
