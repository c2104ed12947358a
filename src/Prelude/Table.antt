-- ===== src/Prelude/Table.antt =====
-- A Go map as an association list with one entry for each key.
-- `range` walks a Go map in an unspecified order; here it is the order of the list, and the
-- theorems hold for every list.
use mathlib.Core.Path.{◌≡◌, refl}
use mathlib.Core.Bool.{false, ◌||◌}
use mathlib.Core.Option.{Option, none, some}
use mathlib.Core.List.{List, [], ◌∷◌}
use native.Mathlib.Omega.{arith}
use sysbox_libs.Prelude.Tests.{if◌then◌else◌}
use sysbox_libs.Prelude.Lists.{All}
use sysbox_libs.Prelude.Equality.{Comparable, ◌==◌, contains, Distinct}

abbrev pub Table {ℓ κ} : Type ℓ → Type κ → Type (ℓ ⊔ κ)
Table K V = List (K × V)

abbrev pub keys {ℓ κ} : {K : Type ℓ} {V : Type κ} → Table K V → List K
keys [] = []
keys ((k, v) ∷ t) = k ∷ keys t

module _ {ℓ κ} {K : Type ℓ} {V : Type κ} ⦃e : Comparable K⦄ where
  -- `v, ok := t[k]`
  unfoldable pub lookup : K → Table K V → Option V
  lookup k [] = none
  lookup k ((j, v) ∷ t) = if j == k then some v else lookup k t

  -- `t[k] = v`
  unfoldable pub insert : K → V → Table K V → Table K V
  insert k v [] = (k, v) ∷ []
  insert k v ((j, w) ∷ t) = if j == k then (k, v) ∷ t else (j, w) ∷ insert k v t

  -- `delete(t, k)`
  unfoldable pub delete : K → Table K V → Table K V
  delete k [] = []
  delete k ((j, w) ∷ t) = if j == k then delete k t else (j, w) ∷ delete k t

  abbrev pub HasKeys : Table K V → Type 0
  HasKeys t = Distinct (keys t)

  pub lookup-insert :
      (k j : K) (v : V) (t : Table K V)
      → lookup j (insert k v t) ≡ (if k == j then some v else lookup j t)
  unfolding lookup insert
  lookup-insert k j v [] = refl
  lookup-insert k j v ((i, w) ∷ t) =
      ground (arith, e.equal_iff k j, e.equal_iff i k, e.equal_iff i j, lookup-insert k j v t)

  pub lookup-delete :
      (k j : K) (t : Table K V) → lookup j (delete k t) ≡ (if k == j then none else lookup j t)
  unfolding lookup delete
  lookup-delete k j [] = ground arith
  lookup-delete k j ((i, w) ∷ t) =
      ground (arith, e.equal_iff k j, e.equal_iff i k, e.equal_iff i j, lookup-delete k j t)

  pub contains-keys-insert :
      (k j : K) (v : V) (t : Table K V)
      → contains (keys (insert k v t)) j ≡ ((k == j) || contains (keys t) j)
  unfolding insert
  contains-keys-insert k j v [] = ground arith
  contains-keys-insert k j v ((i, w) ∷ t) =
      ground (arith, e.equal_iff i k, contains-keys-insert k j v t)

  pub contains-keys-delete :
      (k j : K) (t : Table K V)
      → contains (keys (delete k t)) j ≡ (if k == j then false else contains (keys t) j)
  unfolding delete
  contains-keys-delete k j [] = ground arith
  contains-keys-delete k j ((i, w) ∷ t) =
      ground (arith, e.equal_iff k j, e.equal_iff i k, e.equal_iff i j, contains-keys-delete k j t)

  pub insert-HasKeys : (k : K) (v : V) (t : Table K V) → HasKeys t → HasKeys (insert k v t)
  unfolding insert
  insert-HasKeys k v [] h = ground arith
  insert-HasKeys k v ((i, w) ∷ t) h = ground (
    arith,
    e.equal_iff i k,
    e.equal_iff k i,
    contains-keys-insert k i v t,
    insert-HasKeys k v t h.1,
  )

  pub delete-HasKeys : (k : K) (t : Table K V) → HasKeys t → HasKeys (delete k t)
  unfolding delete
  delete-HasKeys k [] h = h
  delete-HasKeys k ((i, w) ∷ t) h =
      ground (arith, contains-keys-delete k i t, delete-HasKeys k t h.1)

  -- A key is found exactly if it is among the keys.
  pub lookup_of_contains : (k : K) (t : Table K V) → contains (keys t) k ≡ false → lookup k t ≡ none
  unfolding lookup
  lookup_of_contains k [] h = refl
  lookup_of_contains k ((i, w) ∷ t) h = ground (arith, lookup_of_contains k t)

module _ {ℓ κ μ} {K : Type ℓ} {V : Type κ} ⦃e : Comparable K⦄ (P : K × V → Type μ) where
  pub insert-All : (k : K) (v : V) (t : Table K V) → P (k, v) → All P t → All P (insert k v t)
  unfolding insert
  insert-All k v [] p h = (p, tt)
  insert-All k v ((j, w) ∷ t) p h = ground (arith, insert-All k v t p h.1)

  pub delete-All : (k : K) (t : Table K V) → All P t → All P (delete k t)
  unfolding delete
  delete-All k [] h = h
  delete-All k ((j, w) ∷ t) h = ground (arith, delete-All k t h.1)
