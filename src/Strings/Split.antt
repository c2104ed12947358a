-- ===== src/Strings/Split.antt =====
-- `strings.Split` at a separator of one byte, `strings.Join`, and `strings.SplitN(s, sep, 2)`.
use sysbox_libs.Prelude.{
  ℕ, ◌≡◌, ◌≢◌, refl, ap, ◌∙◌, false, Option, none, some, List, [], ◌∷◌, ◌++◌, arith, Bytes, ◌==◌,
  nat_comparable, if◌then◌else◌, contains, All,
}

cons_head : ℕ → List Bytes → List Bytes
cons_head x [] = (x ∷ []) ∷ []
cons_head x (t ∷ ts) = (x ∷ t) ∷ ts

unfoldable pub split : ℕ → Bytes → List Bytes
unfolding cons_head
split c [] = [] ∷ []
split c (x ∷ s) = let rest = split c s in if x == c then [] ∷ rest else cons_head x rest

unfoldable pub join : Bytes → List Bytes → Bytes
join sep [] = []
join sep (t ∷ []) = t
join sep (t ∷ u ∷ ts) = t ++ (sep ++ join sep (u ∷ ts))

cons_fst : ℕ → Option (Bytes × Bytes) → Option (Bytes × Bytes)
cons_fst x none = none
cons_fst x (some (k, v)) = some (x ∷ k, v)

-- The two parts that `SplitN(s, sep, 2)` makes, if there is a separator.
unfoldable pub cut : ℕ → Bytes → Option (Bytes × Bytes)
unfolding cons_fst
cut c [] = none
cut c (x ∷ s) = let rest = cut c s in if x == c then some ([], s) else cons_fst x rest

-- The separator is not in the token.
abbrev pub Lacks : ℕ → Bytes → Type 0
Lacks c t = contains t c ≡ false

pub split-append : (c : ℕ) (t s : Bytes) → Lacks c t → split c (t ++ c ∷ s) ≡ t ∷ split c s
unfolding split
split-append c [] s h = ground arith
split-append c (x ∷ t) s h = ground (arith, split-append c t s)

pub split-whole : (c : ℕ) (t : Bytes) → Lacks c t → split c t ≡ t ∷ []
unfolding split
split-whole c [] h = refl
split-whole c (x ∷ t) h = ground (arith, split-whole c t)

-- Tokens that lack the separator are found again in what `join` makes of them.
pub split-join :
    (c : ℕ) (t : Bytes) (ts : List Bytes)
    → All (Lacks c) (t ∷ ts)
    → split c (join (c ∷ []) (t ∷ ts)) ≡ t ∷ ts
unfolding join
split-join c t [] h = split-whole c t h.0
split-join c t (u ∷ ts) h =
    split-append c t (join (c ∷ []) (u ∷ ts)) h.0 ∙ ap (λ r. t ∷ r) (split-join c u ts h.1)

pub cut-append : (c : ℕ) (t s : Bytes) → Lacks c t → cut c (t ++ c ∷ s) ≡ some (t, s)
unfolding cut
cut-append c [] s h = ground arith
cut-append c (x ∷ t) s h = ground (arith, cut-append c t s)

pub cut-none : (c : ℕ) (t : Bytes) → Lacks c t → cut c t ≡ none
unfolding cut
cut-none c [] h = refl
cut-none c (x ∷ t) h = ground (arith, cut-none c t)

cons_head-ne-nil : (x : ℕ) (ts : List Bytes) → cons_head x ts ≢ []
unfolding cons_head
cons_head-ne-nil x [] = ground arith
cons_head-ne-nil x (t ∷ ts) = ground arith

pub split-ne-nil : (c : ℕ) (s : Bytes) → split c s ≢ []
unfolding split
split-ne-nil c [] = ground arith
split-ne-nil c (x ∷ s) = ground (arith, cons_head-ne-nil x (split c s))

join-cons_head :
    (sep : Bytes) (x : ℕ) (ts : List Bytes) → join sep (cons_head x ts) ≡ x ∷ join sep ts
unfolding join cons_head
join-cons_head sep x [] = refl
join-cons_head sep x (t ∷ []) = refl
join-cons_head sep x (t ∷ u ∷ ts) = refl

join-nil : (sep : Bytes) (ts : List Bytes) → ts ≢ [] → join sep ([] ∷ ts) ≡ sep ++ join sep ts
unfolding join
join-nil sep [] h = absurd (h refl)
join-nil sep (t ∷ ts) h = refl

-- Joining the parts gives the string back.
pub join-split : (c : ℕ) (s : Bytes) → join (c ∷ []) (split c s) ≡ s
unfolding split
join-split c [] = unfold join in refl
join-split c (x ∷ s) = grind (
  arith,
  join-split c s,
  join-nil (c ∷ []) (split c s) (split-ne-nil c s),
  join-cons_head (c ∷ []) x (split c s),
)

Lacks-cons_head :
    (c x : ℕ) (ts : List Bytes)
    → (x == c) ≡ false
    → All (Lacks c) ts
    → All (Lacks c) (cons_head x ts)
unfolding cons_head
Lacks-cons_head c x [] h l = ground arith
Lacks-cons_head c x (t ∷ ts) h l = ground arith

-- No part has the separator in it.
pub split-Lacks : (c : ℕ) (s : Bytes) → All (Lacks c) (split c s)
unfolding split
split-Lacks c [] = ground arith
split-Lacks c (x ∷ s) = ground (arith, split-Lacks c s, Lacks-cons_head c x (split c s))
