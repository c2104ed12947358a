-- ===== src/Utils/Unique.antt =====
-- What StringSliceUniquify and StringSliceFindShortest of utils/slices.go give.
use sysbox_libs.Prelude.{
  All, Bool, Bool-cases, Bytes, Distinct, List, [], arith, bytes_beq_iff, contains, contains-append,
  false, if◌then◌else◌, inl, inr, is_some, length, ltb, ltb→lt, or_false, refl, sym, true, ◌++◌,
  ◌==◌, ◌||◌, ◌∙◌, ◌∷◌, ◌≡◌, ◌≤◌, ◌⊎◌, nat_comparable, bytes_comparable,
}
use sysbox_libs.Prelude.Table.{Table, insert, lookup, lookup-insert}
use sysbox_libs.Utils.Slices.{
  shortest_from, string_slice_find_shortest, string_slice_uniquify, unique_from,
}

-- The table has the elements of the result as keys.
abbrev Tracks : Table Bytes Bool → List Bytes → Type 0
Tracks seen result = (x : Bytes) → is_some (lookup x seen) ≡ contains result x

insert-Tracks :
    (str : Bytes) (seen : Table Bytes Bool) (result : List Bytes)
    → Tracks seen result
    → Tracks (insert str true seen) (result ++ str ∷ [])
insert-Tracks str seen result h x = elim (Bool-cases (str == x)) [
  | inl same ↦
      grind (arith, lookup-insert str x true seen, contains-append result (str ∷ []) x, same)
  | inr other ↦
      grind (arith, lookup-insert str x true seen, contains-append result (str ∷ []) x, other, h x)
]

snoc-Distinct :
    (str : Bytes) (result : List Bytes)
    → contains result str ≡ false
    → Distinct result
    → Distinct (result ++ str ∷ [])
snoc-Distinct str [] h d = (refl, tt)
snoc-Distinct str (x ∷ result) h d = grind (
  arith,
  contains-append result (str ∷ []) x,
  bytes_beq_iff x str,
  bytes_beq_iff str x,
  snoc-Distinct str result,
  d,
  h,
)

abbrev Same : List Bytes → List Bytes → List Bytes → Type 0
Same s result r = (x : Bytes) → contains r x ≡ (contains result x || contains s x)

unique_from-members :
    (s : List Bytes) (seen : Table Bytes Bool) (result : List Bytes)
    → Tracks seen result
    → Distinct result
    → Distinct (unique_from s seen result) × Same s result (unique_from s seen result)
unfolding unique_from
unique_from-members [] seen result h d = (d, λ x. sym (or_false (contains result x)))
unique_from-members (str ∷ s) seen result h d = elim (Bool-cases (is_some (lookup str seen))) [
  | inl old ↦
      let (d', same) = unique_from-members s seen result h d in
      rw old (d', λ x. same x ∙ known x (sym (h str) ∙ old))
  | inr new ↦
      let (d', same) =
        unique_from-members s (insert str true seen) (result ++ str ∷ [])
          (insert-Tracks str seen result h) (snoc-Distinct str result (sym (h str) ∙ new) d) in
      rw new (d', λ x. same x ∙ grind (arith, contains-append result (str ∷ []) x))
]
  where
    known :
        (x : Bytes)
        → contains result str ≡ true
        → (contains result x || contains s x) ≡ (contains result x || ((str == x) || contains s x))
    known x old = ground (arith, old, bytes_beq_iff str x)

unique_from-snoc :
    (s : List Bytes) (x : Bytes) (seen : Table Bytes Bool) (result : List Bytes)
    → Tracks seen result
    → unique_from (s ++ x ∷ []) seen result ≡ (
        if contains (unique_from s seen result) x
        then unique_from s seen result
        else unique_from s seen result ++ x ∷ [])
unfolding unique_from
unique_from-snoc [] x seen result h = rw (h x) refl
unique_from-snoc (str ∷ s) x seen result h = elim (Bool-cases (is_some (lookup str seen))) [
  | inl old ↦ rw old (unique_from-snoc s x seen result h)
  | inr new ↦ rw new (
      unique_from-snoc s x (insert str true seen) (result ++ str ∷ [])
        (insert-Tracks str seen result h))
]

-- StringSliceUniquify gives the elements of the slice, each once, in the order in which they first
-- occur: an element at the end of the slice is appended if it did not occur before, and changes
-- nothing otherwise.
pub string_slice_uniquify-contains :
    (s : List Bytes)
    → Distinct (string_slice_uniquify s)
      × ((x : Bytes) → contains (string_slice_uniquify s) x ≡ contains s x)
      × ((x : Bytes)
          → string_slice_uniquify (s ++ x ∷ [])
            ≡ (if contains s x then string_slice_uniquify s else string_slice_uniquify s ++ x ∷ []))
unfolding string_slice_uniquify
string_slice_uniquify-contains s =
    let members = unique_from-members s [] [] none_seen tt in
    (members.0, members.1, λ x. unique_from-snoc s x [] [] none_seen ∙ rw (members.1 x) refl)
  where
    none_seen : Tracks [] []
    none_seen x = unfold lookup in refl

Shorter : Bytes → Bytes → Type 0
Shorter r x = length r ≤ length x

abbrev shorter_of : Bytes → Bytes → Bytes
shorter_of str shortest = if ltb (length str) (length shortest) then str else shortest

shorter_of-facts :
    (str shortest : Bytes)
    → (length (shorter_of str shortest) ≤ length shortest)
      × (length (shorter_of str shortest) ≤ length str)
      × ((shorter_of str shortest ≡ str) ⊎ (shorter_of str shortest ≡ shortest))
shorter_of-facts str shortest = elim (Bool-cases (ltb (length str) (length shortest))) [
  | inl less ↦
      rw less (omega (arith, ltb→lt (length str) (length shortest) less), omega arith, inl refl)
  | inr more ↦ rw more (omega arith, not_less more, inr refl)
]
  where
    not_less : ltb (length str) (length shortest) ≡ false → length shortest ≤ length str
    not_less more = ground (arith, more)

found_later :
    (s : List Bytes) (str shortest next r : Bytes)
    → (next ≡ str) ⊎ (next ≡ shortest)
    → (r ≡ next) ⊎ (contains s r ≡ true)
    → (r ≡ shortest) ⊎ (((str == r) || contains s r) ≡ true)
found_later s str shortest next r (inl is_str) (inl is_next) =
    inr (rw ((bytes_beq_iff str r).1 (sym (is_next ∙ is_str))) refl)
found_later s str shortest next r (inr is_old) (inl is_next) = inl (is_next ∙ is_old)
found_later s str shortest next r old (inr later) = inr (ground (arith, later))

shortest_from-shortest :
    (s : List Bytes) (shortest : Bytes)
    → (length (shortest_from s shortest) ≤ length shortest)
      × All (Shorter (shortest_from s shortest)) s
      × ((shortest_from s shortest ≡ shortest) ⊎ (contains s (shortest_from s shortest) ≡ true))
unfolding shortest_from Shorter
shortest_from-shortest [] shortest = (omega arith, tt, inl refl)
shortest_from-shortest (str ∷ s) shortest =
    let (le, shorter, old) = shortest_from-shortest s (shorter_of str shortest) in
    let (le_old, le_str, which) = shorter_of-facts str shortest in
    (
      omega (arith, le, le_old),
      (omega (arith, le, le_str), shorter),
      found_later s str shortest (shorter_of str shortest) _ which old,
    )

-- StringSliceFindShortest gives an element of a slice that is not empty, and none of the slice is
-- shorter.
pub string_slice_find_shortest-shortest :
    (x : Bytes) (s : List Bytes)
    → (contains (x ∷ s) (string_slice_find_shortest (x ∷ s)) ≡ true)
      × All (λ y. length (string_slice_find_shortest (x ∷ s)) ≤ length y) (x ∷ s)
unfolding string_slice_find_shortest Shorter
string_slice_find_shortest-shortest x s =
    let (le, shorter, which) = shortest_from-shortest (x ∷ s) x in (in_slice which, shorter)
  where
    in_slice : {r : Bytes} → (r ≡ x) ⊎ (contains (x ∷ s) r ≡ true) → contains (x ∷ s) r ≡ true
    in_slice (inl same) = rw ((bytes_beq_iff x _).1 (sym same)) refl
    in_slice (inr found) = found
