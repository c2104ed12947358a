-- ===== src/Utils/Compare.antt =====
-- How the slice functions of utils/slices.go compare and remove.
use sysbox_libs.Prelude.{
  Bool, Bytes, List, [], ap, arith, bytes_beq_iff, contains, length, map, nat_beq, not, refl, true,
  ◌!=◌, ◌&&◌, ◌||◌, ◌↔◌, ◌∷◌, ◌≡◌, nat_comparable, bytes_comparable,
}
use sysbox_libs.Utils.Slices.{
  Mount, is_found, matches_any, mount_slice_contains, mount_slice_equal, mount_slice_remove,
  mount_slice_remove_match, mounts_equal, string_slice_contains, string_slice_equal,
  string_slice_remove, string_slice_remove_match,
}

string_slice_equal_iff : (a b : List Bytes) → (string_slice_equal a b ≡ true) ↔ (a ≡ b)
unfolding string_slice_equal
string_slice_equal_iff [] [] = ground arith
string_slice_equal_iff [] (y ∷ b) = ground arith
string_slice_equal_iff (x ∷ a) [] = ground arith
string_slice_equal_iff (x ∷ a) (y ∷ b) =
    ground (arith, bytes_beq_iff x y, string_slice_equal_iff a b)

-- The fields that are compared.
abbrev pub compared : Mount → Bytes × Bytes × Bytes × List Bytes
compared m = (m.destination, m.source, m.fstype, m.options)

same_mount : Mount → Mount → Bool
same_mount m n = not (
    m.destination != n.destination
    || m.source != n.source
    || m.fstype != n.fstype
    || not (string_slice_equal m.options n.options))

same_mount_iff : (m n : Mount) → (same_mount m n ≡ true) ↔ (compared m ≡ compared n)
unfolding same_mount
same_mount_iff m n = (
  λ h.
      fields (grind (arith, h, (bytes_beq_iff m.destination n.destination).0))
        (grind (arith, h, (bytes_beq_iff m.source n.source).0))
        (grind (arith, h, (bytes_beq_iff m.fstype n.fstype).0))
        (grind (arith, h, (string_slice_equal_iff m.options n.options).0)),
  λ p.
      rw
        (
          (bytes_beq_iff m.destination n.destination).1
              (ap (λ (t : Bytes × Bytes × Bytes × List Bytes). t.0) p),
          (bytes_beq_iff m.source n.source).1
              (ap (λ (t : Bytes × Bytes × Bytes × List Bytes). t.1) p),
          (bytes_beq_iff m.fstype n.fstype).1
              (ap (λ (t : Bytes × Bytes × Bytes × List Bytes). t.2) p),
          (string_slice_equal_iff m.options n.options).1
              (ap (λ (t : Bytes × Bytes × Bytes × List Bytes). t.3) p),
        )
        refl,
)
  where
    fields :
        m.destination ≡ n.destination
        → m.source ≡ n.source
        → m.fstype ≡ n.fstype
        → m.options ≡ n.options
        → compared m ≡ compared n
    fields d s t o = rw (d, s, t, o) refl

both_equal : List Mount → List Mount → Bool
both_equal a b = nat_beq (length a) (length b) && mounts_equal a b

both_equal-cons :
    (m n : Mount) (a b : List Mount)
    → both_equal (m ∷ a) (n ∷ b) ≡ (same_mount m n && both_equal a b)
unfolding both_equal mounts_equal same_mount
both_equal-cons m n a b = ground arith

both_equal_iff : (a b : List Mount) → (both_equal a b ≡ true) ↔ (map compared a ≡ map compared b)
both_equal_iff [] [] = unfold both_equal mounts_equal in (λ _. refl, λ _. refl)
both_equal_iff [] (n ∷ b) = unfold both_equal in ground arith
both_equal_iff (m ∷ a) [] = unfold both_equal in ground arith
both_equal_iff (m ∷ a) (n ∷ b) =
    ground (arith, both_equal-cons m n a b, same_mount_iff m n, both_equal_iff a b)

-- MountSliceEqual is true exactly if the slices have the same destinations, sources, types and
-- options in the same order, whatever their further fields.
pub mount_slice_equal_iff :
    (a b : List Mount) → (mount_slice_equal a b ≡ true) ↔ (map compared a ≡ map compared b)
unfolding mount_slice_equal both_equal
mount_slice_equal_iff a b = ground (arith, both_equal_iff a b)

found-contains : (x : Bytes) (db : List Bytes) → is_found x db ≡ contains db x
unfolding is_found
found-contains x [] = refl
found-contains x (e ∷ db) =
    ground (arith, found-contains x db, bytes_beq_iff x e, bytes_beq_iff e x)

matches-contains :
    (cmp : Mount → Mount → Bool) (m : Mount) (db : List Mount)
    → matches_any cmp m db ≡ mount_slice_contains db m (λ a b. cmp b a)
unfolding matches_any mount_slice_contains
matches-contains cmp m [] = refl
matches-contains cmp m (e ∷ db) = ground (arith, matches-contains cmp m db)

strings_removed :
    (s db : List Bytes)
    → string_slice_remove s db ≡ string_slice_remove_match s (λ x. string_slice_contains db x)
unfolding string_slice_remove string_slice_remove_match string_slice_contains
strings_removed [] db = refl
strings_removed (x ∷ s) db = ground (arith, strings_removed s db, found-contains x db)

mounts_removed :
    (s db : List Mount) (cmp : Mount → Mount → Bool)
    → mount_slice_remove s db cmp
      ≡ mount_slice_remove_match s (λ m. mount_slice_contains db m (λ a b. cmp b a))
unfolding mount_slice_remove mount_slice_remove_match
mounts_removed [] db cmp = refl
mounts_removed (m ∷ s) db cmp = ground (arith, mounts_removed s db cmp, matches-contains cmp m db)

-- StringSliceRemove removes what StringSliceContains finds in the second slice, as
-- StringSliceRemoveMatch does with that test; and MountSliceRemove removes what MountSliceContains
-- finds with the comparison, its arguments exchanged, as MountSliceRemoveMatch does with that
-- test.
pub string_slice_remove-string_slice_remove_match :
    (s db : List Bytes) (ms mdb : List Mount) (cmp : Mount → Mount → Bool)
    → (string_slice_remove s db ≡ string_slice_remove_match s (λ x. string_slice_contains db x))
      × (mount_slice_remove ms mdb cmp
          ≡ mount_slice_remove_match ms (λ m. mount_slice_contains mdb m (λ a b. cmp b a)))
string_slice_remove-string_slice_remove_match s db ms mdb cmp =
    (strings_removed s db, mounts_removed ms mdb cmp)
