-- ===== src/Utils/Slices.antt =====
-- utils/slices.go.
use sysbox_libs.Prelude.{
  Bool, Bytes, List, [], contains, false, if◌then◌else◌, is_some, length, ltb, nat_beq, not, true,
  ℕ, ◌!=◌, ◌&&◌, ◌++◌, ◌==◌, ◌||◌, ◌∷◌, nat_comparable, bytes_comparable,
}
use sysbox_libs.Prelude.Table.{Table, insert, lookup}

unfoldable pub string_slice_contains : List Bytes → Bytes → Bool
string_slice_contains a x = contains a x

unfoldable pub string_slice_equal : List Bytes → List Bytes → Bool
string_slice_equal [] [] = true
string_slice_equal [] (y ∷ b) = false
string_slice_equal (x ∷ a) [] = false
string_slice_equal (x ∷ a) (y ∷ b) = x == y && string_slice_equal a b

-- The inner loop over `db`, which breaks at the first hit.
unfoldable pub is_found : Bytes → List Bytes → Bool
is_found x [] = false
is_found x (e ∷ db) = let rest = is_found x db in if x == e then true else rest

unfoldable pub string_slice_remove : List Bytes → List Bytes → List Bytes
string_slice_remove [] db = []
string_slice_remove (x ∷ s) db =
    let r = string_slice_remove s db in if not (is_found x db) then x ∷ r else r

unfoldable pub string_slice_remove_match : List Bytes → (Bytes → Bool) → List Bytes
string_slice_remove_match [] match_fn = []
string_slice_remove_match (x ∷ s) match_fn =
    let r = string_slice_remove_match s match_fn in if not (match_fn x) then x ∷ r else r

unfoldable pub unique_from : List Bytes → Table Bytes Bool → List Bytes → List Bytes
unique_from [] seen result = result
unique_from (str ∷ s) seen result =
    if is_some (lookup str seen)
    then unique_from s seen result
    else unique_from s (insert str true seen) (result ++ str ∷ [])

unfoldable pub string_slice_uniquify : List Bytes → List Bytes
string_slice_uniquify s = unique_from s [] []

unfoldable pub shortest_from : List Bytes → Bytes → Bytes
shortest_from [] shortest = shortest
shortest_from (str ∷ s) shortest =
    shortest_from s (if ltb (length str) (length shortest) then str else shortest)

unfoldable pub string_slice_find_shortest : List Bytes → Bytes
string_slice_find_shortest [] = []
string_slice_find_shortest (x ∷ s) = shortest_from (x ∷ s) x

-- `specs.Mount`, a type of the runtime-spec library; `rest` is what the code does not look at.
pub record Mount : Type 0 where
  pub destination : Bytes
  pub fstype : Bytes
  pub source : Bytes
  pub options : List Bytes
  pub rest : ℕ

-- The loop over both slices, which have one length.
unfoldable pub mounts_equal : List Mount → List Mount → Bool
mounts_equal [] b = true
mounts_equal (m ∷ a) [] = false
mounts_equal (m ∷ a) (n ∷ b) =
    let later = mounts_equal a b in
    if m.destination != n.destination
      || m.source != n.source
      || m.fstype != n.fstype
      || not (string_slice_equal m.options n.options)
    then false
    else later

unfoldable pub mount_slice_equal : List Mount → List Mount → Bool
mount_slice_equal a b = if not (nat_beq (length a) (length b)) then false else mounts_equal a b

unfoldable pub matches_any : (Mount → Mount → Bool) → Mount → List Mount → Bool
matches_any cmp m [] = false
matches_any cmp m (e ∷ db) = let later = matches_any cmp m db in if cmp m e then true else later

unfoldable pub mount_slice_remove : List Mount → List Mount → (Mount → Mount → Bool) → List Mount
mount_slice_remove [] db cmp = []
mount_slice_remove (m ∷ s) db cmp =
    let r = mount_slice_remove s db cmp in if not (matches_any cmp m db) then m ∷ r else r

unfoldable pub mount_slice_remove_match : List Mount → (Mount → Bool) → List Mount
mount_slice_remove_match [] match_fn = []
mount_slice_remove_match (m ∷ s) match_fn =
    let r = mount_slice_remove_match s match_fn in if not (match_fn m) then m ∷ r else r

unfoldable pub mount_slice_contains : List Mount → Mount → (Mount → Mount → Bool) → Bool
mount_slice_contains [] x match_fn = false
mount_slice_contains (m ∷ s) x match_fn =
    let later = mount_slice_contains s x match_fn in if match_fn m x then true else later
