-- ===== src/IdShift/DirIds.antt =====
-- GetDirIDs of idShiftUtils/idShiftUtils.go: the owners of the files of a tree.
use sysbox_libs.Prelude.{
  Option, ℕ, ◌≡◌, refl, ap, ◌∙◌, ◌||◌, none, some, List, [], ◌∷◌, arith, Result, ok, err, ◌>>=◌,
  or_false, Bytes, ◌==◌, nat_comparable, contains, Distinct, any,
}
use sysbox_libs.IdShift.Shift.{Kernel, FileInfo, StatT, Error, lstat_failed, read_failed, no_stat}
use sysbox_libs.IdShift.Shift.Laws.{Lawful}

-- The set library: a slice of a set lists its members in some order, each once.
pub record Sets : Type 1 where
  pub IdSet : Type 0
  pub empty : IdSet
  pub add : ℕ → IdSet → IdSet
  pub to_slice : IdSet → List ℕ
  pub to_slice-empty : to_slice empty ≡ []
  pub to_slice-add :
      (x : ℕ) (s : IdSet) (y : ℕ)
      → contains (to_slice (add x s)) y ≡ ((x == y) || contains (to_slice s) y)
  pub to_slice-Distinct : (s : IdSet) → Distinct (to_slice s)

module _ (sets : Sets) {S : Type 0} (k : Kernel S) where
  open sets use {IdSet, empty, add, to_slice}

  stat_of : Result ℕ FileInfo → Result Error StatT
  stat_of (err e) = err (lstat_failed e)
  stat_of (ok fi) = elim fi.sys [ none ↦ err no_stat | some st ↦ ok st ]

  read_stat : Bytes → Option ℕ → StatT → Result Error StatT
  read_stat path none st = ok st
  read_stat path (some e) st = err (read_failed path e)

  -- The walk: it has no error callback, so it halts at the first error, which the callback or the
  -- reading of a directory gives.
  pub collect : List Bytes → S → IdSet × IdSet → Result Error (IdSet × IdSet)
  unfolding stat_of read_stat
  collect [] s found = ok found
  collect (path ∷ rest) s (uid_set, gid_set) = do
    found ← stat_of (k.lstat path s)
    st ← read_stat path (k.read_error path s) found
    collect rest s (add st.uid uid_set, add st.gid gid_set)

  pub get_dir_ids : List Bytes → S → Result Error (List ℕ × List ℕ)
  unfolding collect
  get_dir_ids nodes s = do
    found ← collect nodes s (empty, empty)
    ok (to_slice found.0, to_slice found.1)

module _ (sets : Sets) {S : Type 0} (k : Kernel S) (law : Lawful k) where
  open sets use {IdSet, empty, add, to_slice}
  open law use {owner, ino_of}

  abbrev pub uid_at : S → Bytes → ℕ
  uid_at s path = (owner (ino_of path) s).uid

  abbrev pub gid_at : S → Bytes → ℕ
  gid_at s path = (owner (ino_of path) s).gid

  abbrev Collected : List Bytes → S → IdSet × IdSet → Type 0
  Collected nodes s found =
      (found' : IdSet × IdSet) × (collect sets k nodes s found ≡ ok found')
      × ((id : ℕ)
          → contains (to_slice found'.0) id
            ≡ (any (λ p. uid_at s p == id) nodes || contains (to_slice found.0) id))
      × ((id : ℕ)
          → contains (to_slice found'.1) id
            ≡ (any (λ p. gid_at s p == id) nodes || contains (to_slice found.1) id))

  collect-Collected : (nodes : List Bytes) (s : S) (found : IdSet × IdSet) → Collected nodes s found
  unfolding collect
  collect-Collected [] s found = (found, refl, (λ id. refl), λ id. refl)
  collect-Collected (path ∷ rest) s (us, gs) =
      let (found', e, hu, hg) =
        collect-Collected rest s (add (uid_at s path) us, add (gid_at s path) gs) in
      (
        found',
        rw (law.lstat_law path s, law.read_works path s) e,
        λ id. ground (arith, hu id, sets.to_slice-add (uid_at s path) us id),
        λ id. ground (arith, hg id, sets.to_slice-add (gid_at s path) gs id),
      )

  -- On a tree where no call fails, GetDirIDs succeeds with two lists without repetition, that hold
  -- exactly the user ids and exactly the group ids of the files of the walk.
  pub get_dir_ids_lem :
      (nodes : List Bytes) (s : S)
      → (uids : List ℕ) × (gids : List ℕ) × (get_dir_ids sets k nodes s ≡ ok (uids, gids))
        × Distinct uids
        × Distinct gids
        × ((id : ℕ) → contains uids id ≡ any (λ p. (law.owner (law.ino_of p) s).uid == id) nodes)
        × ((id : ℕ) → contains gids id ≡ any (λ p. (law.owner (law.ino_of p) s).gid == id) nodes)
  unfolding get_dir_ids
  get_dir_ids_lem nodes s =
      let (found, e, hu, hg) = collect-Collected nodes s (empty, empty) in
      (
        to_slice found.0,
        to_slice found.1,
        rw e refl,
        sets.to_slice-Distinct found.0,
        sets.to_slice-Distinct found.1,
        λ id.
            hu id
            ∙ ap (λ (ids : List ℕ). any (λ p. uid_at s p == id) nodes || contains ids id)
                sets.to_slice-empty
            ∙ or_false _,
        λ id.
            hg id
            ∙ ap (λ (ids : List ℕ). any (λ p. gid_at s p == id) nodes || contains ids id)
                sets.to_slice-empty
            ∙ or_false _,
      )
