-- ===== src/DockerUtils/Levels.antt =====
-- The search of the parent directories in isDockerRootfs of dockerUtils/dockerUtils.go.
use sysbox_libs.Prelude.{
  Bool, Bool-cases, Bytes, List, Option, Result, [], all, ap, arith, codes, contains, err, false,
  inl, inr, none, not, ok, refl, some, suc, sym, take, true, zero, ℕ, ◌&&◌, ◌↔◌, ◌∙◌, ◌∷◌, ◌≡◌, ◌⊎◌,
  nat_comparable, bytes_comparable,
}
use sysbox_libs.DockerUtils.Client.{Answer, Ask, Session, World, open_path, read_dir_names}
use sysbox_libs.DockerUtils.Rootfs.{
  docker_dirs, holds_all, is_docker_rootfs, max_files_per_dir, is_true, on_dir, on_names,
  search_levels,
}
use sysbox_libs.Strings.Path.{dir_of}
use sysbox_libs.Strings.Affix.{has_part}

-- The directories above a path, the nearest first.
abbrev pub levels : ℕ → Bytes → List Bytes
levels zero path = []
levels (suc n) path = dir_of path ∷ levels n (dir_of path)

holds_all-false : (names dirs : List Bytes) → holds_all names dirs false ≡ false
unfolding holds_all
holds_all-false names [] = refl
holds_all-false names (d ∷ dirs) = ground (arith, holds_all-false names dirs)

holds_all-all : (names dirs : List Bytes) → holds_all names dirs true ≡ all (contains names) dirs
unfolding holds_all
holds_all-all names [] = refl
holds_all-all names (d ∷ dirs) = elim (Bool-cases (contains names d)) [
  | inl there ↦ rw there (holds_all-all names dirs)
  | inr missing ↦ rw missing (holds_all-false names dirs)
]

-- What `Readdirnames` gives of the names of a directory, in the order of the directory: the first
-- ones, and the failure `eof` where there is none.
abbrev pub first_names : Bytes → ℕ → List Bytes → Result Bytes (List Bytes)
first_names eof n [] = err eof
first_names eof n (f ∷ fs) = ok (take n (f ∷ fs))

abbrev pub names_read : Bytes → ℕ → Result Bytes (List Bytes) → Result Bytes (List Bytes)
names_read eof n (err e) = err e
names_read eof n (ok fs) = first_names eof n fs

module _ (eof : Bytes) (opens : Bytes → Option Bytes)
    (contents : Bytes → Result Bytes (List Bytes)) where
  abbrev names : Bytes → Result Bytes (List Bytes)
  names dir = names_read eof 30 (contents dir)

  -- The directory can be opened and its names read, and it is not empty.
  abbrev pub IsReadable : Bytes → Type 0
  IsReadable dir = (opens dir ≡ none) × (fs : List Bytes) × (names dir ≡ ok fs)

  -- It can, and the four directories of Docker's data root are among the first 30 of its names.
  abbrev pub IsDataRoot : Bytes → Type 0
  IsDataRoot dir =
      (opens dir ≡ none)
      × (fs : List Bytes) × (names dir ≡ ok fs)
      × (all (contains fs) docker_dirs ≡ true)

  -- A data root stands among the directories, and those before it are readable.
  abbrev pub HasDataRoot : List Bytes → Type 0
  HasDataRoot [] = ⊥
  HasDataRoot (dir ∷ dirs) = IsDataRoot dir ⊎ (IsReadable dir × HasDataRoot dirs)

  module _ (world : World)
      (open_dir_lem : (asks : List Ask) (dir : Bytes) → world.open_dir asks dir ≡ opens dir)
      (dir_names_lem : (asks : List Ask) (dir : Bytes) (n : ℕ)
        → world.dir_names asks dir n ≡ names_read eof n (contents dir)) where
    on_names-found :
        (r : Result Bytes (List Bytes)) (dir : Bytes) (dirs : List Bytes)
        (next : Session (Answer Bool)) (asks : List Ask)
        → opens dir ≡ none
        → names dir ≡ r
        → (is_true (next asks).1 ≡ true → HasDataRoot dirs)
        → is_true (on_names world r dir next asks).1 ≡ true
        → HasDataRoot (dir ∷ dirs)
    unfolding on_names is_true
    on_names-found (err e) dir dirs next asks o n k h = absurd (ground (arith, h))
    on_names-found (ok fs) dir dirs next asks o n k h =
        elim (Bool-cases (holds_all fs docker_dirs true)) [
          | inl yes_all ↦ inl (o, fs, n, sym (holds_all-all fs docker_dirs) ∙ yes_all)
          | inr not_all ↦ inr ((o, fs, n), k (rw not_all at h))
        ]

    on_dir-found :
        (o : Option Bytes) (dir : Bytes) (dirs : List Bytes) (next : Session (Answer Bool))
        (asks : List Ask)
        → opens dir ≡ o
        → ((asks : List Ask) → is_true (next asks).1 ≡ true → HasDataRoot dirs)
        → is_true (on_dir world o dir next asks).1 ≡ true
        → HasDataRoot (dir ∷ dirs)
    unfolding on_dir is_true
    on_dir-found (some e) dir dirs next asks o k h = absurd (ground (arith, h))
    on_dir-found none dir dirs next asks o k h =
        on_names-found (world.dir_names asks dir max_files_per_dir) dir dirs next
          (read_dir_names dir max_files_per_dir ∷ asks) o
          (sym (dir_names_lem asks dir max_files_per_dir))
          (k (read_dir_names dir max_files_per_dir ∷ asks)) h

    search_levels-found :
        (n : ℕ) (path : Bytes) (asks : List Ask)
        → is_true (search_levels world n path asks).1 ≡ true
        → HasDataRoot (levels n path)
    unfolding search_levels
    search_levels-found zero path asks h = absurd (unfold is_true in ground (arith, h))
    search_levels-found (suc n) path asks h =
        on_dir-found (world.open_dir asks (dir_of path)) (dir_of path) (levels n (dir_of path))
          (search_levels world n (dir_of path)) (open_path (dir_of path) ∷ asks)
          (sym (open_dir_lem asks (dir_of path))) (search_levels-found n (dir_of path)) h

    on_dir-finds :
        (dir : Bytes) (dirs : List Bytes) (next : Session (Answer Bool)) (asks : List Ask)
        → ((asks : List Ask) → HasDataRoot dirs → (next asks).1 ≡ ok true)
        → HasDataRoot (dir ∷ dirs)
        → (on_dir world (opens dir) dir next asks).1 ≡ ok true
    unfolding on_dir on_names
    on_dir-finds dir dirs next asks k (inl (o, fs, n, h)) =
        rw (o, dir_names_lem asks dir max_files_per_dir, n, holds_all-all fs docker_dirs, h) refl
    on_dir-finds dir dirs next asks k (inr ((o, fs, n), h)) =
        elim (Bool-cases (holds_all fs docker_dirs true)) [
          | inl yes_all ↦ rw (o, dir_names_lem asks dir max_files_per_dir, n, yes_all) refl
          | inr not_all ↦
              rw (o, dir_names_lem asks dir max_files_per_dir, n, not_all)
                (k (read_dir_names dir max_files_per_dir ∷ asks) h)
        ]

    search_levels-finds :
        (n : ℕ) (path : Bytes) (asks : List Ask)
        → HasDataRoot (levels n path)
        → (search_levels world n path asks).1 ≡ ok true
    unfolding search_levels
    search_levels-finds zero path asks h = absurd h
    search_levels-finds (suc n) path asks h = rw (open_dir_lem asks (dir_of path)) (
        on_dir-finds (dir_of path) (levels n (dir_of path)) (search_levels world n (dir_of path))
          (open_path (dir_of path) ∷ asks) (search_levels-finds n (dir_of path)) h)

    -- Where the directories of the host stay as they are and are read as Readdirnames documents
    -- it, the first names in the order of the directory and a failure for an empty one:
    -- isDockerRootfs says yes exactly if the path has Docker's default data root in it, outside of
    -- test mode, or one of the five nearest directories above it has the four directories of a
    -- data root among the first 30 names that it lists, and the directories nearer than that one
    -- can be read and are not empty.
    pub is_docker_rootfs-levels :
        (test_mode : Bool) (rootfs : Bytes) (asks : List Ask)
        → (is_true (is_docker_rootfs world test_mode rootfs asks).1 ≡ true) ↔ (
            ((not test_mode && has_part rootfs (codes "/var/lib/docker")) ≡ true)
            ⊎ HasDataRoot (levels 5 rootfs))
    unfolding is_docker_rootfs
    is_docker_rootfs-levels test_mode rootfs asks =
        elim (Bool-cases (not test_mode && has_part rootfs (codes "/var/lib/docker"))) [
          | inl named ↦ rw named ((λ h. inl refl), (λ h. unfold is_true in refl))
          | inr other ↦ rw other (
            (λ h. inr (search_levels-found 5 rootfs asks h)),
            (λ h. elim h [
              | inl bad ↦ absurd (ground (arith, bad))
              | inr found ↦
                  ap is_true (search_levels-finds 5 rootfs asks found) ∙ unfold is_true in refl
            ]),
          )
        ]
