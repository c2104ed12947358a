-- ===== src/DockerUtils/Sessions.antt =====
-- The sessions with the daemon that ContainerIsDocker of dockerUtils/dockerUtils.go opens.
use sysbox_libs.Prelude.{
  Bool, Bool-cases, Bytes, List, Option, Result, [], all, arith, codes, err, false, inl, inr, none,
  not, ok, refl, some, suc, true, zero, ℕ, ◌&&◌, ◌+◌, ◌∷◌, ◌≡◌,
}
use sysbox_libs.DockerUtils.Client.{
  Answer, Ask, Docker, Session, World, close_client, container_get_image_id, container_inspect,
  container_list, disconnect, docker_connect, info, new_client, on_client, on_info, open_path,
  read_dir_names, volume_list,
}
use sysbox_libs.DockerUtils.Rootfs.{
  ask_daemon, container_is_docker, docker_dirs, holds_all, max_files_per_dir, is_docker_rootfs,
  is_true, on_dir, on_names, search_levels,
}
use sysbox_libs.Strings.Path.{dir_of}
use sysbox_libs.Strings.Affix.{has_part}

-- The clients that were made, and those that were closed.
abbrev pub one_new : Ask → Option Bytes → ℕ
one_new new_client none = 1
one_new _ _ = 0

abbrev pub one_closed : Ask → ℕ
one_closed close_client = 1
one_closed _ = 0

abbrev pub made : World → List Ask → ℕ
made world [] = 0
made world (a ∷ asks) = one_new a (world.connect asks) + made world asks

abbrev pub closed : List Ask → ℕ
closed [] = 0
closed (a ∷ asks) = one_closed a + closed asks

-- Whether the daemon was asked for anything.
abbrev pub is_of_files : Ask → Bool
is_of_files (open_path path) = true
is_of_files (read_dir_names path n) = true
is_of_files _ = false

module _ (world : World) where
  -- The clients that are open.
  abbrev pub Open : ℕ → List Ask → Type 0
  Open n asks = made world asks ≡ n + closed asks

  on_names-files :
      (r : Result Bytes (List Bytes)) (path : Bytes) (next : Session (Answer Bool))
      (asks : List Ask)
      → all is_of_files asks ≡ true
      → ((asks : List Ask) → all is_of_files asks ≡ true → all is_of_files (next asks).0 ≡ true)
      → all is_of_files (on_names world r path next asks).0 ≡ true
  unfolding on_names
  on_names-files (err e) path next asks h k = h
  on_names-files (ok fs) path next asks h k = elim (Bool-cases (holds_all fs docker_dirs true)) [
    | inl yes_all ↦ rw yes_all h
    | inr not_all ↦ rw not_all (k asks h)
  ]

  on_dir-files :
      (o : Option Bytes) (path : Bytes) (next : Session (Answer Bool)) (asks : List Ask)
      → all is_of_files asks ≡ true
      → ((asks : List Ask) → all is_of_files asks ≡ true → all is_of_files (next asks).0 ≡ true)
      → all is_of_files (on_dir world o path next asks).0 ≡ true
  unfolding on_dir
  on_dir-files (some e) path next asks h k = h
  on_dir-files none path next asks h k =
      on_names-files (world.dir_names asks path max_files_per_dir) path next
        (read_dir_names path max_files_per_dir ∷ asks) h k

  search_levels-files :
      (n : ℕ) (path : Bytes) (asks : List Ask)
      → all is_of_files asks ≡ true
      → all is_of_files (search_levels world n path asks).0 ≡ true
  unfolding search_levels
  search_levels-files zero path asks h = h
  search_levels-files (suc n) path asks h =
      on_dir-files (world.open_dir asks (dir_of path)) (dir_of path)
        (search_levels world n (dir_of path)) (open_path (dir_of path) ∷ asks) h
        (search_levels-files n (dir_of path))

  is_docker_rootfs-files :
      (test_mode : Bool) (rootfs : Bytes)
      → all is_of_files (is_docker_rootfs world test_mode rootfs []).0 ≡ true
  unfolding is_docker_rootfs
  is_docker_rootfs-files test_mode rootfs =
      elim (Bool-cases (not test_mode && has_part rootfs (codes "/var/lib/docker"))) [
        | inl named ↦ rw named refl
        | inr other ↦ rw other (search_levels-files 5 rootfs [] refl)
      ]

  files-Open : (asks : List Ask) → all is_of_files asks ≡ true → Open 0 asks
  files-Open [] h = refl
  files-Open (open_path path ∷ asks) h = ground (arith, files-Open asks h)
  files-Open (read_dir_names path n ∷ asks) h = ground (arith, files-Open asks h)
  files-Open (new_client ∷ asks) h = absurd (ground (arith, h))
  files-Open (info ∷ asks) h = absurd (ground (arith, h))
  files-Open (close_client ∷ asks) h = absurd (ground (arith, h))
  files-Open (volume_list ∷ asks) h = absurd (ground (arith, h))
  files-Open (container_list id ∷ asks) h = absurd (ground (arith, h))
  files-Open (container_inspect id ∷ asks) h = absurd (ground (arith, h))

  -- One client is open behind a connection, and none more behind a failure.
  abbrev pub Connected : ℕ → List Ask × Answer Docker → Type 0
  Connected n (asks, ok docker) = Open (n + 1) asks
  Connected n (asks, err e) = Open n asks

  on_info-Connected :
      (r : Result Bytes Bytes) (n : ℕ) (asks : List Ask)
      → Open (n + 1) asks
      → Connected n (on_info world r asks)
  unfolding on_info
  on_info-Connected (ok root) n asks h = h
  on_info-Connected (err e) n asks h = omega (arith, h)

  on_client-Connected :
      (o : Option Bytes) (n : ℕ) (asks : List Ask)
      → world.connect asks ≡ o
      → Open n asks
      → Connected n (on_client world o (new_client ∷ asks))
  unfolding on_client
  on_client-Connected none n asks e h =
      on_info-Connected _ n (info ∷ new_client ∷ asks) (rw e (omega (arith, h)))
  on_client-Connected (some e') n asks e h = rw e (omega (arith, h))

  docker_connect-Connected :
      (n : ℕ) (asks : List Ask) → Open n asks → Connected n (docker_connect world asks)
  unfolding docker_connect
  docker_connect-Connected n asks h = on_client-Connected (world.connect asks) n asks refl h

  ask_daemon-Open :
      (id : Bytes) (b : Answer Bool) (n : ℕ) (asks : List Ask) (r : Answer Docker)
      → Connected n (asks, r)
      → Open n (ask_daemon world id b (asks, r)).0
  unfolding ask_daemon container_get_image_id disconnect
  ask_daemon-Open id b n asks (ok docker) h = omega (arith, h)
  ask_daemon-Open id b n asks (err e) h = h

-- ContainerIsDocker closes each client that it makes, and makes none where the file system shows
-- that the container is Docker's: it then says yes and has asked the daemon nothing.
pub container_is_docker-closed :
    (world : World) (test_mode : Bool) (id rootfs : Bytes)
    → (made world (container_is_docker world test_mode id rootfs []).0
        ≡ closed (container_is_docker world test_mode id rootfs []).0)
      × (is_true (is_docker_rootfs world test_mode rootfs []).1 ≡ true
          → (all is_of_files (container_is_docker world test_mode id rootfs []).0 ≡ true)
            × ((container_is_docker world test_mode id rootfs []).1 ≡ ok true))
unfolding container_is_docker
container_is_docker-closed world test_mode id rootfs =
    let files = is_docker_rootfs-files world test_mode rootfs in
    let checked = is_docker_rootfs world test_mode rootfs [] in
    elim (Bool-cases (is_true (is_docker_rootfs world test_mode rootfs []).1)) [
      | inl by_files ↦
          rw by_files (omega (arith, files-Open world checked.0 files), λ h. (files, refl))
      | inr unknown ↦ rw unknown (
        omega (
          arith,
          ask_daemon-Open world id checked.1 0 (docker_connect world checked.0).0
              (docker_connect world checked.0).1
              (docker_connect-Connected world 0 checked.0 (files-Open world checked.0 files)),
        ),
        λ h. absurd (ground (arith, h)),
      )
    ]
