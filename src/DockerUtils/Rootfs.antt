-- ===== src/DockerUtils/Rootfs.antt =====
-- ContainerIsDocker and isDockerRootfs of dockerUtils/dockerUtils.go.
use sysbox_libs.Prelude.{
  Bool, Bytes, List, Option, Result, [], codes, contains, err, false, if◌then◌else◌, none, not, ok,
  some, suc, true, zero, ℕ, ◌&&◌, ◌++◌, ◌∷◌, nat_comparable, bytes_comparable,
}
use sysbox_libs.DockerUtils.Client.{
  Answer, Ask, Docker, Session, World, container_get_image_id, disconnect, docker_connect,
  new_docker_err, open_path, other_err, read_dir_names,
}
use sysbox_libs.Strings.Affix.{has_part}
use sysbox_libs.Strings.Path.{dir_of}

abbrev pub docker_dirs : List Bytes
docker_dirs = codes "image" ∷ codes "network" ∷ codes "containers" ∷ codes "swarm" ∷ []

abbrev pub max_files_per_dir : ℕ
max_files_per_dir = 30

-- The loop over `dockerDirs` with its flag.
unfoldable pub holds_all : List Bytes → List Bytes → Bool → Bool
holds_all filenames [] is_docker = is_docker
holds_all filenames (dir ∷ dirs) is_docker =
    holds_all filenames dirs (if not (contains filenames dir) then false else is_docker)

unfoldable pub is_true : Answer Bool → Bool
is_true (ok b) = b
is_true (err e) = false

unfoldable pub is_ok : {A : Type 0} → Answer A → Bool
is_ok (ok a) = true
is_ok (err e) = false

module _ (world : World) where
  unfoldable pub on_names :
      Result Bytes (List Bytes) → Bytes → Session (Answer Bool) → Session (Answer Bool)
  on_names (err e) path next asks = (
    asks,
    err (
        new_docker_err other_err (
          codes "failed to read directories under "
          ++ (path ++ (codes ": " ++ (e ++ codes "\n"))))),
  )
  on_names (ok filenames) path next asks =
      if holds_all filenames docker_dirs true then (asks, ok true) else next asks

  unfoldable pub on_dir : Option Bytes → Bytes → Session (Answer Bool) → Session (Answer Bool)
  on_dir (some e) path next asks = (
    asks,
    err (
        new_docker_err other_err
          (codes "failed to open " ++ (path ++ (codes ": " ++ (e ++ codes "\n"))))),
  )
  on_dir none path next asks =
      on_names (world.dir_names asks path max_files_per_dir) path next
        (read_dir_names path max_files_per_dir ∷ asks)

  -- `n` levels are left to search above the path.
  unfoldable pub search_levels : ℕ → Bytes → Session (Answer Bool)
  search_levels zero path asks = (asks, ok false)
  search_levels (suc n) path asks =
      on_dir (world.open_dir asks (dir_of path)) (dir_of path) (search_levels n (dir_of path))
        (open_path (dir_of path) ∷ asks)

  unfoldable pub is_docker_rootfs : Bool → Bytes → Session (Answer Bool)
  is_docker_rootfs test_mode rootfs asks =
      if not test_mode && has_part rootfs (codes "/var/lib/docker")
      then (asks, ok true)
      else search_levels 5 rootfs asks

  -- The deferred call disconnects.
  unfoldable pub ask_daemon :
      Bytes → Answer Bool → List Ask × Answer Docker → List Ask × Answer Bool
  ask_daemon id by_rootfs (asks, ok docker) =
      let image = container_get_image_id world id asks in
      ((disconnect world image.0).0, ok (is_ok image.1))
  ask_daemon id by_rootfs (asks, err e) = (asks, by_rootfs)

  unfoldable pub container_is_docker : Bool → Bytes → Bytes → Session (Answer Bool)
  container_is_docker test_mode id rootfs asks =
      let checked = is_docker_rootfs test_mode rootfs asks in
      if is_true checked.1
      then (checked.0, ok true)
      else ask_daemon id checked.1 (docker_connect world checked.0)
