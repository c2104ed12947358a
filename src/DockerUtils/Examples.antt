-- ===== src/DockerUtils/Examples.antt =====
-- A host with the directories of Docker at another place, and its daemon.
use sysbox_libs.Strings.Split.{join, split}
use sysbox_libs.Strings.Path.{clean, clean_elems, dir_of, is_abs, upto_slash}
use sysbox_libs.DockerUtils.Rootfs.{
  ask_daemon, container_is_docker, docker_dirs, holds_all, is_docker_rootfs, is_ok, is_true, on_dir,
  on_names, search_levels,
}
use sysbox_libs.Strings.Affix.{has_part, strip_prefix}
use sysbox_libs.Prelude.{
  Bytes, List, Option, Result, [], all, codes, false, if◌then◌else◌, none, not, ok, refl, true,
  ◌&&◌, ◌==◌, ◌↔◌, ◌∷◌, ◌≡◌, ◌⊎◌, nat_comparable, bytes_comparable,
}
use sysbox_libs.DockerUtils.Client.{
  World, container_get_image_id, disconnect, docker_connect, image_of, on_client, on_info,
  single_image,
}
use sysbox_libs.DockerUtils.Levels.{HasDataRoot, is_docker_rootfs-levels, levels, names_read}
use sysbox_libs.DockerUtils.Sessions.{closed, container_is_docker-closed, is_of_files, made}

abbrev opens : Bytes → Option Bytes
opens dir = none

abbrev contents : Bytes → Result Bytes (List Bytes)
contents dir = ok (if dir == codes "/data" then docker_dirs else codes "merged" ∷ [])

abbrev world : World
world = record {
  connect = λ asks. none;
  root_dir = λ asks. ok (codes "/data");
  close = λ asks. none;
  containers = λ asks id. ok (codes "image" ∷ []);
  inspect = λ asks id. ok (record { graph_driver = none; auto_remove = true });
  volumes = λ asks. ok [];
  open_dir = λ asks dir. opens dir;
  dir_names = λ asks dir n. names_read (codes "EOF") n (contents dir);
}

abbrev rootfs : Bytes
rootfs = codes "/data/overlay2/x/merged"

is_docker_rootfs-levels_example : (is_true (is_docker_rootfs world false rootfs []).1 ≡ true) ↔ (
    ((not false && has_part rootfs (codes "/var/lib/docker")) ≡ true)
    ⊎ HasDataRoot (codes "EOF") opens contents (levels 5 rootfs))
is_docker_rootfs-levels_example =
    is_docker_rootfs-levels (codes "EOF") opens contents world (λ asks dir. refl)
      (λ asks dir n. refl) false rootfs []

container_is_docker-closed_example :
    (made world (container_is_docker world false (codes "1") rootfs []).0
      ≡ closed (container_is_docker world false (codes "1") rootfs []).0)
    × (is_true (is_docker_rootfs world false rootfs []).1 ≡ true
        → (all is_of_files (container_is_docker world false (codes "1") rootfs []).0 ≡ true)
          × ((container_is_docker world false (codes "1") rootfs []).1 ≡ ok true))
container_is_docker-closed_example = container_is_docker-closed world false (codes "1") rootfs

found_test : (is_docker_rootfs world false rootfs []).1 ≡ ok true
unfolding is_docker_rootfs has_part strip_prefix search_levels on_dir on_names holds_all dir_of
    clean is_abs upto_slash join clean_elems split
found_test = refl

-- Two levels too deep.
daemon_test :
    (container_is_docker world false (codes "1") (codes "/data/a/b/c/d/e/f") []).1 ≡ ok true
unfolding container_is_docker is_true is_docker_rootfs has_part strip_prefix search_levels on_dir
    on_names holds_all dir_of clean is_abs upto_slash join clean_elems split ask_daemon
    container_get_image_id disconnect docker_connect image_of on_client on_info single_image is_ok
daemon_test = refl
