-- ===== src/IdMap/Examples.antt =====
-- Runs of idMap on hosts that fail at given calls.
use sysbox_libs.IdMap.Mount.{attach, id_map_mount, resolve, unmount_if}
use sysbox_libs.Host.{
  Call, Host, close_fd, defer, eval_symlinks, failed, get_number, get_text, move_mount, open_file,
  open_tree, perform, set_attr, ◌>>=◌,
}
use sysbox_libs.Strings.Affix.{strip_prefix}
use sysbox_libs.Prelude.{
  List, Option, [], arith, codes, err, false, if◌then◌else◌, length, ltb, none, ok, refl, some,
  true, ℕ, ◌++◌, ◌+◌, ◌∷◌, ◌≡◌,
}
use sysbox_libs.IdMap.Check.{run_id_map_mount_check_on_host}
use sysbox_libs.IdMap.Levels.{given_back, process, taken}
use sysbox_libs.IdMap.Calls.{closed, id_map_mount-opened, leaked, opened}
use sysbox_libs.IdMap.Restores.{run_id_map_mount_check_on_host-restores}
use sysbox_libs.IdMap.Supported.{id_map_mount_supported_on_path}
use sysbox_libs.IdMap.Paths.{id_map_mount_supported_on_path-release}
use sysbox_libs.LinuxUtils.Versions.{release}

-- The 5th call and those after it fail; each call gives the number of calls before it.
abbrev fails_late : List Call → Call → Option ℕ
fails_late calls c = if ltb (length calls) 4 then none else some 22

abbrev host : Host
host = record {
  failure = fails_late;
  number = λ calls c. length calls;
  text = λ calls c. codes "/tmp/x";
}

-- The mount is not attached, and the descriptor 2 of its clone is not closed.
leak_test : id_map_mount host (codes "/proc/7/ns/user") (codes "/mnt") false [] ≡ (
  close_fd 0
      ∷ move_mount 2 (codes "/tmp/x")
      ∷ set_attr 2 0
      ∷ open_tree (codes "/tmp/x")
      ∷ eval_symlinks (codes "/mnt")
      ∷ open_file (codes "/proc/7/ns/user")
      ∷ [],
  err (failed (move_mount 2 (codes "/tmp/x")) 22),
)
unfolding id_map_mount ◌>>=◌ get_number defer resolve strip_prefix get_text attach perform
    unmount_if
leak_test = refl

id_map_mount-opened_example :
    opened host (id_map_mount host (codes "/proc/7/ns/user") (codes "/mnt") true []).0
    ≡ closed (id_map_mount host (codes "/proc/7/ns/user") (codes "/mnt") true []).0
      + leaked (id_map_mount host (codes "/proc/7/ns/user") (codes "/mnt") true []).1
id_map_mount-opened_example = id_map_mount-opened host (codes "/proc/7/ns/user") (codes "/mnt") true

run_id_map_mount_check_on_host-restores_example :
    taken host (run_id_map_mount_check_on_host host (codes "/tmp") true []).0 process
    ≡ given_back (run_id_map_mount_check_on_host host (codes "/tmp") true []).0 process
run_id_map_mount_check_on_host-restores_example =
    run_id_map_mount_check_on_host-restores host (codes "/tmp") true process

-- A tmpfs on a kernel that is too old for it.
abbrev tmpfs_host : Host
tmpfs_host = record {
  failure = λ calls c. none;
  number = λ calls c. 0x1021994;
  text = λ calls c. [];
}

id_map_mount_supported_on_path-release_example :
    (id_map_mount_supported_on_path tmpfs_host
      (ok (release 6 1 (some (codes "0-13")) ++ 0 ∷ []))
      (codes "/run")
      []).1
    ≡ ok false
id_map_mount_supported_on_path-release_example =
    id_map_mount_supported_on_path-release tmpfs_host 6 1 (some (codes "0-13")) [] (omega arith)
      (omega arith) refl (codes "/run") [] refl
