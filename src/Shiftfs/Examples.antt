-- ===== src/Shiftfs/Examples.antt =====
-- A run of the check of shiftfs on a host where the mark cannot be mounted.
use sysbox_libs.Shiftfs.Child.{exec_func, mount_or}
use sysbox_libs.LinuxUtils.Child.{become_root, exits, or_else_run}
use sysbox_libs.Prelude.{
  Bytes, Option, [], codes, if◌then◌else◌, none, refl, some, true, ℕ, ◌==◌, ◌∷◌, ◌≡◌,
  nat_comparable, bytes_comparable,
}
use sysbox_libs.Prelude.Table.{Table}
use sysbox_libs.Host.{Call, Host, mount}
use sysbox_libs.IdMap.Levels.{given_back, mounted, taken, temp_dir}
use sysbox_libs.Shiftfs.Check.{run_shiftfs_check_on_host}
use sysbox_libs.Shiftfs.Restores.{run_shiftfs_check_on_host-restores}

abbrev no_shiftfs : Call → Option ℕ
no_shiftfs (mount source target fstype options) =
    if fstype == codes "shiftfs" then some 19 else none
no_shiftfs _ = none

abbrev fs_names : Table ℕ Bytes
fs_names = (0, codes "ext4") ∷ []

abbrev host : Host
host = record {
  failure = λ calls c. no_shiftfs c;
  number = λ calls c. 0;
  text = λ calls c. codes "shiftfs 4096 0";
}

run_shiftfs_check_on_host-restores_example :
    (taken host (run_shiftfs_check_on_host host fs_names (codes "/tmp") true []).0 temp_dir
      ≡ given_back (run_shiftfs_check_on_host host fs_names (codes "/tmp") true []).0 temp_dir)
    × (taken host (run_shiftfs_check_on_host host fs_names (codes "/tmp") true []).0 mounted
        ≡ given_back (run_shiftfs_check_on_host host fs_names (codes "/tmp") true []).0 mounted)
run_shiftfs_check_on_host-restores_example =
    run_shiftfs_check_on_host-restores host fs_names (codes "/tmp") true

-- The mount of shiftfs fails.
exec_test : (exec_func host (codes "/t") []).1 ≡ exits 2
unfolding exec_func become_root or_else_run mount_or
exec_test = refl
