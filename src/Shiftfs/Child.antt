-- ===== src/Shiftfs/Child.antt =====
-- What the child process of runShiftfsCheckOnHost does, in shiftfs/shiftfs.go, with Mount and
-- Unmount and the two functions that run the check.
pub mod Verdict
use sysbox_libs.Prelude.{Bool, Bytes, [], codes, false, true, ℕ, ◌∷◌}
use sysbox_libs.Prelude.Table.{Table}
use sysbox_libs.Host.{Host, Program, create_file, mount, perform, remove_file, rename, unmount}
use sysbox_libs.LinuxUtils.Child.{Exec, become_root, exit_with, exits, or_else_run}
use sysbox_libs.Shiftfs.Check.{run_shiftfs_check_on_host}
use sysbox_libs.Strings.Path.{join_path}

module _ (host : Host) where
  -- `Mount`, as a call whose failure decides what comes next.
  unfoldable pub mount_or : Bytes → Bytes → Exec → Exec → Exec
  mount_or path mnt_path broken next =
      or_else_run host (mount path mnt_path (codes "shiftfs") []) broken next

  unfoldable pub unmount_path : Bytes → Program (Unit {0})
  unmount_path path = perform host (unmount path)

  -- Behind the creation of the first file.
  unfoldable pub try_rename : Bytes → Bytes → Exec
  try_rename testfile testfile2 =
      or_else_run host (rename testfile testfile2)
        (λ calls. (remove_file testfile ∷ calls, exits 4))
        (λ calls. (remove_file testfile2 ∷ calls, exits 0))

  unfoldable pub try_files : Bytes → Bytes → Exec
  try_files testfile testfile2 =
      or_else_run host (create_file testfile) (exit_with 3) (try_rename testfile testfile2)

  unfoldable pub exec_func : Bytes → Exec
  exec_func test_dir = become_root host (
      mount_or test_dir test_dir (exit_with 2) (
        try_files (join_path (test_dir ∷ codes "testfile" ∷ []))
          (join_path (test_dir ∷ codes "testfile2" ∷ []))))

  module _ (unix_fs_name_table : Table ℕ Bytes) where
    unfoldable pub shiftfs_supported : Bytes → Program Bool
    shiftfs_supported dir = run_shiftfs_check_on_host host unix_fs_name_table dir false

    unfoldable pub shiftfs_supported_on_overlayfs : Bytes → Program Bool
    shiftfs_supported_on_overlayfs dir = run_shiftfs_check_on_host host unix_fs_name_table dir true
