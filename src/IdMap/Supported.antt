-- ===== src/IdMap/Supported.antt =====
-- IDMapMountSupported, OverlayfsOnIDMapMountSupported and IDMapMountSupportedOnPath of
-- idMap/idMapMount.go. `uname` is what that system call gives.
use sysbox_libs.Prelude.{
  Bool, Bytes, List, Option, Result, [], codes, contains, err, false, if◌then◌else◌, none, ok, some,
  true, ℕ, ◌==◌, ◌∷◌, nat_comparable, bytes_comparable,
}
use sysbox_libs.Prelude.Int.{ltb_ℤ, pos, ℤ}
use sysbox_libs.Host.{failed, Error as HostError, Call, Host, statfs}
use sysbox_libs.LinuxUtils.Kernel.{
  Error as KernelError, check_kernel_version, kernel_current_version_cmp,
}
use sysbox_libs.IdMap.Check.{run_id_map_mount_check_on_host}

pub data Failure : Type 0 where
  of_kernel : KernelError → Failure
  of_host : HostError → Failure

-- The overlayfs, FUSE and FAKEOWNER magic numbers.
abbrev pub fs_black_list : List ℕ
fs_black_list = 0x794c7630 ∷ 0x65735546 ∷ 0x6a656a63 ∷ []

abbrev pub dev_black_list : List Bytes
dev_black_list = codes "/dev/null" ∷ []

abbrev pub tmpfs_magic : ℕ
tmpfs_magic = 0x1021994

abbrev pub Answer : Type 0
Answer = List Call × Result Failure Bool

unfoldable pub on_host : List Call × Result HostError Bool → Answer
on_host (calls, ok b) = (calls, ok b)
on_host (calls, err e) = (calls, err (of_host e))

unfoldable pub after_kernel :
    Result KernelError Bool → (List Call → List Call × Result HostError Bool) → List Call → Answer
unfolding on_host
after_kernel (err e) check calls = (calls, err (of_kernel e))
after_kernel (ok false) check calls = (calls, ok false)
after_kernel (ok true) check calls = on_host (check calls)

module _ (host : Host) (uname : Result ℕ Bytes) where
  unfoldable pub id_map_mount_supported : Bytes → List Call → Answer
  unfolding after_kernel
  id_map_mount_supported dir =
      after_kernel (check_kernel_version uname (pos 5) (pos 12))
        (run_id_map_mount_check_on_host host dir false)

  unfoldable pub overlayfs_on_id_map_mount_supported : Bytes → List Call → Answer
  unfolding after_kernel
  overlayfs_on_id_map_mount_supported dir =
      after_kernel (check_kernel_version uname (pos 5) (pos 19))
        (run_id_map_mount_check_on_host host dir true)

  unfoldable pub on_tmpfs : Result KernelError ℤ → Result Failure Bool
  on_tmpfs (err e) = err (of_kernel e)
  on_tmpfs (ok cmp) = if ltb_ℤ cmp (pos 0) then ok false else ok true

  unfoldable pub on_fs : ℕ → Result Failure Bool
  unfolding on_tmpfs
  on_fs type =
      let recent = on_tmpfs (kernel_current_version_cmp uname (pos 6) (pos 3)) in
      if contains fs_black_list type
      then ok false
      else (if type == tmpfs_magic then recent else ok true)

  unfoldable pub on_statfs : Option ℕ → Call → ℕ → Result Failure Bool
  on_statfs (some e) c type = err (of_host (failed c e))
  on_statfs none c type = on_fs type

  unfoldable pub id_map_mount_supported_on_path : Bytes → List Call → Answer
  unfolding on_statfs
  id_map_mount_supported_on_path path calls =
      if contains dev_black_list path then (calls, ok false) else (
        statfs path ∷ calls,
        on_statfs (host.failure calls (statfs path)) (statfs path)
            (host.number calls (statfs path)),
      )
