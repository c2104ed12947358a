-- ===== src/LinuxUtils/Userns.antt =====
-- CreateUsernsProcess of linuxUtils/linux.go, as its parent process runs it.
use sysbox_libs.Prelude.{Bool, Bytes, List, Result, [], codes, err, if◌then◌else◌, ok, ℕ, ◌++◌, ◌∷◌}
use sysbox_libs.Host.{
  Call, Error, Host, Program, chdir, clone, defer, get_number, get_text, getwd, kill, perform,
  return, write_map, ◌>>=◌,
}
use sysbox_libs.Strings.Decimal.{format_uint}
use Prim.Native.Nat.{bit_or}

pub record IdMapping : Type 0 where
  pub container_id : ℕ
  pub host_id : ℕ
  pub size : ℕ

-- `CLONE_NEWUSER | SIGCHLD`, with `CLONE_NEWNS` and `CLONE_NEWIPC` where they are asked for.
unfoldable pub clone_flags : Bool → Bool → ℕ
clone_flags new_mount_ns new_ipc_ns =
    let flags = bit_or 0x10000000 17 in
    let flags' = if new_mount_ns then bit_or flags 0x20000 else flags in
    if new_ipc_ns then bit_or flags' 0x08000000 else flags'

unfoldable pub mapping_text : IdMapping → Bytes
mapping_text m =
    format_uint m.container_id
    ++ codes " "
    ++ format_uint m.host_id
    ++ codes " "
    ++ format_uint m.size
    ++ codes "\n"

unfoldable pub killed : {A : Type 0} → ℕ → List Call × Result Error A → List Call × Result Error A
killed pid (calls, ok a) = (calls, ok a)
killed pid (calls, err e) = (kill pid ∷ calls, err e)

-- A failure to write a mapping kills the child.
unfoldable pub or_kill : {A : Type 0} → ℕ → Program A → Program A
unfolding killed
or_kill pid m calls = killed pid (m calls)

module _ (host : Host) where
  unfoldable pub write_mappings : IdMapping → ℕ → Program ℕ
  write_mappings id_map pid = do
    _ ← or_kill pid (perform host (write_map pid (codes "uid_map") (mapping_text id_map)))
    _ ← or_kill pid (perform host (write_map pid (codes "gid_map") (mapping_text id_map)))
    return pid

  unfoldable pub create_userns_process : IdMapping → Bytes → Bool → Bool → Program ℕ
  create_userns_process id_map cwd new_mount_ns new_ipc_ns = do
    curr_cwd ← get_text host getwd
    _ ← perform host (chdir cwd)
    defer (chdir curr_cwd ∷ []) (do
      pid ← get_number host (clone (clone_flags new_mount_ns new_ipc_ns))
      write_mappings id_map pid)
