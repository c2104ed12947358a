-- ===== src/LinuxUtils/Shm.antt =====
-- ShmSysctlUserNamespaced of linuxUtils/linux.go: the parent process and its child.
pub mod Verdict
use sysbox_libs.Prelude.{Bool, Bytes, List, [], codes, if◌then◌else◌, nat_beq, not, true, ℕ, ◌∷◌}
use sysbox_libs.Host.{
  Host, Program, close_fd, exit_status, exited, get_number, get_text, getwd, open_for_writing,
  refuse, return, wait, ◌>>=◌,
}
use sysbox_libs.LinuxUtils.Child.{Exec, become_root, exit_with, or_else_number}
use sysbox_libs.LinuxUtils.Userns.{IdMapping, create_userns_process}

abbrev pub sysctls : List Bytes
sysctls =
    codes "/proc/sys/kernel/shmmni"
    ∷ codes "/proc/sys/kernel/shmmax"
    ∷ codes "/proc/sys/kernel/shmall"
    ∷ []

abbrev pub shm_id_map : IdMapping
shm_id_map = record { container_id = 0; host_id = 165536; size = 65536 }

module _ (host : Host) where
  -- The loop of the child over the files.
  unfoldable pub open_sysctls : List Bytes → Exec
  open_sysctls [] = exit_with 0
  open_sysctls (sysctl ∷ rest) =
      or_else_number host (open_for_writing sysctl) (exit_with 2)
        (λ f calls. open_sysctls rest (close_fd f ∷ calls))

  unfoldable pub shm_exec_func : Exec
  shm_exec_func = become_root host (open_sysctls sysctls)

  unfoldable pub shm_verdict : ℕ → Program Bool
  shm_verdict status =
      if not (exited status)
      then refuse (codes "child process did not exit normally")
      else return (nat_beq (exit_status status) 0)

  unfoldable pub shm_sysctl_user_namespaced : Program Bool
  shm_sysctl_user_namespaced = do
    curr_cwd ← get_text host getwd
    pid ← create_userns_process host shm_id_map curr_cwd true true
    status ← get_number host (wait pid)
    shm_verdict status
