-- ===== src/Pidfd.antt =====
-- pidfd/pidfd.go: three system calls, with the numbers that they have. A signal and a descriptor
-- are numbers; the error is that of the call.
mod Examples
use sysbox_libs.Prelude.{[], ℕ, ◌∷◌}
use sysbox_libs.Host.{Host, Program, get_number, perform, return, syscall, ◌>>=◌}

abbrev pub sys_pidfd_send_signal : ℕ
sys_pidfd_send_signal = 424

abbrev pub sys_pidfd_open : ℕ
sys_pidfd_open = 434

abbrev pub sys_pidfd_getfd : ℕ
sys_pidfd_getfd = 438

-- `PidFd`, a file descriptor that refers to a process.
pub record PidFd : Type 0 where
  pub fd : ℕ

module _ (host : Host) where
  unfoldable pub open_pid : ℕ → ℕ → Program PidFd
  open_pid pid flags = do
    fd ← get_number host (syscall sys_pidfd_open (pid ∷ flags ∷ 0 ∷ []))
    return (record { fd = fd })

  unfoldable pub get_fd : PidFd → ℕ → ℕ → Program ℕ
  get_fd p targetfd flags = get_number host (syscall sys_pidfd_getfd (p.fd ∷ targetfd ∷ flags ∷ []))

  unfoldable pub send_signal : PidFd → ℕ → ℕ → Program (Unit {0})
  send_signal p signal flags =
      perform host (syscall sys_pidfd_send_signal (p.fd ∷ signal ∷ 0 ∷ flags ∷ 0 ∷ 0 ∷ []))
