-- ===== src/LinuxUtils/Shm/Verdict.antt =====
-- What ShmSysctlUserNamespaced of linuxUtils/linux.go concludes from the end of its child.
use sysbox_libs.Prelude.{Bytes, List, [], arith, ok, refl, sym, true, ◌∷◌, ◌≡◌}
use sysbox_libs.Host.{Call, Host, close_fd, open_for_writing}
use sysbox_libs.LinuxUtils.Child.{exit_with}
use sysbox_libs.LinuxUtils.Shm.{open_sysctls, shm_exec_func, shm_verdict, sysctls}
use sysbox_libs.LinuxUtils.Child.Exit.{
  Tells, become_root-Tells, is_clean, or_else_number-Tells, status-Tells, wait_status,
}

module _ (host : Host) where
  open_sysctls-Tells :
      (files : List Bytes) (calls : List Call)
      → is_clean host calls ≡ true
      → Tells host (open_sysctls host files calls)
  unfolding open_sysctls
  open_sysctls-Tells [] calls h = (sym h, omega arith)
  open_sysctls-Tells (f ∷ files) calls h =
      or_else_number-Tells host (open_for_writing f) (exit_with 2) _ calls refl h
        (λ good.
          open_sysctls-Tells files
            (close_fd (host.number calls (open_for_writing f)) ∷ open_for_writing f ∷ calls) good)
        (λ bad. (sym bad, omega arith))

  -- The child's run ends with an exit, and the parent, which gets the status of that exit, says
  -- that the sysctls can be written from a user namespace exactly if no call of the child failed:
  -- it became root there and opened each of the three files.
  pub shm_verdict-shm_exec_func :
      (calls : List Call)
      → shm_verdict host (wait_status (shm_exec_func host []).1) calls
        ≡ (calls, ok (is_clean host (shm_exec_func host []).0))
  unfolding shm_verdict
  shm_verdict-shm_exec_func calls =
      let told = status-Tells host (shm_exec_func host []).0 (shm_exec_func host []).1 exec-Tells in
      rw (told.0, told.1) refl
    where
      exec-Tells : Tells host (shm_exec_func host [])
      exec-Tells =
          unfold shm_exec_func in
          become_root-Tells host (open_sysctls host sysctls) (open_sysctls-Tells sysctls)
