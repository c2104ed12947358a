-- ===== src/Pidfd/Examples.antt =====
-- Concrete calls of pidfd.
use sysbox_libs.Prelude.{[], none, ok, refl, ◌∷◌, ◌≡◌}
use sysbox_libs.Host.{Host, answer, get_number, syscall, then_run, ◌>>=◌}
use sysbox_libs.Pidfd.{open_pid}

abbrev quiet_host : Host
quiet_host = record { failure = λ calls c. none; number = λ calls c. 7; text = λ calls c. [] }

open_test :
    open_pid quiet_host 42 0 [] ≡ (syscall 434 (42 ∷ 0 ∷ 0 ∷ []) ∷ [], ok (record { fd = 7 }))
unfolding open_pid get_number answer ◌>>=◌ then_run
open_test = refl
