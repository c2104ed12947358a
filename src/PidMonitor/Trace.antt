-- ===== src/PidMonitor/Trace.antt =====
-- Interleavings of the monitor thread with its clients, as sequences of atomic actions.
use sysbox_libs.Prelude.{
  ℕ, ◌≡◌, Bool, true, false, ◌||◌, ◌&&◌, Option, some, List, [], ◌∷◌, ◌==◌, nat_comparable, Bytes,
}
use sysbox_libs.Prelude.Maybe.{◌>>=◌}
use sysbox_libs.PidMonitor.Events.{Stat, PidEvent, exit, validate_event}
use sysbox_libs.PidMonitor.Monitor.{
  PidMon, monitor_step, add_event, remove_event, close, wait_event,
}
use sysbox_libs.PidMonitor.Scan.{is_gone}
use sysbox_libs.PidMonitor.Round.{with_table}

-- A client's call of AddEvent or RemoveEvent takes the lock once for each event: it is a sequence
-- of these. `monitors` is a step of the monitor thread at a time when `os.Stat` is the function.
pub data Action : Type 0 where
  adds removes : PidEvent → Action
  waits closes : Action
  monitors : (Bytes → Stat) → Action

abbrev pub step : Action → PidMon → Option PidMon
step (adds e) pm = some (with_table (add_event (e ∷ []) pm.event_table).0 pm)
step (removes e) pm = some (with_table (remove_event (e ∷ []) pm.event_table).0 pm)
step waits pm = wait_event pm >>= λ r. some r.1
step closes pm = close pm
step (monitors stat) pm = monitor_step stat pm

-- `none` if an action of the sequence is blocked when its turn comes.
unfoldable pub run : List Action → PidMon → Option PidMon
run [] pm = some pm
run (a ∷ rest) pm = step a pm >>= run rest

-- The sequence asks to monitor `p` for its exit.
abbrev pub asks : Action → ℕ → Bool
asks (adds e) p = validate_event e.event && (e.pid == p)
asks _ p = false

-- At some step of the monitor thread the process `p` is gone or cannot be looked up.
abbrev pub sees_gone : Action → ℕ → Bool
sees_gone (monitors stat) p = is_gone stat p
sees_gone _ p = false

abbrev pub ever : (Action → ℕ → Bool) → List Action → ℕ → Bool
ever f [] p = false
ever f (a ∷ rest) p = f a p || ever f rest p

-- An event for `Exit` of a process that was asked for and was seen gone.
abbrev pub IsJust : (ℕ → Bool) → (ℕ → Bool) → PidEvent → Type 0
IsJust asked gone e = (e.event ≡ exit) × (asked e.pid ≡ true) × (gone e.pid ≡ true)
