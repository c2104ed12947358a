-- ===== src/PidMonitor/Once.antt =====
-- How often pidmonitor reports a process.
pub mod Steps
pub mod Runs
use sysbox_libs.Prelude.{
  Bool, Bool-cases, Bytes, Distinct, List, Option, [], all, any, ap, arith, contains, false,
  if◌then◌else◌, inl, inr, is_some, length, length-append, ltb, map, none, ok, refl, some, sym,
  true, ℕ, ◌&&◌, ◌+◌, ◌++◌, ◌<◌, ◌==◌, ◌||◌, ◌∙◌, ◌∷◌, ◌≡◌, ◌≤◌, nat_comparable, nat_beq_iff,
}
use sysbox_libs.Prelude.Maybe.{Ensures, Ensures-and, Ensures-bind, Ensures-eq, ◌>>=◌}
use sysbox_libs.Prelude.Table.{HasKeys, lookup}
use sysbox_libs.PidMonitor.Events.{Cfg, EventTable, PidEvent, Stat, validate_event}
use sysbox_libs.PidMonitor.Validity.{IsValid, lookup-event_table_add, lookup-event_table_rm}
use sysbox_libs.PidMonitor.Monitor.{
  wait_event, PidMon, Phase, add_event, close, close_at, event_ch_cap, exited, hit_event,
  idle_monitor, monitor_at, monitor_step, new, polling, receive, remove_all, remove_event, rm_event,
  scanned, send, sent, stopping,
}
use sysbox_libs.PidMonitor.Scan.{check_pids-hits, contains-hits, hits, lookup-remove_all}
use sysbox_libs.PidMonitor.Round.{hits-Distinct, with_table}
use sysbox_libs.PidMonitor.Trace.{Action, adds, asks, closes, monitors, removes, run, step, waits}
use sysbox_libs.PidMonitor.Safety.{Inv, new-Inv, new_ok, step-Inv}

-- The number of events of a list that are about the process.
abbrev pub tally : ℕ → List PidEvent → ℕ
tally p [] = 0
tally p (e ∷ es) = (if e.pid == p then 1 else 0) + tally p es

abbrev pub in_channel : ℕ → List (List PidEvent) → ℕ
in_channel p [] = 0
in_channel p (es ∷ rest) = tally p es + in_channel p rest

-- What a call of WaitEvent hands out.
abbrev pub handed : Option (List PidEvent × PidMon) → List PidEvent
handed none = []
handed (some r) = r.0

abbrev pub received : Action → PidMon → List PidEvent
received waits pm = handed (wait_event pm)
received _ pm = []

abbrev pub or_zero : Option PidMon → (PidMon → ℕ) → ℕ
or_zero none f = 0
or_zero (some q) f = f q

-- The number of events about the process that the calls of WaitEvent in a run hand out.
unfoldable pub received_in : ℕ → List Action → PidMon → ℕ
received_in p [] pm = 0
received_in p (a ∷ rest) pm = tally p (received a pm) + or_zero (step a pm) (received_in p rest)

-- The number of calls that ask for the process.
unfoldable pub asked_in : ℕ → List Action → ℕ
asked_in p [] = 0
asked_in p (a ∷ rest) = (if asks a p then 1 else 0) + asked_in p rest

abbrev pub registered : ℕ → EventTable → ℕ
registered p t = if is_some (lookup p t) then 1 else 0

abbrev pub named : ℕ → List PidEvent → Bool
named p rs = any (λ e. e.pid == p) rs

-- The reports of the process that may follow with no further call: of a batch that is not yet sent,
-- and of a registration that the removal behind the batch will not drop.
abbrev pub pending : ℕ → Phase → EventTable → ℕ
pending p (scanned es rs) t = if named p rs then tally p es else registered p t
pending p (sent rs) t = if named p rs then 0 else registered p t
pending p _ t = registered p t

abbrev pub total : ℕ → PidMon → ℕ
total p pm = in_channel p pm.event_ch + pending p pm.phase pm.event_table

-- What is not to be removed is not to be reported.
abbrev pub IsPaired : Phase → Type 0
IsPaired (scanned es rs) =
    (ps : List ℕ) × (rs ≡ map rm_event ps) × ((p : ℕ) → named p rs ≡ false → tally p es ≡ 0)
IsPaired (sent rs) = (ps : List ℕ) × (rs ≡ map rm_event ps)
IsPaired _ = Unit

pub tally-missing :
    (stat : Bytes → Stat) (p : ℕ) (ps : List ℕ)
    → contains ps p ≡ false
    → tally p (map (hit_event stat) ps) ≡ 0
unfolding hit_event
tally-missing stat p [] h = refl
tally-missing stat p (q ∷ ps) h = ground (arith, tally-missing stat p ps)

pub tally-Distinct :
    (stat : Bytes → Stat) (p : ℕ) (ps : List ℕ)
    → Distinct ps
    → tally p (map (hit_event stat) ps) ≡ (if contains ps p then 1 else 0)
unfolding hit_event
tally-Distinct stat p [] h = refl
tally-Distinct stat p (q ∷ ps) h =
    ground (arith, tally-Distinct stat p ps h.1, tally-missing stat p ps, nat_beq_iff q p, h.0)

pub named-rm_event : (p : ℕ) (ps : List ℕ) → named p (map rm_event ps) ≡ contains ps p
unfolding rm_event
named-rm_event p [] = refl
named-rm_event p (q ∷ ps) = ground (arith, named-rm_event p ps)

pub in_channel-append :
    (p : ℕ) (ch : List (List PidEvent)) (es : List PidEvent)
    → in_channel p (ch ++ es ∷ []) ≡ in_channel p ch + tally p es
in_channel-append p [] es = omega arith
in_channel-append p (fs ∷ ch) es = omega (arith, in_channel-append p ch es)
