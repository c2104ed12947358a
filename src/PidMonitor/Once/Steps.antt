-- ===== src/PidMonitor/Once/Steps.antt =====
-- What a step of pidmonitor adds to the reports of a process.
use sysbox_libs.Prelude.{
  Bool-cases, Bytes, List, [], arith, if◌then◌else◌, inl, inr, length, ltb, refl, some, ℕ, ◌&&◌,
  ◌+◌, ◌==◌, ◌∷◌, ◌≡◌, ◌≤◌, nat_comparable,
}
use sysbox_libs.Prelude.Maybe.{Ensures, ◌>>=◌}
use sysbox_libs.PidMonitor.Events.{EventTable, PidEvent, Stat, validate_event}
use sysbox_libs.PidMonitor.Validity.{IsValid, lookup-event_table_add, lookup-event_table_rm}
use sysbox_libs.PidMonitor.Monitor.{
  PidMon, Phase, add_event, close, close_at, event_ch_cap, exited, monitor_at, monitor_step,
  polling, receive, remove_event, scanned, send, sent, stopping, wait_event,
}
use sysbox_libs.PidMonitor.Scan.{check_pids-hits, contains-hits, hits, lookup-remove_all}
use sysbox_libs.PidMonitor.Round.{hits-Distinct}
use sysbox_libs.PidMonitor.Trace.{Action, adds, asks, closes, monitors, removes, step, waits}
use sysbox_libs.PidMonitor.Once.{
  in_channel-append, IsPaired, named-rm_event, pending, received, registered, tally, tally-Distinct,
  total,
}

-- The reports that a step hands out, and those that may follow it, are at most those that might
-- have followed before it and the one that it asks for.
abbrev pub Pays : ℕ → Action → PidMon → PidMon → Type 0
Pays p a pm q = tally p (received a pm) + total p q ≤ total p pm + (if asks a p then 1 else 0)

pending-table :
    (p k : ℕ) (phase : Phase) (t u : EventTable)
    → registered p u ≤ registered p t + k
    → pending p phase u ≤ pending p phase t + k
pending-table p k (scanned es rs) t u h = ground (arith, h)
pending-table p k (sent rs) t u h = ground (arith, h)
pending-table p k polling t u h = h
pending-table p k stopping t u h = h
pending-table p k exited t u h = h

add_event-registered :
    (e : PidEvent) (t : EventTable) (p : ℕ)
    → IsValid t
    → registered p (add_event (e ∷ []) t).0
      ≤ registered p t + (if validate_event e.event && (e.pid == p) then 1 else 0)
unfolding add_event
add_event-registered e t p v = ground (arith, lookup-event_table_add t e p v)

remove_event-registered :
    (e : PidEvent) (t : EventTable) (p : ℕ)
    → IsValid t
    → registered p (remove_event (e ∷ []) t).0 ≤ registered p t + 0
unfolding remove_event
remove_event-registered e t p v = ground (arith, lookup-event_table_rm t e p v)

receive-Pays :
    (p : ℕ) (ch : List (List PidEvent)) (pm : PidMon)
    → pm.event_ch ≡ ch
    → Ensures (Pays p waits pm) (receive ch pm >>= λ r. some r.1)
unfolding receive wait_event
receive-Pays p [] pm e = tt
receive-Pays p (es ∷ rest) pm e = rw e (omega arith)

close-Pays :
    (p : ℕ) (phase : Phase) (pm : PidMon)
    → pm.phase ≡ phase
    → Ensures (Pays p closes pm) (close_at phase pm)
unfolding close_at
close-Pays p polling pm e = rw e (omega arith)
close-Pays p _ pm e = tt

send-Pays :
    (p : ℕ) (stat : Bytes → Stat) (es : List PidEvent) (next : Phase) (pm : PidMon)
    → tally p es + pending p next pm.event_table ≤ pending p pm.phase pm.event_table
    → Ensures (Pays p (monitors stat) pm) (send es next pm)
unfolding send
send-Pays p stat es next pm h = elim (Bool-cases (ltb (length pm.event_ch) event_ch_cap)) [
  | inl fits ↦ rw fits (omega (arith, h, in_channel-append p pm.event_ch es))
  | inr full ↦ rw full tt
]

scan-Pays :
    (p : ℕ) (stat : Bytes → Stat) (pm : PidMon)
    → pm.phase ≡ polling
    → IsValid pm.event_table
    → Ensures (Pays p (monitors stat) pm) (monitor_at polling stat pm)
unfolding monitor_at
scan-Pays p stat pm e v =
    let ps = hits stat pm.event_table in
    rw (check_pids-hits stat pm.event_table [] [], e)
      (ground (
        arith,
        named-rm_event p ps,
        tally-Distinct stat p ps (hits-Distinct stat pm.event_table v.has_keys),
        contains-hits stat pm.event_table p v.exits,
      ))

monitor-Pays :
    (p : ℕ) (phase : Phase) (stat : Bytes → Stat) (pm : PidMon)
    → pm.phase ≡ phase
    → IsValid pm.event_table
    → IsPaired phase
    → Ensures (Pays p (monitors stat) pm) (monitor_at phase stat pm)
unfolding monitor_at
monitor-Pays p polling stat pm e v h = scan-Pays p stat pm e v
monitor-Pays p (scanned [] rs) stat pm e v h = rw e (ground arith)
monitor-Pays p (scanned (d ∷ es) rs) stat pm e v h =
    send-Pays p stat (d ∷ es) (sent rs) pm (rw e (ground (arith, h.2 p)))
monitor-Pays p (sent rs) stat pm e v (ps, r) =
    rw (e, r) (ground (arith, named-rm_event p ps, lookup-remove_all ps pm.event_table p v))
monitor-Pays p stopping stat pm e v h = send-Pays p stat [] exited pm (rw e (omega arith))
monitor-Pays p exited stat pm e v h = tt

pub step-Pays :
    (p : ℕ) (a : Action) (pm : PidMon)
    → IsValid pm.event_table
    → IsPaired pm.phase
    → Ensures (Pays p a pm) (step a pm)
unfolding monitor_step close wait_event
step-Pays p (adds e) pm v h = omega (
  arith,
  pending-table p (if validate_event e.event && (e.pid == p) then 1 else 0) pm.phase pm.event_table
      (add_event (e ∷ []) pm.event_table).0 (add_event-registered e pm.event_table p v),
)
step-Pays p (removes e) pm v h = omega (
  arith,
  pending-table p 0 pm.phase pm.event_table (remove_event (e ∷ []) pm.event_table).0
      (remove_event-registered e pm.event_table p v),
)
step-Pays p waits pm v h = receive-Pays p pm.event_ch pm refl
step-Pays p closes pm v h = close-Pays p pm.phase pm refl
step-Pays p (monitors stat) pm v h = monitor-Pays p pm.phase stat pm refl v h
