-- ===== src/PidMonitor/Once/Runs.antt =====
-- How often a run of pidmonitor reports a process.
use sysbox_libs.Prelude.{
  Bool-cases, Bytes, List, Option, [], arith, inl, inr, length, ltb, none, ok, refl, some, sym, ℕ,
  ◌+◌, ◌∙◌, ◌∷◌, ◌≡◌, ◌≤◌, nat_comparable,
}
use sysbox_libs.Prelude.Maybe.{Ensures, Ensures-eq, Ensures-weaken, ◌>>=◌}
use sysbox_libs.Prelude.Table.{lookup}
use sysbox_libs.PidMonitor.Events.{Cfg, PidEvent, Stat}
use sysbox_libs.PidMonitor.Monitor.{
  PidMon, Phase, close, close_at, event_ch_cap, exited, monitor_at, monitor_step, new, polling,
  receive, scanned, send, sent, stopping, wait_event,
}
use sysbox_libs.PidMonitor.Scan.{check_pids-hits, hits}
use sysbox_libs.PidMonitor.Trace.{Action, adds, closes, monitors, removes, run, step, waits}
use sysbox_libs.PidMonitor.Safety.{Inv, always, new-Inv, new_ok, step-Inv}
use sysbox_libs.PidMonitor.Once.{
  asked_in, in_channel, IsPaired, named-rm_event, received_in, tally-missing, total,
}
use sysbox_libs.PidMonitor.Once.Steps.{Pays, step-Pays}

abbrev PhasePaired : PidMon → Type 0
PhasePaired pm = IsPaired pm.phase

send-IsPaired :
    (es : List PidEvent) (next : Phase) (pm : PidMon)
    → IsPaired next
    → Ensures PhasePaired (send es next pm)
unfolding send
send-IsPaired es next pm h = elim (Bool-cases (ltb (length pm.event_ch) event_ch_cap)) [
  | inl fits ↦ rw fits h
  | inr full ↦ rw full tt
]

monitor-IsPaired :
    (phase : Phase) (stat : Bytes → Stat) (pm : PidMon)
    → IsPaired phase
    → Ensures PhasePaired (monitor_at phase stat pm)
unfolding monitor_at
monitor-IsPaired polling stat pm h =
    let ps = hits stat pm.event_table in
    rw (check_pids-hits stat pm.event_table [] [])
      (ps, refl, λ p absent. tally-missing stat p ps (sym (named-rm_event p ps) ∙ absent))
monitor-IsPaired (scanned [] rs) stat pm h = (h.0, h.1)
monitor-IsPaired (scanned (d ∷ es) rs) stat pm h = send-IsPaired (d ∷ es) (sent rs) pm (h.0, h.1)
monitor-IsPaired (sent rs) stat pm h = tt
monitor-IsPaired stopping stat pm h = send-IsPaired [] exited pm tt
monitor-IsPaired exited stat pm h = tt

receive-IsPaired :
    (ch : List (List PidEvent)) (pm : PidMon)
    → IsPaired pm.phase
    → Ensures PhasePaired (receive ch pm >>= λ r. some r.1)
unfolding receive
receive-IsPaired [] pm h = tt
receive-IsPaired (es ∷ rest) pm h = h

close-IsPaired : (phase : Phase) (pm : PidMon) → Ensures PhasePaired (close_at phase pm)
unfolding close_at
close-IsPaired polling pm = tt
close-IsPaired _ pm = tt

step-IsPaired : (a : Action) (pm : PidMon) → IsPaired pm.phase → Ensures PhasePaired (step a pm)
unfolding monitor_step close wait_event
step-IsPaired (adds e) pm h = h
step-IsPaired (removes e) pm h = h
step-IsPaired waits pm h = receive-IsPaired pm.event_ch pm h
step-IsPaired closes pm h = close-IsPaired pm.phase pm
step-IsPaired (monitors stat) pm h = monitor-IsPaired pm.phase stat pm h

-- The reports of a run are at most those that might have followed and those that it asks for.
abbrev RunPays : ℕ → List Action → PidMon → PidMon → Type 0
RunPays p actions pm q = received_in p actions pm + total p q ≤ total p pm + asked_in p actions

after_step :
    (p : ℕ) (a : Action) (rest : List Action) (pm : PidMon) (o : Option PidMon)
    → step a pm ≡ o
    → Ensures (Pays p a pm) o
    → Ensures (Inv always always) o
    → Ensures PhasePaired o
    → ((q : PidMon)
        → Inv always always q
        → IsPaired q.phase
        → Ensures (RunPays p rest q) (run rest q))
    → Ensures (RunPays p (a ∷ rest) pm) (o >>= run rest)
unfolding received_in asked_in
after_step p a rest pm none e pays inv h next = tt
after_step p a rest pm (some q) e pays inv h next =
    Ensures-weaken (RunPays p rest q) (RunPays p (a ∷ rest) pm) (run rest q)
      (λ r k. rw e (omega (arith, pays, k))) (next q inv h)

run-RunPays :
    (p : ℕ) (actions : List Action) (pm : PidMon)
    → Inv always always pm
    → IsPaired pm.phase
    → Ensures (RunPays p actions pm) (run actions pm)
unfolding run received_in asked_in
run-RunPays p [] pm inv h = omega arith
run-RunPays p (a ∷ rest) pm inv h =
    after_step p a rest pm (step a pm) refl (step-Pays p a pm inv.valid h)
      (step-Inv always always a pm (λ r x. refl) (λ r x. refl) inv) (step-IsPaired a pm h)
      (run-RunPays p rest)

new-total :
    (p : ℕ) (cfg : Cfg) (pm : PidMon) → new cfg ≡ ok pm → (total p pm ≡ 0) × IsPaired pm.phase
new-total p cfg pm h = rw (← new_ok cfg pm h) (unfold lookup in refl, tt)

-- In every run of a monitor that `New` made, through any interleaving of its thread with calls, the
-- events about a process that WaitEvent has handed out, with those that are in the channel at the
-- end, are no more than the `Exit` events for it that calls of AddEvent have added: one addition is
-- reported once at most.
pub run-new_once :
    (cfg : Cfg) (start pm : PidMon) (actions : List Action) (p : ℕ)
    → new cfg ≡ ok start
    → run actions start ≡ some pm
    → received_in p actions start + in_channel p pm.event_ch ≤ asked_in p actions
run-new_once cfg start pm actions p made ran =
    let (nothing, paired) = new-total p cfg start made in
    omega (
      arith,
      nothing,
      Ensures-eq (RunPays p actions start) (run actions start) pm ran
          (run-RunPays p actions start (new-Inv always always cfg start made) paired),
    )
