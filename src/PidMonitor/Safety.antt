-- ===== src/PidMonitor/Safety.antt =====
-- What holds of pidmonitor after every interleaving of the monitor thread with its clients.
use sysbox_libs.Prelude.{
  ℕ, ◌≤◌, ◌≡◌, refl, Bool, true, some, List, [], ◌∷◌, arith, nat_comparable, map, Bytes, length,
  length-append, All, All-append, or_left, or_right, ltb, ap, ok, Bool-cases, inl, inr, ltb→lt,
}
use sysbox_libs.Prelude.Maybe.{◌>>=◌, Ensures, Ensures-bind, Ensures-eq}
use sysbox_libs.PidMonitor.Events.{Stat, PidEvent, EventTable, Cfg}
use sysbox_libs.PidMonitor.Validity.{IsValid}
use sysbox_libs.Prelude.{>>-eq-ok, ok_inj}
use sysbox_libs.PidMonitor.Events.{validate_cfg}
use sysbox_libs.PidMonitor.Monitor.{
  idle_monitor, PidMon, Phase, polling, stopping, exited, scanned, sent, event_ch_cap, monitor_step,
  monitor_at, remove_all, send, add_event, remove_event, close, close_at, wait_event, receive, new,
  hit_event, rm_event,
}
use sysbox_libs.PidMonitor.Scan.{is_gone, hits, check_pids-hits, remove_all-IsValid}
use sysbox_libs.PidMonitor.Calls.{add_event-IsValid, remove_event-IsValid}
use sysbox_libs.PidMonitor.Round.{with_table}
use sysbox_libs.PidMonitor.Known.{Asked, add-known, remove-known, remove_all-known, hits-IsJust}
use sysbox_libs.PidMonitor.Trace.{
  Action, adds, removes, waits, closes, monitors, step, run, asks, sees_gone, ever, IsJust,
}

-- What the monitor thread holds between its steps.
abbrev Held : (ℕ → Bool) → (ℕ → Bool) → Phase → Type 0
Held asked gone (scanned es rs) =
    All (IsJust asked gone) es × (ps : List ℕ) × (rs ≡ map rm_event ps)
Held asked gone (sent rs) = (ps : List ℕ) × (rs ≡ map rm_event ps)
Held asked gone _ = Unit

pub record Inv (asked gone : ℕ → Bool) (pm : PidMon) : Type 0 where
  pub valid : IsValid pm.event_table
  known : All (Asked asked) pm.event_table
  room : length pm.event_ch ≤ event_ch_cap
  queued : All (All (IsJust asked gone)) pm.event_ch
  held : Held asked gone pm.phase

-- Every process counts as asked for and as gone, where only the form of the state matters.
abbrev pub always : ℕ → Bool
always p = true

pub new_ok : (cfg : Cfg) (pm : PidMon) → new cfg ≡ ok pm → idle_monitor cfg ≡ pm
unfolding new
new_ok cfg pm h = ok_inj (>>-eq-ok (validate_cfg cfg) (ok (idle_monitor cfg)) h)

module _ (asked gone : ℕ → Bool) where
  scan-Inv :
      (stat : Bytes → Stat) (pm : PidMon)
      → ((p : ℕ) → is_gone stat p ≡ true → gone p ≡ true)
      → Inv asked gone pm
      → Inv asked gone (record pm {
        phase =
            scanned
              (map (hit_event stat) (hits stat pm.event_table))
              (map rm_event (hits stat pm.event_table));
      })
  scan-Inv stat pm w inv = record {
    valid = inv.valid;
    known = inv.known;
    room = inv.room;
    queued = inv.queued;
    held = (hits-IsJust asked gone stat pm.event_table w inv.known, hits stat pm.event_table, refl);
  }

  send-Inv :
      (es : List PidEvent) (next : Phase) (pm : PidMon)
      → Inv asked gone pm
      → All (IsJust asked gone) es
      → Held asked gone next
      → Ensures (Inv asked gone) (send es next pm)
  unfolding send
  send-Inv es next pm inv js h = elim (Bool-cases (ltb (length pm.event_ch) event_ch_cap)) [
    | inl fits ↦ rw fits (record {
      valid = inv.valid;
      known = inv.known;
      room = omega (arith, ltb→lt _ _ fits, length-append pm.event_ch (es ∷ []));
      queued = All-append (All (IsJust asked gone)) pm.event_ch (es ∷ []) inv.queued (js, tt);
      held = h;
    })
    | inr full ↦ rw full tt
  ]

  clean-Inv :
      (rs : List PidEvent) (ps : List ℕ) (pm : PidMon)
      → rs ≡ map rm_event ps
      → Inv asked gone pm
      → Inv asked gone (record pm { event_table = remove_all rs pm.event_table; phase = polling })
  clean-Inv rs ps pm e inv = rw e (record {
    valid = remove_all-IsValid ps pm.event_table inv.valid;
    known = remove_all-known asked gone ps pm.event_table inv.valid inv.known;
    room = inv.room;
    queued = inv.queued;
    held = tt;
  })

  set_phase-Inv :
      (phase : Phase) (pm : PidMon)
      → Held asked gone phase
      → Inv asked gone pm
      → Inv asked gone (record pm { phase = phase })
  set_phase-Inv phase pm h inv = record {
    valid = inv.valid;
    known = inv.known;
    room = inv.room;
    queued = inv.queued;
    held = h;
  }

  set_table-Inv :
      (t : EventTable) (pm : PidMon)
      → IsValid t
      → All (Asked asked) t
      → Inv asked gone pm
      → Inv asked gone (with_table t pm)
  set_table-Inv t pm v k inv = record {
    valid = v;
    known = k;
    room = inv.room;
    queued = inv.queued;
    held = inv.held;
  }

  monitor-Inv :
      (phase : Phase) (stat : Bytes → Stat) (pm : PidMon)
      → ((p : ℕ) → is_gone stat p ≡ true → gone p ≡ true)
      → Held asked gone phase
      → Inv asked gone pm
      → Ensures (Inv asked gone) (monitor_at phase stat pm)
  unfolding monitor_at
  monitor-Inv polling stat pm w held inv =
      rw (check_pids-hits stat pm.event_table [] []) (scan-Inv stat pm w inv)
  monitor-Inv (scanned [] rs) stat pm w held inv = set_phase-Inv (sent rs) pm (held.1, held.2) inv
  monitor-Inv (scanned (d ∷ es) rs) stat pm w held inv =
      send-Inv (d ∷ es) (sent rs) pm inv held.0 (held.1, held.2)
  monitor-Inv (sent rs) stat pm w held inv = clean-Inv rs held.0 pm held.1 inv
  monitor-Inv stopping stat pm w held inv = send-Inv [] exited pm inv tt tt
  monitor-Inv exited stat pm w held inv = tt

  close-Inv :
      (phase : Phase) (pm : PidMon)
      → Inv asked gone pm
      → Ensures (Inv asked gone) (close_at phase pm)
  unfolding close_at
  close-Inv polling pm inv = set_phase-Inv stopping pm tt inv
  close-Inv _ pm inv = tt

  receive-Inv :
      (ch : List (List PidEvent)) (pm : PidMon)
      → ch ≡ pm.event_ch
      → Inv asked gone pm
      → Ensures (Inv asked gone) (receive ch pm >>= λ r. some r.1)
  unfolding receive
  receive-Inv [] pm e inv = tt
  receive-Inv (es ∷ rest) pm e inv = record {
    valid = inv.valid;
    known = inv.known;
    room = omega (arith, inv.room, ap length e);
    queued = (rw (← e) at inv.queued).1;
    held = inv.held;
  }

  pub step-Inv :
      (a : Action) (pm : PidMon)
      → ((p : ℕ) → asks a p ≡ true → asked p ≡ true)
      → ((p : ℕ) → sees_gone a p ≡ true → gone p ≡ true)
      → Inv asked gone pm
      → Ensures (Inv asked gone) (step a pm)
  unfolding monitor_step close wait_event
  step-Inv (adds e) pm ha hg inv =
      set_table-Inv (add_event (e ∷ []) pm.event_table).0 pm
        (add_event-IsValid (e ∷ []) pm.event_table inv.valid)
        (add-known asked gone pm.event_table e inv.valid inv.known (ha e.pid)) inv
  step-Inv (removes e) pm ha hg inv =
      set_table-Inv (remove_event (e ∷ []) pm.event_table).0 pm
        (remove_event-IsValid (e ∷ []) pm.event_table inv.valid)
        (remove-known asked gone pm.event_table e inv.valid inv.known) inv
  step-Inv waits pm ha hg inv = receive-Inv pm.event_ch pm refl inv
  step-Inv closes pm ha hg inv = close-Inv pm.phase pm inv
  step-Inv (monitors stat) pm ha hg inv = monitor-Inv pm.phase stat pm hg inv.held inv

  run-Inv :
      (actions : List Action) (pm : PidMon)
      → ((p : ℕ) → ever asks actions p ≡ true → asked p ≡ true)
      → ((p : ℕ) → ever sees_gone actions p ≡ true → gone p ≡ true)
      → Inv asked gone pm
      → Ensures (Inv asked gone) (run actions pm)
  unfolding run
  run-Inv [] pm ha hg inv = inv
  run-Inv (a ∷ rest) pm ha hg inv =
      Ensures-bind (Inv asked gone) (Inv asked gone) (step a pm) (run rest)
        (step-Inv a pm (λ p h. ha p (or_left _ _ h)) (λ p h. hg p (or_left _ _ h)) inv)
        (λ q. run-Inv rest q (λ p h. ha p (or_right _ _ h)) (λ p h. hg p (or_right _ _ h)))

  pub new-Inv : (cfg : Cfg) (pm : PidMon) → new cfg ≡ ok pm → Inv asked gone pm
  new-Inv cfg pm h = rw (← new_ok cfg pm h) (record {
    valid = record { has_keys = tt; exits = tt };
    known = tt;
    room = omega arith;
    queued = tt;
    held = tt;
  })

-- After any interleaving of the monitor thread with calls of AddEvent, RemoveEvent, WaitEvent and
-- Close from a monitor that `New` made, the table has one entry for each pid and monitors it for
-- `Exit`, the channel is within its room, and every event in the channel is the exit of a process
-- that some call asked to monitor and that was gone, or could not be looked up, at some step of
-- the monitor thread.
pub run-new_safety :
    (cfg : Cfg) (start pm : PidMon) (actions : List Action)
    → new cfg ≡ ok start
    → run actions start ≡ some pm
    → IsValid pm.event_table
      × (length pm.event_ch ≤ event_ch_cap)
      × All (All (IsJust (ever asks actions) (ever sees_gone actions))) pm.event_ch
run-new_safety cfg start pm actions made ran =
    let asked = ever asks actions in
    let gone = ever sees_gone actions in
    let inv = Ensures-eq (Inv asked gone) (run actions start) pm ran (
      run-Inv asked gone actions start (λ p h. h) (λ p h. h) (new-Inv asked gone cfg start made)) in
    (inv.valid, inv.room, inv.queued)
