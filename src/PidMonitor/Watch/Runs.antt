-- ===== src/PidMonitor/Watch/Runs.antt =====
-- That every run of pidmonitor is a run of the abstract view.
use sysbox_libs.Prelude.{
  List, Option, [], is_some, none, ok, refl, some, true, ◌∙◌, ◌∷◌, ◌≡◌, ℕ, nat_comparable,
}
use sysbox_libs.Prelude.Maybe.{Ensures, Ensures-eq, ◌>>=◌}
use sysbox_libs.Prelude.Table.{lookup}
use sysbox_libs.PidMonitor.Events.{Cfg, PidEvent}
use sysbox_libs.PidMonitor.Monitor.{
  PidMon, Phase, close, close_at, monitor_step, new, polling, receive, wait_event,
}
use sysbox_libs.PidMonitor.Trace.{Action, adds, closes, monitors, removes, run, step, waits}
use sysbox_libs.PidMonitor.Safety.{Inv, always, new-Inv, new_ok, step-Inv}
use sysbox_libs.PidMonitor.Once.{handed}
use sysbox_libs.PidMonitor.Watch.{
  PidWatch, Reaches, Sees, Stands, Steps, is_closed, label_of, labels, labels_after, sight,
}
use sysbox_libs.PidMonitor.Watch.Refines.{add-Steps, monitor-Steps, remove-Steps}
use sysbox_libs.Watching.{Moves, Reaches-then, gets, no_watch, shut, shuts, stay, take}

receive-Steps :
    (ch : List (List PidEvent)) (pm : PidMon) (s : PidWatch)
    → pm.event_ch ≡ ch
    → Sees pm s
    → Ensures (Steps (gets (handed (receive ch pm))) s) (receive ch pm >>= λ r. some r.1)
unfolding receive
receive-Steps [] pm s e h = tt
receive-Steps (es ∷ rest) pm s e h = (
  record s { posted = rest },
  take es rest s (h.posted ∙ e),
  record { watched = h.watched; posted = refl; closed = h.closed; stands = h.stands },
)

close-Steps :
    (phase : Phase) (pm : PidMon) (s : PidWatch)
    → Stands phase s.stage
    → s.closed ≡ is_closed phase
    → Sees pm s
    → Ensures (Steps shuts s) (close_at phase pm)
unfolding close_at
close-Steps polling pm s st c h = (
  record s { closed = true },
  shut s c,
  record { watched = h.watched; posted = h.posted; closed = refl; stands = st },
)
close-Steps _ pm s st c h = tt

step-Steps :
    (a : Action) (pm : PidMon) (s : PidWatch)
    → Inv always always pm
    → Sees pm s
    → Ensures (Steps (label_of a pm) s) (step a pm)
unfolding monitor_step close wait_event
step-Steps (adds e) pm s inv h = add-Steps e pm s inv.valid h
step-Steps (removes e) pm s inv h = remove-Steps e pm s inv.valid h
step-Steps waits pm s inv h = receive-Steps pm.event_ch pm s refl h
step-Steps closes pm s inv h = close-Steps pm.phase pm s h.stands h.closed h
step-Steps (monitors stat) pm s inv h =
    monitor-Steps pm.phase stat pm s inv.valid h.stands h.closed h

-- A step, and the run behind it.
after_step :
    (a : Action) (rest : List Action) (pm : PidMon) (s : PidWatch) (o : Option PidMon)
    → Ensures (Steps (label_of a pm) s) o
    → Ensures (Inv always always) o
    → ((q : PidMon) (t : PidWatch)
        → Inv always always q
        → Sees q t
        → Ensures (Reaches (labels rest q) t) (run rest q))
    → Ensures (Reaches (label_of a pm ∷ labels_after o (labels rest)) s) (o >>= run rest)
after_step a rest pm s none h inv next = tt
after_step a rest pm s (some q) (t, move, sees) inv next =
    Reaches-then sight Sees (label_of a pm) (labels rest q) s t (run rest q) move
      (next q t inv sees)

run-Reaches :
    (actions : List Action) (pm : PidMon) (s : PidWatch)
    → Inv always always pm
    → Sees pm s
    → Ensures (Reaches (labels actions pm) s) (run actions pm)
unfolding run labels
run-Reaches [] pm s inv h = (s, stay s, h)
run-Reaches (a ∷ rest) pm s inv h =
    after_step a rest pm s (step a pm) (step-Steps a pm s inv h)
      (step-Inv always always a pm (λ p x. refl) (λ p x. refl) inv) (run-Reaches rest)

new-Sees : (cfg : Cfg) (pm : PidMon) → new cfg ≡ ok pm → Sees pm no_watch
new-Sees cfg pm h =
    rw (← new_ok cfg pm h)
      (record { watched = λ p. unfold lookup in refl; posted = refl; closed = refl; stands = refl })

-- Every run of pidmonitor, from a monitor that `New` made and through any interleaving of its
-- thread with calls, is a run of the set of watched processes, label by label: an `Exit` event puts
-- its pid into the set by AddEvent and takes it out by RemoveEvent, and other events are refused;
-- WaitEvent gets the oldest report; Close closes; and each step of the thread either notices, once
-- each, exactly the pids of the set whose path under /proc does not exist or cannot be looked up at
-- that time, or reports what it noticed with its step before, or takes out of the set what it
-- reported with its step before, or reports the end of a closed monitor. At the end the set has
-- exactly the pids of the table, with the reports that are then in the channel, and is closed if
-- the thread has taken the command to stop.
pub run-new-Moves :
    (cfg : Cfg) (start pm : PidMon) (actions : List Action)
    → new cfg ≡ ok start
    → run actions start ≡ some pm
    → (t : PidWatch) × Moves sight (labels actions start) no_watch t
      × ((p : ℕ) → t.watched p ≡ is_some (lookup p pm.event_table))
      × (t.posted ≡ pm.event_ch)
      × (t.closed ≡ is_closed pm.phase)
run-new-Moves cfg start pm actions made ran =
    let reached = Ensures-eq (Reaches (labels actions start) no_watch) (run actions start) pm ran (
      run-Reaches actions start no_watch (new-Inv always always cfg start made)
        (new-Sees cfg start made)) in
    (reached.0, reached.1, reached.2.watched, reached.2.posted, reached.2.closed)
