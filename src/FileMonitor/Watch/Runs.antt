-- ===== src/FileMonitor/Watch/Runs.antt =====
-- That every run of fileMonitor is a run of the abstract view.
use sysbox_libs.Prelude.{
  Bool, Bool-cases, Bytes, List, Option, [], inl, inr, is_some, map, none, refl, some, true, ◌∙◌,
  ◌∷◌, ◌≡◌, nat_comparable, bytes_comparable,
}
use sysbox_libs.Prelude.Maybe.{Ensures, Ensures-eq, ◌>>=◌}
use sysbox_libs.Prelude.Table.{lookup}
use sysbox_libs.FileMonitor.Monitor.{
  Cfg, Event, FileMon, Phase, Stat, absent, cleaned, close, events, hand_over, leaving, new,
  receive, returns, scanned, sent, stopping, thread_step, waiting,
}
use sysbox_libs.FileMonitor.Trace.{
  Action, adds, closes, new-fresh_monitor, receives, removes, run, step, wakes,
}
use sysbox_libs.FileMonitor.Turn.{missing_event}
use sysbox_libs.FileMonitor.Invariant.{Inv}
use sysbox_libs.FileMonitor.Safety.{new-Inv, step-Inv}
use sysbox_libs.Watching.{
  Moves, Reaches-then, Stage, gets, hand, hand_end, no_watch, noticed, reported, shut, stay, take,
}
use sysbox_libs.FileMonitor.Watch.View.{Reaches, Sees, Stands, Steps, always}
use sysbox_libs.FileMonitor.Watch.{FileWatch, got, label_of, labels, labels_after, sight}
use sysbox_libs.FileMonitor.Watch.Refines.{add-Steps, remove-Steps, thread-Steps}

-- What a receive comes to, if it is not blocked.
abbrev Received : FileWatch → Option (List Event × FileMon) → Type 0
Received s none = Unit
Received s (some r) = Steps (gets r.0) s r.1

-- The list that is handed over is not empty, and neither is the batch behind it.
handed_batch :
    (stat : Bytes → Stat) (fs : List Bytes) (e : Event) (es rs : List Event) (fm : FileMon)
    (s : FileWatch)
    → s.stage ≡ noticed stat fs
    → s.posted ≡ []
    → e ∷ es ≡ map (missing_event stat) fs
    → Sees (record fm { phase = sent rs }) (record s { stage = reported fs })
    → Steps (gets (e ∷ es)) s (record fm { phase = sent rs })
handed_batch stat [] e es rs fm s st empty h sees = cc
handed_batch stat (f ∷ fs) e es rs fm s st empty h sees =
    rw h (record s { stage = reported (f ∷ fs) }, hand stat f fs s st empty, sees)

hand_over-Received :
    (phase : Phase) (fm : FileMon) (s : FileWatch)
    → fm.event_ch ≡ []
    → Stands phase s.stage s.closed
    → Sees fm s
    → Received s (hand_over phase fm)
unfolding hand_over
hand_over-Received (scanned (e ∷ es) rs) fm s empty (stat, fs, st, same, r) h =
    handed_batch stat fs e es rs fm s st (h.posted ∙ empty) same
      (record { watched = h.watched; posted = h.posted; closed = h.closed; stands = (fs, refl, r) })
hand_over-Received stopping fm s empty st h = (
  s,
  hand_end s st.0 st.1 (h.posted ∙ empty),
  record { watched = h.watched; posted = h.posted; closed = h.closed; stands = st.0 },
)
hand_over-Received _ fm s empty st h = tt

receive-Received :
    (ch : List (List Event)) (fm : FileMon) (s : FileWatch)
    → fm.event_ch ≡ ch
    → Sees fm s
    → Received s (receive ch fm)
unfolding receive
receive-Received [] fm s e h = hand_over-Received fm.phase fm s e h.stands h
receive-Received (es ∷ rest) fm s e h = (
  record s { posted = rest },
  take es rest s (h.posted ∙ e),
  record { watched = h.watched; posted = refl; closed = h.closed; stands = h.stands },
)

Received-Steps :
    (s : FileWatch) (o : Option (List Event × FileMon))
    → Received s o
    → Ensures (Steps (gets (got o)) s) (o >>= λ r. some r.1)
Received-Steps s none h = tt
Received-Steps s (some r) h = h

Stands-closed :
    (phase : Phase) (stage : Stage Bytes (Bytes → Stat)) (closed : Bool)
    → Stands phase stage closed
    → Stands phase stage true
Stands-closed (scanned es rs) stage closed h = h
Stands-closed (sent rs) stage closed h = h
Stands-closed stopping stage closed h = (h.0, refl)
Stands-closed absent stage closed h = h
Stands-closed waiting stage closed h = h
Stands-closed cleaned stage closed h = h
Stands-closed leaving stage closed h = h

step-Steps :
    (a : Action) (fm : FileMon) (s : FileWatch)
    → Inv always always fm
    → Sees fm s
    → Ensures (Steps (label_of a fm) s) (step a fm)
unfolding thread_step events close
step-Steps (adds f) fm s inv h = add-Steps f fm s inv.present h
step-Steps (removes f) fm s inv h = remove-Steps f fm s h
step-Steps receives fm s inv h =
    Received-Steps s (receive fm.event_ch fm) (receive-Received fm.event_ch fm s refl h)
step-Steps closes fm s inv h = elim (Bool-cases fm.stopped) [
  | inl again ↦ rw again tt
  | inr once ↦ rw once (
    record s { closed = true },
    shut s (h.closed ∙ once),
    record {
      watched = h.watched;
      posted = h.posted;
      closed = refl;
      stands = Stands-closed fm.phase s.stage s.closed h.stands;
    },
  )
]
step-Steps (wakes w) fm s inv h = thread-Steps fm.phase w fm s inv.keyed h.stands h

-- A step, and the run behind it.
after_step :
    (a : Action) (rest : List Action) (fm : FileMon) (s : FileWatch) (o : Option FileMon)
    → Ensures (Steps (label_of a fm) s) o
    → Ensures (Inv always always) o
    → ((q : FileMon) (t : FileWatch)
        → Inv always always q
        → Sees q t
        → Ensures (Reaches (labels rest q) t) (run rest q))
    → Ensures (Reaches (label_of a fm ∷ labels_after o (labels rest)) s) (o >>= run rest)
after_step a rest fm s none h inv next = tt
after_step a rest fm s (some q) (t, move, sees) inv next =
    Reaches-then sight Sees (label_of a fm) (labels rest q) s t (run rest q) move
      (next q t inv sees)

run-Reaches :
    (actions : List Action) (fm : FileMon) (s : FileWatch)
    → Inv always always fm
    → Sees fm s
    → Ensures (Reaches (labels actions fm) s) (run actions fm)
unfolding run labels
run-Reaches [] fm s inv h = (s, stay s, h)
run-Reaches (a ∷ rest) fm s inv h =
    after_step a rest fm s (step a fm) (step-Steps a fm s inv h)
      (step-Inv always always a fm (λ f x. refl) (λ f x. refl) inv) (run-Reaches rest)

new-Sees : (cfg : Cfg) (fm : FileMon) → new cfg ≡ returns fm → Sees fm no_watch
new-Sees cfg fm h =
    rw (← (new-fresh_monitor cfg fm h).1)
      (record { watched = λ g. unfold lookup in refl; posted = refl; closed = refl; stands = refl })

-- Every run of fileMonitor, from a monitor that `New` made and through any interleaving of its
-- thread with calls and receives, is a run of the set of watched files, label by label: an Add
-- puts its file into the set and a Remove takes its file out; a receiver gets the oldest report,
-- or the one that the thread hands over; a Close closes; each step of the thread that scans
-- notices, once each, exactly the files of the set that do not exist or cannot be looked up at
-- that time, its next one reports these, and the one behind it takes these out of the set; and
-- its other steps show nothing, or report the end of a closed monitor. At the end the set has
-- exactly the files of the table, with the reports that are then in the channel, and is closed if
-- the monitor is stopped.
pub run-Moves :
    (cfg : Cfg) (start fm : FileMon) (actions : List Action)
    → new cfg ≡ returns start
    → run actions start ≡ some fm
    → (t : FileWatch) × Moves sight (labels actions start) no_watch t
      × ((g : Bytes) → t.watched g ≡ is_some (lookup g fm.file_table))
      × (t.posted ≡ fm.event_ch)
      × (t.closed ≡ fm.stopped)
run-Moves cfg start fm actions made ran =
    let reached = Ensures-eq (Reaches (labels actions start) no_watch) (run actions start) fm ran (
      run-Reaches actions start no_watch (new-Inv always always cfg start made)
        (new-Sees cfg start made)) in
    (reached.0, reached.1, reached.2.watched, reached.2.posted, reached.2.closed)
