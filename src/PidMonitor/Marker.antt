-- ===== src/PidMonitor/Marker.antt =====
-- The lists of events that pidmonitor gives, in order, and the empty list that ends them.
use mathlib.Core.List.{append-nil, append_assoc}
use sysbox_libs.Prelude.{
  All, All-append, Bool, Bool-cases, Bytes, List, Option, [], ap, false, if◌then◌else◌, inl, inr,
  length, ltb, none, ok, refl, some, sym, true, ◌++◌, ◌∙◌, ◌∷◌, ◌≡◌, ◌≢◌,
}
use sysbox_libs.Prelude.Maybe.{Ensures, Ensures-eq, ◌>>=◌}
use sysbox_libs.PidMonitor.Events.{Cfg, PidEvent, Stat}
use sysbox_libs.PidMonitor.Monitor.{
  PidMon, Phase, close, close_at, event_ch_cap, exited, monitor_at, monitor_step, new, polling,
  receive, scanned, send, sent, stopping, wait_event,
}
use sysbox_libs.PidMonitor.Safety.{new_ok}
use sysbox_libs.PidMonitor.Trace.{Action, adds, closes, monitors, removes, run, step, waits}

abbrev Lists : Type 0
Lists = List (List PidEvent)

-- The list that a call of WaitEvent returns, if it is not blocked.
abbrev list_of : Option (List PidEvent × PidMon) → Lists
list_of none = []
list_of (some r) = r.0 ∷ []

abbrev returned_by : Action → PidMon → Lists
returned_by waits pm = list_of (wait_event pm)
returned_by _ pm = []

abbrev lists_after : Option PidMon → (PidMon → Lists) → Lists
lists_after none f = []
lists_after (some pm) f = f pm

-- The lists that the calls of WaitEvent in a run return, in order.
unfoldable pub returned_in : List Action → PidMon → Lists
returned_in [] pm = []
returned_in (a ∷ rest) pm = returned_by a pm ++ lists_after (step a pm) (returned_in rest)

abbrev pub has_exited : Phase → Bool
has_exited exited = true
has_exited _ = false

abbrev pub IsBatch : List PidEvent → Type 0
IsBatch es = es ≢ []

-- Batches, and behind them the empty list if the thread has exited.
abbrev Ends : Phase → Lists → Type 0
Ends phase all =
    (bs : Lists) × All IsBatch bs × (all ≡ (if has_exited phase then bs ++ [] ∷ [] else bs))

-- What a step leaves, behind the lists that were returned before it.
abbrev EndsAfter : Lists → PidMon → Type 0
EndsAfter before pm = Ends pm.phase (before ++ pm.event_ch)

same_lists : (phase : Phase) (a b : Lists) → a ≡ b → Ends phase a → Ends phase b
same_lists phase a b e h = rw (← e) h

send-Ends :
    (es : List PidEvent) (next : Phase) (before : Lists) (pm : PidMon)
    → Ends next ((before ++ pm.event_ch) ++ es ∷ [])
    → Ensures (EndsAfter before) (send es next pm)
unfolding send
send-Ends es next before pm h = elim (Bool-cases (ltb (length pm.event_ch) event_ch_cap)) [
  | inl fits ↦ rw fits (same_lists next _ _ (append_assoc before pm.event_ch (es ∷ [])) h)
  | inr full ↦ rw full tt
]

monitor-Ends :
    (phase : Phase) (stat : Bytes → Stat) (before : Lists) (pm : PidMon)
    → Ends phase (before ++ pm.event_ch)
    → Ensures (EndsAfter before) (monitor_at phase stat pm)
unfolding monitor_at
monitor-Ends polling stat before pm h = h
monitor-Ends (scanned [] rs) stat before pm h = h
monitor-Ends (scanned (e ∷ es) rs) stat before pm (bs, ok_all, eq) =
    send-Ends (e ∷ es) (sent rs) before pm (
      bs ++ (e ∷ es) ∷ [],
      All-append IsBatch bs ((e ∷ es) ∷ []) ok_all ((λ h. cc), tt),
      ap (λ l. l ++ (e ∷ es) ∷ []) eq,
    )
monitor-Ends (sent rs) stat before pm h = h
monitor-Ends stopping stat before pm (bs, ok_all, eq) =
    send-Ends [] exited before pm (bs, ok_all, ap (λ l. l ++ [] ∷ []) eq)
monitor-Ends exited stat before pm h = tt

receive-Ends :
    (ch before : Lists) (pm : PidMon)
    → pm.event_ch ≡ ch
    → EndsAfter before pm
    → Ensures (EndsAfter (before ++ list_of (receive ch pm))) (receive ch pm >>= λ r. some r.1)
unfolding receive
receive-Ends [] before pm e h = tt
receive-Ends (es ∷ rest) before pm e h =
    same_lists pm.phase _ _ (ap (λ l. before ++ l) e ∙ sym (append_assoc before (es ∷ []) rest)) h

close-Ends :
    (phase : Phase) (before : Lists) (pm : PidMon)
    → Ends phase (before ++ pm.event_ch)
    → Ensures (EndsAfter before) (close_at phase pm)
unfolding close_at
close-Ends polling before pm h = h
close-Ends _ before pm h = tt

step-Ends :
    (a : Action) (before : Lists) (pm : PidMon)
    → EndsAfter before pm
    → Ensures (EndsAfter (before ++ returned_by a pm)) (step a pm)
unfolding monitor_step close wait_event
step-Ends (adds e) before pm h = rw (append-nil before) h
step-Ends (removes e) before pm h = rw (append-nil before) h
step-Ends waits before pm h = receive-Ends pm.event_ch before pm refl h
step-Ends closes before pm h = rw (append-nil before) (close-Ends pm.phase before pm h)
step-Ends (monitors stat) before pm h =
    rw (append-nil before) (monitor-Ends pm.phase stat before pm h)

after_step :
    (a : Action) (rest : List Action) (before : Lists) (pm : PidMon) (o : Option PidMon)
    → Ensures (EndsAfter (before ++ returned_by a pm)) o
    → ((between : Lists) (q : PidMon)
        → EndsAfter between q
        → Ensures (EndsAfter (between ++ returned_in rest q)) (run rest q))
    → Ensures
        (EndsAfter (before ++ (returned_by a pm ++ lists_after o (returned_in rest))))
        (o >>= run rest)
after_step a rest before pm none h next = tt
after_step a rest before pm (some q) h next =
    rw (← append_assoc before (returned_by a pm) (returned_in rest q))
      (next (before ++ returned_by a pm) q h)

run-Ends :
    (actions : List Action) (before : Lists) (pm : PidMon)
    → EndsAfter before pm
    → Ensures (EndsAfter (before ++ returned_in actions pm)) (run actions pm)
unfolding run returned_in
run-Ends [] before pm h = rw (append-nil before) h
run-Ends (a ∷ rest) before pm h =
    after_step a rest before pm (step a pm) (step-Ends a before pm h) (run-Ends rest)

-- In every run of a monitor that `New` made, through any interleaving of its thread with calls: the
-- lists that WaitEvent has returned, in order, and behind them those that are in the channel at
-- the end, are all not empty while the thread has not exited; once it has, an empty list is the
-- last of them, and the only empty one.
pub run-new_marker :
    (cfg : Cfg) (start pm : PidMon) (actions : List Action)
    → new cfg ≡ ok start
    → run actions start ≡ some pm
    → (bs : List (List PidEvent)) × All IsBatch bs
      × (returned_in actions start ++ pm.event_ch
          ≡ (if has_exited pm.phase then bs ++ [] ∷ [] else bs))
run-new_marker cfg start pm actions made ran =
    Ensures-eq (EndsAfter (returned_in actions start)) (run actions start) pm ran
      (run-Ends actions [] start (rw (← new_ok cfg start made) ([], tt, refl)))
