-- ===== src/PidMonitor/Calls.antt =====
-- `AddEvent` and `RemoveEvent` of pidmonitor/pidmon.go: their effect on the table, and their error.
use sysbox_libs.Prelude.{
  ℕ, ◌≡◌, refl, Bool, true, false, none, some, List, [], ◌∷◌, ◌++◌, arith, ok, err, nat_comparable,
  if◌then◌else◌, all, contains,
}
use sysbox_libs.Prelude.Table.{lookup}
use sysbox_libs.PidMonitor.Events.{
  PidEvent, EventTable, unknown_event, exit, validate_event, event_table_add, event_table_rm,
}
use sysbox_libs.PidMonitor.Validity.{
  IsValid, lookup-event_table_add, lookup-event_table_rm, event_table_add-IsValid,
  event_table_rm-IsValid,
}
use sysbox_libs.PidMonitor.Monitor.{add_event, remove_event}

abbrev pub is_valid_event : PidEvent → Bool
is_valid_event e = validate_event e.event

abbrev pub pids : List PidEvent → List ℕ
pids [] = []
pids (e ∷ es) = e.pid ∷ pids es

-- Whatever the events, a call leaves a valid table.
pub add_event-IsValid :
    (es : List PidEvent) (t : EventTable) → IsValid t → IsValid (add_event es t).0
unfolding add_event
add_event-IsValid [] t v = v
add_event-IsValid (e ∷ es) t v =
    ground (arith, event_table_add-IsValid t e v, add_event-IsValid es (event_table_add t e))

pub remove_event-IsValid :
    (es : List PidEvent) (t : EventTable) → IsValid t → IsValid (remove_event es t).0
unfolding remove_event
remove_event-IsValid [] t v = v
remove_event-IsValid (e ∷ es) t v =
    ground (arith, event_table_rm-IsValid t e v, remove_event-IsValid es (event_table_rm t e))

add_event-ok :
    (es : List PidEvent) (t : EventTable)
    → all is_valid_event es ≡ true
    → (add_event es t).1 ≡ ok tt
unfolding add_event
add_event-ok [] t h = refl
add_event-ok (e ∷ es) t h = ground (arith, add_event-ok es (event_table_add t e))

pub lookup-add_event_at :
    (es : List PidEvent) (t : EventTable) (p : ℕ)
    → IsValid t
    → all is_valid_event es ≡ true
    → lookup p (add_event es t).0 ≡ (if contains (pids es) p then some exit else lookup p t)
unfolding add_event
lookup-add_event_at [] t p v h = refl
lookup-add_event_at (e ∷ es) t p v h = ground (
  arith,
  event_table_add-IsValid t e v,
  lookup-event_table_add t e p v,
  lookup-add_event_at es (event_table_add t e) p,
)

remove_event-ok :
    (es : List PidEvent) (t : EventTable)
    → all is_valid_event es ≡ true
    → (remove_event es t).1 ≡ ok tt
unfolding remove_event
remove_event-ok [] t h = refl
remove_event-ok (e ∷ es) t h = ground (arith, remove_event-ok es (event_table_rm t e))

lookup-remove_event_at :
    (es : List PidEvent) (t : EventTable) (p : ℕ)
    → IsValid t
    → all is_valid_event es ≡ true
    → lookup p (remove_event es t).0 ≡ (if contains (pids es) p then none else lookup p t)
unfolding remove_event
lookup-remove_event_at [] t p v h = refl
lookup-remove_event_at (e ∷ es) t p v h = ground (
  arith,
  event_table_rm-IsValid t e v,
  lookup-event_table_rm t e p v,
  lookup-remove_event_at es (event_table_rm t e) p,
)

-- On a valid table and for events that are all `Exit`, AddEvent succeeds and then monitors, beside
-- the pids of before, exactly those of the events, each for `Exit`; RemoveEvent succeeds and then
-- monitors exactly the pids of before that are not among those of the events.
pub add_event-remove_event :
    (es : List PidEvent) (t : EventTable)
    → IsValid t
    → all is_valid_event es ≡ true
    → ((add_event es t).1 ≡ ok tt)
      × ((remove_event es t).1 ≡ ok tt)
      × ((p : ℕ)
          → lookup p (add_event es t).0 ≡ (if contains (pids es) p then some exit else lookup p t))
      × ((p : ℕ)
          → lookup p (remove_event es t).0 ≡ (if contains (pids es) p then none else lookup p t))
add_event-remove_event es t v h = (
  add_event-ok es t h,
  remove_event-ok es t h,
  λ p. lookup-add_event_at es t p v h,
  λ p. lookup-remove_event_at es t p v h,
)

-- If a call meets an event that is not `Exit`, it fails with that event, and the table is what the
-- events before it make of it: those are not undone, and those behind it are not looked at.
pub unknown_event-stops :
    (es rest : List PidEvent) (e : PidEvent) (t : EventTable)
    → all is_valid_event es ≡ true
    → is_valid_event e ≡ false
    → (add_event (es ++ e ∷ rest) t ≡ ((add_event es t).0, err (unknown_event e.event)))
      × (remove_event (es ++ e ∷ rest) t ≡ ((remove_event es t).0, err (unknown_event e.event)))
unfolding add_event remove_event
unknown_event-stops [] rest e t h bad = ground arith
unknown_event-stops (d ∷ es) rest e t h bad = ground (
  arith,
  (unknown_event-stops es rest e (event_table_add t d) (ground arith) bad).0,
  (unknown_event-stops es rest e (event_table_rm t d) (ground arith) bad).1,
)
