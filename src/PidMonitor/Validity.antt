-- ===== src/PidMonitor/Validity.antt =====
-- What the event table of pidmonitor keeps, and how its operations act on a lookup.
use sysbox_libs.Prelude.{
  ℕ, ◌≡◌, refl, Bool, true, false, Option, none, some, [], ◌∷◌, arith, ◌==◌, nat_comparable,
  nat_beq_iff, is_some, if◌then◌else◌, All,
}
use sysbox_libs.Prelude.Table.{
  lookup, insert, delete, lookup-insert, lookup-delete, insert-HasKeys, delete-HasKeys, insert-All,
  delete-All, HasKeys,
}
use sysbox_libs.PidMonitor.Events.{
  PidEvent, EventTable, exit, validate_event, event_set, event_clear, event_table_add,
  event_table_rm, add_found, rm_found,
}

-- A table as the package keeps it: one entry for each pid, and `Exit` is its only event.
pub record IsValid (t : EventTable) : Type 0 where
  pub has_keys : HasKeys t
  pub exits : All (λ (entry : ℕ × ℕ). entry.1 ≡ exit) t

abbrev IsExitEntry : ℕ × ℕ → Type 0
IsExitEntry entry = entry.1 ≡ exit

lookup-exits :
    (p v : ℕ) (t : EventTable)
    → All (λ (entry : ℕ × ℕ). entry.1 ≡ exit) t
    → lookup p t ≡ some v
    → v ≡ exit
unfolding lookup
lookup-exits p v [] h e = cc
lookup-exits p v ((q, w) ∷ t) h e = ground (arith, lookup-exits p v t h.1)

exit_of_validate : (v : ℕ) → validate_event v ≡ true → v ≡ exit
exit_of_validate v h = (nat_beq_iff v exit).0 h

add_found-insert :
    (o : Option ℕ) (e : PidEvent) (t : EventTable)
    → ((v : ℕ) → o ≡ some v → v ≡ exit)
    → e.event ≡ exit
    → add_found o e t ≡ insert e.pid exit t
unfolding add_found event_set
add_found-insert none e t only h = rw h
add_found-insert (some v) e t only h = rw (h, only v refl)

-- On a valid table, adding `Exit` sets the entry to `Exit`, whether or not it was there.
pub event_table_add-insert :
    (t : EventTable) (e : PidEvent)
    → IsValid t
    → validate_event e.event ≡ true
    → event_table_add t e ≡ insert e.pid exit t
unfolding event_table_add
event_table_add-insert t e v h =
    add_found-insert (lookup e.pid t) e t (λ x. lookup-exits e.pid x t v.exits)
      (exit_of_validate e.event h)

rm_found-delete :
    (o : Option ℕ) (e : PidEvent) (t : EventTable)
    → ((v : ℕ) → o ≡ some v → v ≡ exit)
    → e.event ≡ exit
    → rm_found o e t ≡ (if is_some o then delete e.pid t else t)
unfolding rm_found event_clear
rm_found-delete none e t only h = refl
rm_found-delete (some v) e t only h = rw (h, only v refl)

-- On a valid table, removing `Exit` drops the entry, if there is one.
pub event_table_rm-delete :
    (t : EventTable) (e : PidEvent)
    → IsValid t
    → validate_event e.event ≡ true
    → event_table_rm t e ≡ (if is_some (lookup e.pid t) then delete e.pid t else t)
unfolding event_table_rm
event_table_rm-delete t e v h =
    rm_found-delete (lookup e.pid t) e t (λ x. lookup-exits e.pid x t v.exits)
      (exit_of_validate e.event h)

-- On a valid table, removing `Exit` drops the entry.
pub lookup-event_table_rm :
    (t : EventTable) (e : PidEvent) (p : ℕ)
    → IsValid t
    → validate_event e.event ≡ true
    → lookup p (event_table_rm t e) ≡ (if e.pid == p then none else lookup p t)
lookup-event_table_rm t e p v h =
    ground (arith, event_table_rm-delete t e v h, lookup-delete e.pid p t)

pub lookup-event_table_add :
    (t : EventTable) (e : PidEvent) (p : ℕ)
    → IsValid t
    → validate_event e.event ≡ true
    → lookup p (event_table_add t e) ≡ (if e.pid == p then some exit else lookup p t)
lookup-event_table_add t e p v h =
    rw (event_table_add-insert t e v h) (lookup-insert e.pid p exit t)

pub event_table_add-IsValid :
    (t : EventTable) (e : PidEvent)
    → IsValid t
    → validate_event e.event ≡ true
    → IsValid (event_table_add t e)
event_table_add-IsValid t e v h = rw (event_table_add-insert t e v h) (record {
  has_keys = insert-HasKeys e.pid exit t v.has_keys;
  exits = insert-All IsExitEntry e.pid exit t refl v.exits;
})

delete-IsValid : (p : ℕ) (t : EventTable) → IsValid t → IsValid (delete p t)
delete-IsValid p t v = record {
  has_keys = delete-HasKeys p t v.has_keys;
  exits = delete-All IsExitEntry p t v.exits;
}

if-IsValid : (b : Bool) (t u : EventTable) → IsValid t → IsValid u → IsValid (if b then t else u)
if-IsValid true t u v w = v
if-IsValid false t u v w = w

pub event_table_rm-IsValid :
    (t : EventTable) (e : PidEvent)
    → IsValid t
    → validate_event e.event ≡ true
    → IsValid (event_table_rm t e)
event_table_rm-IsValid t e v h =
    rw (event_table_rm-delete t e v h)
      (if-IsValid (is_some (lookup e.pid t)) (delete e.pid t) t (delete-IsValid e.pid t v) v)
