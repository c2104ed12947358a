-- ===== src/PidMonitor/Known.antt =====
-- The pids in the table of pidmonitor are pids that were asked for, and so are those of a scan.
use sysbox_libs.Prelude.{
  ℕ, ◌≡◌, refl, Bool, true, false, ◌&&◌, List, [], ◌∷◌, arith, ◌==◌, nat_comparable, if◌then◌else◌,
  map, is_some, Bytes, All, Bool-cases, inl, inr,
}
use sysbox_libs.Prelude.Table.{lookup, delete, insert-All, delete-All}
use sysbox_libs.PidMonitor.Events.{Stat, PidEvent, EventTable, exit, validate_event, event_table_rm}
use sysbox_libs.PidMonitor.Validity.{
  IsValid, event_table_rm-IsValid, event_table_add-insert, event_table_rm-delete,
}
use sysbox_libs.PidMonitor.Monitor.{
  remove_all, add_event, remove_event, is_hit, hit_event, rm_event,
}
use sysbox_libs.PidMonitor.Scan.{is_gone, hits}
use sysbox_libs.PidMonitor.Trace.{IsJust}

abbrev pub Asked : (ℕ → Bool) → ℕ × ℕ → Type 0
Asked asked entry = asked entry.0 ≡ true

module _ (asked gone : ℕ → Bool) where
  if-known :
      (b : Bool) (t u : EventTable)
      → All (Asked asked) t
      → All (Asked asked) u
      → All (Asked asked) (if b then t else u)
  if-known true t u v w = v
  if-known false t u v w = w

  pub add-known :
      (t : EventTable) (e : PidEvent)
      → IsValid t
      → All (Asked asked) t
      → ((validate_event e.event && (e.pid == e.pid)) ≡ true → asked e.pid ≡ true)
      → All (Asked asked) (add_event (e ∷ []) t).0
  unfolding add_event
  add-known t e v k h = elim (Bool-cases (validate_event e.event)) [
    | inl good ↦
        rw (good, event_table_add-insert t e v good)
          (insert-All (Asked asked) e.pid exit t (ground arith) k)
    | inr bad ↦ rw bad k
  ]

  rm-known :
      (t : EventTable) (e : PidEvent)
      → IsValid t
      → All (Asked asked) t
      → validate_event e.event ≡ true
      → All (Asked asked) (event_table_rm t e)
  rm-known t e v k h = rw (event_table_rm-delete t e v h) (
      if-known (is_some (lookup e.pid t)) (delete e.pid t) t (delete-All (Asked asked) e.pid t k) k)

  pub remove-known :
      (t : EventTable) (e : PidEvent)
      → IsValid t
      → All (Asked asked) t
      → All (Asked asked) (remove_event (e ∷ []) t).0
  unfolding remove_event
  remove-known t e v k = elim (Bool-cases (validate_event e.event)) [
    | inl good ↦ rw good (rm-known t e v k good)
    | inr bad ↦ rw bad k
  ]

  pub remove_all-known :
      (ps : List ℕ) (t : EventTable)
      → IsValid t
      → All (Asked asked) t
      → All (Asked asked) (remove_all (map rm_event ps) t)
  unfolding remove_all rm_event
  remove_all-known [] t v k = k
  remove_all-known (p ∷ ps) t v k =
      remove_all-known ps (event_table_rm t (rm_event p))
        (event_table_rm-IsValid t (rm_event p) v refl) (rm-known t (rm_event p) v k refl)

  pub hits-IsJust :
      (stat : Bytes → Stat) (t : EventTable)
      → ((p : ℕ) → is_gone stat p ≡ true → gone p ≡ true)
      → All (Asked asked) t
      → All (IsJust asked gone) (map (hit_event stat) (hits stat t))
  unfolding is_hit hit_event
  hits-IsJust stat [] w k = tt
  hits-IsJust stat ((p, v) ∷ t) w k = ground (arith, hits-IsJust stat t w k.1, w p)
