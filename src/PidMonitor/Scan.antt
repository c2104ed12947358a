-- ===== src/PidMonitor/Scan.antt =====
-- The scan of pidmonitor/monitor.go: which pids it reports, and which it removes.
use sysbox_libs.Prelude.{
  ℕ, ◌≡◌, refl, Bool, not, ◌||◌, ◌&&◌, none, List, [], ◌∷◌, ◌++◌, arith, nat_comparable,
  nat_beq_iff, if◌then◌else◌, contains, map, keep, is_some, Bytes, All,
}
use mathlib.Core.List.{append-nil, append_assoc}
use sysbox_libs.Prelude.Table.{lookup, keys}
use sysbox_libs.PidMonitor.Events.{Stat, PidEvent, EventTable, exit, event_is_set, event_table_rm}
use sysbox_libs.PidMonitor.Validity.{IsValid, lookup-event_table_rm, event_table_rm-IsValid}
use sysbox_libs.PidMonitor.Monitor.{pid_exists, is_hit, hit_event, rm_event, check_pids, remove_all}

-- The process is not there, or `os.Stat` failed on it.
abbrev pub is_gone : (Bytes → Stat) → ℕ → Bool
is_gone stat p = is_some (pid_exists stat p).1 || not (pid_exists stat p).0

abbrev pub hits : (Bytes → Stat) → EventTable → List ℕ
hits stat t = keys (keep (is_hit stat) t)

-- The accumulating loop gives one event and one removal for each hit, in the order of the table.
pub check_pids-hits :
    (stat : Bytes → Stat) (t : EventTable) (es rs : List PidEvent)
    → check_pids stat t es rs
      ≡ (es ++ map (hit_event stat) (hits stat t), rs ++ map rm_event (hits stat t))
unfolding check_pids
check_pids-hits stat [] es rs = simp append-nil
check_pids-hits stat ((p, v) ∷ t) es rs = ground (
  arith,
  check_pids-hits stat t (es ++ hit_event stat p ∷ []) (rs ++ rm_event p ∷ []),
  check_pids-hits stat t es rs,
  append_assoc es (hit_event stat p ∷ []) (map (hit_event stat) (hits stat t)),
  append_assoc rs (rm_event p ∷ []) (map rm_event (hits stat t)),
)

-- A valid table reports exactly the monitored pids whose process is gone.
pub contains-hits :
    (stat : Bytes → Stat) (t : EventTable) (p : ℕ)
    → All (λ (entry : ℕ × ℕ). entry.1 ≡ exit) t
    → contains (hits stat t) p ≡ (is_some (lookup p t) && is_gone stat p)
unfolding lookup is_hit event_is_set
contains-hits stat [] p h = refl
contains-hits stat ((q, v) ∷ t) p h = ground (arith, contains-hits stat t p h.1, nat_beq_iff q p)

pub lookup-remove_all :
    (ps : List ℕ) (t : EventTable) (p : ℕ)
    → IsValid t
    → lookup p (remove_all (map rm_event ps) t) ≡ (if contains ps p then none else lookup p t)
unfolding remove_all rm_event
lookup-remove_all [] t p v = refl
lookup-remove_all (q ∷ ps) t p v = ground (
  arith,
  lookup-event_table_rm t (rm_event q) p v refl,
  lookup-remove_all ps (event_table_rm t (rm_event q)) p
      (event_table_rm-IsValid t (rm_event q) v refl),
)

pub remove_all-IsValid :
    (ps : List ℕ) (t : EventTable) → IsValid t → IsValid (remove_all (map rm_event ps) t)
unfolding remove_all rm_event
remove_all-IsValid [] t v = v
remove_all-IsValid (q ∷ ps) t v =
    remove_all-IsValid ps (event_table_rm t (rm_event q))
      (event_table_rm-IsValid t (rm_event q) v refl)
