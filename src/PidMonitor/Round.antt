-- ===== src/PidMonitor/Round.antt =====
-- One turn of the loop of `pidMonitor`, with and without a client's call inside it.
use sysbox_libs.Watching.{report}
use sysbox_libs.Prelude.{
  Bool, Bytes, Distinct, List, Option, [], arith, contains, eq_refl, false, if◌then◌else◌, keep,
  map, none, refl, some, true, ℕ, ◌++◌, ◌∷◌, ◌≡◌, nat_comparable, bytes_comparable,
}
use sysbox_libs.Prelude.Maybe.{◌>>=◌}
use sysbox_libs.Prelude.Table.{HasKeys, keys, lookup}
use sysbox_libs.PidMonitor.Events.{EventTable, PidEvent, Stat, exit, validate_event}
use sysbox_libs.PidMonitor.Validity.{IsValid}
use sysbox_libs.PidMonitor.Monitor.{
  PidMon, add_event, hit_event, is_hit, monitor_step, polling, remove_all, rm_event, sent,
}
use sysbox_libs.PidMonitor.Calls.{add_event-IsValid, lookup-add_event_at}
use sysbox_libs.PidMonitor.Scan.{hits, lookup-remove_all}

-- The scan, the send and the removal, with nothing in between.
abbrev pub turn : (Bytes → Stat) → PidMon → Option PidMon
turn stat pm = monitor_step stat pm >>= monitor_step stat >>= monitor_step stat

contains-keys-keep :
    (f : ℕ × ℕ → Bool) (t : EventTable) (p : ℕ)
    → contains (keys t) p ≡ false
    → contains (keys (keep f t)) p ≡ false
contains-keys-keep f [] p h = refl
contains-keys-keep f ((q, v) ∷ t) p h = ground (arith, contains-keys-keep f t p)

pub hits-Distinct : (stat : Bytes → Stat) (t : EventTable) → HasKeys t → Distinct (hits stat t)
hits-Distinct stat [] h = tt
hits-Distinct stat ((q, v) ∷ t) h =
    ground (arith, hits-Distinct stat t h.1, contains-keys-keep (is_hit stat) t q)

-- What a turn leaves of a monitor whose scan reports `ps`.
abbrev pub after_turn : (Bytes → Stat) → List ℕ → PidMon → PidMon
after_turn stat ps pm = record pm {
  event_table = remove_all (map rm_event ps) pm.event_table;
  event_ch = pm.event_ch ++ report (map (hit_event stat) ps);
  phase = polling;
}

abbrev pub with_table : EventTable → PidMon → PidMon
with_table t pm = record pm { event_table = t }

-- AddEvent for one `Exit` event while the monitor thread has sent its list and not yet removed the
-- pids `ps` that it reported: the removal that follows drops the new registration if its pid is
-- among `ps`, and keeps it otherwise; in both cases no event is pushed.
pub add_event-in_window :
    (stat : Bytes → Stat) (pm : PidMon) (ps : List ℕ) (e : PidEvent)
    → pm.phase ≡ sent (map rm_event ps)
    → IsValid pm.event_table
    → validate_event e.event ≡ true
    → (pm' : PidMon) × (monitor_step stat (with_table (add_event (e ∷ []) pm.event_table).0 pm)
        ≡ some pm')
      × (lookup e.pid pm'.event_table ≡ (if contains ps e.pid then none else some exit))
      × (pm'.event_ch ≡ pm.event_ch)
      × (pm'.phase ≡ polling)
unfolding monitor_step
add_event-in_window stat pm ps e at v h = (
  record pm {
    event_table = remove_all (map rm_event ps) (add_event (e ∷ []) pm.event_table).0;
    phase = polling;
  },
  rw at refl,
  ground (
    arith,
    lookup-remove_all ps (add_event (e ∷ []) pm.event_table).0 e.pid
        (add_event-IsValid (e ∷ []) pm.event_table v),
    lookup-add_event_at (e ∷ []) pm.event_table e.pid v,
    eq_refl e.pid,
  ),
  refl,
  refl,
)
