-- ===== src/PidMonitor/Watch/Refines.antt =====
-- That pidmonitor does only what the set of watched processes allows.
use sysbox_libs.Prelude.{
  Bool-cases, Bytes, List, Option, [], ap, arith, contains, false, inl, inr, is_some, length, ltb,
  map, not, refl, some, sym, ◌&&◌, ◌++◌, ◌==◌, ◌||◌, ◌∙◌, ◌∷◌, ◌≡◌, ℕ, nat_comparable,
}
use sysbox_libs.Prelude.Maybe.{Ensures}
use sysbox_libs.PidMonitor.Events.{PidEvent, Stat, exit, failed, found, not_exist, validate_event}
use sysbox_libs.PidMonitor.Validity.{IsValid, lookup-event_table_add, lookup-event_table_rm}
use sysbox_libs.PidMonitor.Monitor.{
  PidMon, Phase, add_event, event_ch_cap, exists_by, exited, hit_event, monitor_at, pid_exists,
  polling, remove_event, rm_event, scanned, send, sent, stopping,
}
use sysbox_libs.PidMonitor.Scan.{check_pids-hits, contains-hits, hits, is_gone, lookup-remove_all}
use sysbox_libs.PidMonitor.Round.{hits-Distinct, with_table}
use sysbox_libs.PidMonitor.Trace.{adds, removes}
use sysbox_libs.PidMonitor.Watch.{
  PidWatch, Sees, Stands, Steps, cause, exit_event, is_closed, is_missing, label_of, proc_path,
  sight,
}
use sysbox_libs.Watching.{
  Move, drop, finish, forget, idle, notice, noticed, post, refuse, report, reported, thread, watch,
}
use mathlib.Core.List.{append-nil}

is_gone-is_missing :
    (stat : Bytes → Stat) (p : ℕ) → is_gone stat p ≡ is_missing (stat (proc_path p))
unfolding pid_exists
is_gone-is_missing stat p = by_stat (stat (proc_path p))
  where
    by_stat : (r : Stat) → (is_some (exists_by r).1 || not (exists_by r).0) ≡ is_missing r
    by_stat found = unfold exists_by in refl
    by_stat not_exist = unfold exists_by in refl
    by_stat (failed e) = unfold exists_by in refl

hit_event-exit_event : (stat : Bytes → Stat) (p : ℕ) → hit_event stat p ≡ exit_event stat p
unfolding hit_event pid_exists
hit_event-exit_event stat p =
    ap (λ (e : Option ℕ). record { pid = p; event = exit; err = e }) (by_stat (stat (proc_path p)))
  where
    by_stat : (r : Stat) → (exists_by r).1 ≡ cause r
    by_stat found = unfold exists_by in refl
    by_stat not_exist = unfold exists_by in refl
    by_stat (failed e) = unfold exists_by in refl

map-exit_event :
    (stat : Bytes → Stat) (ps : List ℕ) → map (hit_event stat) ps ≡ map (exit_event stat) ps
map-exit_event stat [] = refl
map-exit_event stat (p ∷ ps) = rw (hit_event-exit_event stat p, map-exit_event stat ps) refl

send-Steps :
    (w : Option (Bytes → Stat)) (es : List PidEvent) (next : Phase) (pm : PidMon) (s t : PidWatch)
    → Move sight (thread w) s t
    → Sees (record pm { event_ch = pm.event_ch ++ es ∷ []; phase = next }) t
    → Ensures (Steps (thread w) s) (send es next pm)
unfolding send
send-Steps w es next pm s t m h = elim (Bool-cases (ltb (length pm.event_ch) event_ch_cap)) [
  | inl fits ↦ rw fits (t, m, h)
  | inr full ↦ rw full tt
]

same_table : (pm : PidMon) (s : PidWatch) → Sees pm s → Sees (with_table pm.event_table pm) s
same_table pm s h = record {
  watched = h.watched;
  posted = h.posted;
  closed = h.closed;
  stands = h.stands;
}

pub add-Steps :
    (e : PidEvent) (pm : PidMon) (s : PidWatch)
    → IsValid pm.event_table
    → Sees pm s
    → Steps (label_of (adds e) pm) s (with_table (add_event (e ∷ []) pm.event_table).0 pm)
unfolding add_event
add-Steps e pm s v h = elim (Bool-cases (validate_event e.event)) [
  | inl known ↦ rw known (
    record s { watched = λ p. (e.pid == p) || s.watched p },
    watch e.pid s,
    record {
      watched = λ p. ground (arith, h.watched p, lookup-event_table_add pm.event_table e p v known);
      posted = h.posted;
      closed = h.closed;
      stands = h.stands;
    },
  )
  | inr unknown ↦ rw unknown (s, refuse s, same_table pm s h)
]

pub remove-Steps :
    (e : PidEvent) (pm : PidMon) (s : PidWatch)
    → IsValid pm.event_table
    → Sees pm s
    → Steps (label_of (removes e) pm) s (with_table (remove_event (e ∷ []) pm.event_table).0 pm)
unfolding remove_event
remove-Steps e pm s v h = elim (Bool-cases (validate_event e.event)) [
  | inl known ↦ rw known (
    record s { watched = λ p. not (e.pid == p) && s.watched p },
    forget e.pid s,
    record {
      watched = λ p. ground (arith, h.watched p, lookup-event_table_rm pm.event_table e p v known);
      posted = h.posted;
      closed = h.closed;
      stands = h.stands;
    },
  )
  | inr unknown ↦ rw unknown (s, refuse s, same_table pm s h)
]

scan-Steps :
    (stat : Bytes → Stat) (pm : PidMon) (s : PidWatch)
    → IsValid pm.event_table
    → s.stage ≡ idle
    → s.closed ≡ false
    → Sees pm s
    → Ensures (Steps (thread (some stat)) s) (monitor_at polling stat pm)
unfolding monitor_at
scan-Steps stat pm s v st c h =
    let ps = hits stat pm.event_table in
    rw (check_pids-hits stat pm.event_table [] []) (
      record s { stage = noticed stat ps },
      notice stat ps s st (hits-Distinct stat pm.event_table v.has_keys) (λ p.
          contains-hits stat pm.event_table p v.exits
          ∙ ap (λ b. b && is_gone stat p) (sym (h.watched p))
          ∙ ap (λ b. s.watched p && b) (is_gone-is_missing stat p)),
      record {
        watched = h.watched;
        posted = h.posted;
        closed = c;
        stands = (stat, ps, refl, map-exit_event stat ps, refl);
      },
    )

posted_batch :
    (stat : Bytes → Stat) (ps : List ℕ) (rs : List PidEvent) (ch : List (List PidEvent))
    (pm : PidMon) (s : PidWatch)
    → Sees pm s
    → s.closed ≡ false
    → rs ≡ map rm_event ps
    → s.posted ++ report (map (exit_event stat) ps) ≡ ch
    → Sees
        (record pm { event_ch = ch; phase = sent rs })
        (record s { posted = s.posted ++ report (map (exit_event stat) ps); stage = reported ps })
posted_batch stat ps rs ch pm s h c e p = record {
  watched = h.watched;
  posted = p;
  closed = c;
  stands = (ps, refl, e);
}

pub monitor-Steps :
    (phase : Phase) (stat : Bytes → Stat) (pm : PidMon) (s : PidWatch)
    → IsValid pm.event_table
    → Stands phase s.stage
    → s.closed ≡ is_closed phase
    → Sees pm s
    → Ensures (Steps (thread (some stat)) s) (monitor_at phase stat pm)
unfolding monitor_at
monitor-Steps polling stat pm s v st c h = scan-Steps stat pm s v st c h
monitor-Steps (scanned [] rs) stat pm s v (now, ps, st, e, r) c h = (
  record s { posted = s.posted ++ report (map (exit_event now) ps); stage = reported ps },
  post (some stat) now ps s st,
  posted_batch now ps rs pm.event_ch pm s h c r (rw (← e) (append-nil s.posted ∙ h.posted)),
)
monitor-Steps (scanned (d ∷ es) rs) stat pm s v (now, ps, st, e, r) c h =
    send-Steps (some stat) (d ∷ es) (sent rs) pm s
      (record s { posted = s.posted ++ report (map (exit_event now) ps); stage = reported ps })
      (post (some stat) now ps s st)
      (posted_batch now ps rs (pm.event_ch ++ (d ∷ es) ∷ []) pm s h c r
        (rw (← e) (ap (λ ch. ch ++ (d ∷ es) ∷ []) h.posted)))
monitor-Steps (sent rs) stat pm s v (ps, st, r) c h = (
  record s { watched = λ p. not (contains ps p) && s.watched p; stage = idle },
  drop (some stat) ps s st,
  record {
    watched = λ p. rw r (ground (arith, h.watched p, lookup-remove_all ps pm.event_table p v));
    posted = h.posted;
    closed = c;
    stands = refl;
  },
)
monitor-Steps stopping stat pm s v st c h =
    send-Steps (some stat) [] exited pm s (record s { posted = s.posted ++ [] ∷ [] })
      (finish (some stat) s st c)
      (record {
        watched = h.watched;
        posted = ap (λ ch. ch ++ [] ∷ []) h.posted;
        closed = c;
        stands = st;
      })
monitor-Steps exited stat pm s v st c h = tt
