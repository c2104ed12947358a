-- ===== src/FileMonitor/Watch/Refines.antt =====
-- That fileMonitor does only what the set of watched files allows.
use sysbox_libs.Prelude.{
  Bool, Bool-cases, Bytes, List, Option, [], ap, arith, contains, false, if◌then◌else◌, inl, inr,
  length, ltb, map, none, not, refl, some, sym, true, ◌&&◌, ◌++◌, ◌==◌, ◌||◌, ◌∙◌, ◌∷◌, ◌≡◌,
  nat_comparable, bytes_comparable,
}
use sysbox_libs.Prelude.Maybe.{Ensures}
use sysbox_libs.Prelude.Table.{HasKeys, insert, keys, lookup-delete, lookup-insert}
use sysbox_libs.FileMonitor.Monitor.{
  Event, FileMon, Phase, Stat, Wake, absent, add, cleaned, is_empty, is_gone, leaving, remove,
  rm_event, scanned, send, sent, stop_ch, stopping, thread_at, ticker, waiting, wake_up,
}
use sysbox_libs.FileMonitor.Trace.{is_present}
use sysbox_libs.FileMonitor.Watch.View.{Sees, Stands, Steps}
use sysbox_libs.FileMonitor.Watch.{FileWatch, sight, time_of}
use sysbox_libs.Watching.{
  Move, Stage, drop, finish, forget, forgets, idle, notice, noticed, post, report, reported, rest,
  thread, watch, watches,
}
use sysbox_libs.FileMonitor.Turn.{
  is_gone-is_missing, map-missing_event, missing_event, contains-gone_files, gone_files,
  keep-Distinct, lookup-remove_all, scan_files-gone,
}
use mathlib.Core.List.{append-nil}

send-Steps :
    (w : Option (Bytes → Stat)) (es : List Event) (next : Phase) (fm : FileMon) (s t : FileWatch)
    → Move sight (thread w) s t
    → ((fits : ltb (length fm.event_ch) fm.cap ≡ true)
        → Sees (record fm { event_ch = fm.event_ch ++ es ∷ []; phase = next }) t)
    → Ensures (Steps (thread w) s) (send es next fm)
unfolding send
send-Steps w es next fm s t m h = elim (Bool-cases (ltb (length fm.event_ch) fm.cap)) [
  | inl fits ↦ rw fits (t, m, h fits)
  | inr full ↦ rw full tt
]

absent_idle :
    (phase : Phase) (stage : Stage Bytes (Bytes → Stat)) (closed : Bool)
    → is_present phase ≡ false
    → Stands phase stage closed
    → stage ≡ idle
absent_idle absent stage closed p h = h
absent_idle waiting stage closed p h = h
absent_idle stopping stage closed p h = h.0
absent_idle cleaned stage closed p h = h
absent_idle leaving stage closed p h = h
absent_idle (scanned es rs) stage closed p h = absurd (ground (arith, p))
absent_idle (sent rs) stage closed p h = absurd (ground (arith, p))

added-Sees :
    (on : Bool) (f : Bytes) (fm : FileMon) (s : FileWatch)
    → fm.running ≡ on
    → fm.running ≡ is_present fm.phase
    → Sees fm s
    → Sees
        (if not on
          then record fm {
            file_table = insert f true fm.file_table;
            running = true;
            phase = waiting;
          }
          else record fm { file_table = insert f true fm.file_table })
        (record s { watched = λ g. (f == g) || s.watched g })
added-Sees true f fm s e p h = record {
  watched = λ g. ground (arith, h.watched g, lookup-insert f g true fm.file_table);
  posted = h.posted;
  closed = h.closed;
  stands = h.stands;
}
added-Sees false f fm s e p h = record {
  watched = λ g. ground (arith, h.watched g, lookup-insert f g true fm.file_table);
  posted = h.posted;
  closed = h.closed;
  stands = absent_idle fm.phase s.stage s.closed (sym p ∙ e) h.stands;
}

pub add-Steps :
    (f : Bytes) (fm : FileMon) (s : FileWatch)
    → fm.running ≡ is_present fm.phase
    → Sees fm s
    → Steps (watches f) s (add f fm)
unfolding add
add-Steps f fm s p h = (
  record s { watched = λ g. (f == g) || s.watched g },
  watch f s,
  added-Sees fm.running f fm s refl p h,
)

pub remove-Steps :
    (f : Bytes) (fm : FileMon) (s : FileWatch) → Sees fm s → Steps (forgets f) s (remove f fm)
unfolding remove
remove-Steps f fm s h = (
  record s { watched = λ g. not (f == g) && s.watched g },
  forget f s,
  record {
    watched = λ g. ground (arith, h.watched g, lookup-delete f g fm.file_table);
    posted = h.posted;
    closed = h.closed;
    stands = h.stands;
  },
)

at_phase :
    (phase : Phase) (fm : FileMon) (s : FileWatch)
    → Sees fm s
    → Stands phase s.stage s.closed
    → Sees (record fm { phase = phase }) s
at_phase phase fm s h st = record {
  watched = h.watched;
  posted = h.posted;
  closed = h.closed;
  stands = st;
}

-- A step that shows nothing.
rests_at :
    (w : Option (Bytes → Stat)) (phase : Phase) (fm : FileMon) (s : FileWatch)
    → s.stage ≡ idle
    → Sees fm s
    → Stands phase s.stage s.closed
    → Steps (thread w) s (record fm { phase = phase })
rests_at w phase fm s st h at = (s, rest w s refl st, at_phase phase fm s h at)

if-Steps :
    (b : Bool) (fm : FileMon) (s : FileWatch)
    → (b ≡ true → Steps (thread none) s fm)
    → Ensures (Steps (thread none) s) (if b then some fm else none)
if-Steps true fm s h = h refl
if-Steps false fm s h = tt

wake_up-Steps :
    (w : Wake) (fm : FileMon) (s : FileWatch)
    → HasKeys fm.file_table
    → s.stage ≡ idle
    → Sees fm s
    → Ensures (Steps (thread (time_of w)) s) (wake_up w fm)
unfolding wake_up
wake_up-Steps (ticker stat) fm s keyed st h =
    let fs = gone_files stat fm.file_table in
    rw (scan_files-gone stat fm.file_table [] []) (
      record s { stage = noticed stat fs },
      notice stat fs s st (keep-Distinct (is_gone stat) (keys fm.file_table) keyed) (λ f.
          contains-gone_files stat fm.file_table f
          ∙ ap (λ b. b && is_gone stat f) (sym (h.watched f))
          ∙ ap (λ b. s.watched f && b) (is_gone-is_missing stat f)),
      record {
        watched = h.watched;
        posted = h.posted;
        closed = h.closed;
        stands = (stat, fs, refl, map-missing_event stat fs, refl);
      },
    )
wake_up-Steps stop_ch fm s keyed st h =
    if-Steps fm.stopped (record fm { phase = stopping }) s
      (λ stopped. rests_at none stopping fm s st h (st, h.closed ∙ stopped))

check_empty-Steps :
    (w : Option (Bytes → Stat)) (b : Bool) (fm : FileMon) (s : FileWatch)
    → s.stage ≡ idle
    → Sees fm s
    → Steps (thread w) s (record fm { phase = if b then leaving else waiting })
check_empty-Steps w true fm s st h = rests_at w leaving fm s st h st
check_empty-Steps w false fm s st h = rests_at w waiting fm s st h st

posted_batch :
    (stat : Bytes → Stat) (fs : List Bytes) (rs : List Event) (ch : List (List Event))
    (fm : FileMon) (s : FileWatch)
    → Sees fm s
    → rs ≡ map rm_event fs
    → s.posted ++ report (map (missing_event stat) fs) ≡ ch
    → Sees
        (record fm { event_ch = ch; phase = sent rs })
        (record s {
          posted = s.posted ++ report (map (missing_event stat) fs);
          stage = reported fs;
        })
posted_batch stat fs rs ch fm s h e p = record {
  watched = h.watched;
  posted = p;
  closed = h.closed;
  stands = (fs, refl, e);
}

pub thread-Steps :
    (phase : Phase) (w : Wake) (fm : FileMon) (s : FileWatch)
    → HasKeys fm.file_table
    → Stands phase s.stage s.closed
    → Sees fm s
    → Ensures (Steps (thread (time_of w)) s) (thread_at phase w fm)
unfolding thread_at
thread-Steps absent w fm s keyed st h = tt
thread-Steps waiting w fm s keyed st h = wake_up-Steps w fm s keyed st h
thread-Steps stopping w fm s keyed st h =
    send-Steps (time_of w) [] leaving fm s (record s { posted = s.posted ++ [] ∷ [] })
      (finish (time_of w) s st.0 st.1)
      (λ fits. record {
        watched = h.watched;
        posted = ap (λ ch. ch ++ [] ∷ []) h.posted;
        closed = h.closed;
        stands = st.0;
      })
thread-Steps (scanned [] rs) w fm s keyed (stat, fs, st, e, r) h = (
  record s { posted = s.posted ++ report (map (missing_event stat) fs); stage = reported fs },
  post (time_of w) stat fs s st,
  posted_batch stat fs rs fm.event_ch fm s h r (rw (← e) (append-nil s.posted ∙ h.posted)),
)
thread-Steps (scanned (v ∷ vs) rs) w fm s keyed (stat, fs, st, e, r) h =
    send-Steps (time_of w) (v ∷ vs) (sent rs) fm s
      (record s { posted = s.posted ++ report (map (missing_event stat) fs); stage = reported fs })
      (post (time_of w) stat fs s st)
      (λ fits.
        posted_batch stat fs rs (fm.event_ch ++ (v ∷ vs) ∷ []) fm s h r
          (rw (← e) (ap (λ ch. ch ++ (v ∷ vs) ∷ []) h.posted)))
thread-Steps (sent rs) w fm s keyed (fs, st, r) h = (
  record s { watched = λ g. not (contains fs g) && s.watched g; stage = idle },
  drop (time_of w) fs s st,
  record {
    watched = λ g. rw r (ground (arith, h.watched g, lookup-remove_all fs fm.file_table g));
    posted = h.posted;
    closed = h.closed;
    stands = refl;
  },
)
thread-Steps cleaned w fm s keyed st h =
    check_empty-Steps (time_of w) (is_empty fm.file_table) fm s st h
thread-Steps leaving w fm s keyed st h = (
  s,
  rest (time_of w) s refl st,
  record { watched = h.watched; posted = h.posted; closed = h.closed; stands = st },
)
