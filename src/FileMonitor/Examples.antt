-- ===== src/FileMonitor/Examples.antt =====
-- Concrete runs of fileMonitor.
use sysbox_libs.Watching.{Moves, no_watch, report}
use sysbox_libs.FileMonitor.Watch.{FileWatch, labels, sight}
use sysbox_libs.Prelude.{
  All, Bool, Bytes, Distinct, List, [], arith, bytes_beq, bytes_beq_iff, codes, contains, false,
  if◌then◌else◌, is_some, length, map, none, refl, some, true, ◌&&◌, ◌*◌, ◌∷◌, ◌≡◌, ◌≤◌,
  nat_comparable, bytes_comparable,
}
use sysbox_libs.Prelude.Int.{pos}
use sysbox_libs.Prelude.Maybe.{◌>>=◌}
use sysbox_libs.Prelude.Table.{HasKeys, Table, delete, insert, lookup}
use sysbox_libs.FileMonitor.Monitor.{
  Cfg, Event, FileMon, Stat, Wake, absent, add, found, gone_event, is_empty, is_gone, leaving,
  millisecond, new, not_exist, remove_all, returns, rm_event, scan_files, send, sent, stop_ch,
  thread_step, ticker, validate_cfg, waiting,
}
use sysbox_libs.FileMonitor.Turn.{is_missing, missing_event, gone_files, turn, turn-checks}
use sysbox_libs.FileMonitor.Restart.{add-in_scan, add-keeps_on, add-leaving}
use sysbox_libs.FileMonitor.Trace.{
  Action, IsJust, adds, asks, ever, is_present, run, sees_gone, wakes,
}
use sysbox_libs.FileMonitor.Safety.{run-new_events}
use sysbox_libs.FileMonitor.Ending.{turn-absent}
use sysbox_libs.FileMonitor.Watch.Runs.{run-Moves}
use sysbox_libs.FileMonitor.Unordered.{bag_of, map_of, turn-map_of}
use mathlib.Core.Quot

-- Only the file "a" exists.
abbrev only_a : Bytes → Stat
only_a path = if bytes_beq path (codes "a") then found else not_exist

abbrev config : Cfg
config = record { event_buf_size = pos 10; poll_interval = pos (5 * millisecond) }

abbrev fresh : FileMon
fresh = record {
  cap = 10;
  file_table = [];
  stopped = false;
  event_ch = [];
  running = false;
  phase = absent;
}

new-fresh : new config ≡ returns fresh
unfolding new validate_cfg
new-fresh = refl

abbrev watching : FileMon
watching = record fresh {
  file_table = (codes "a", true) ∷ (codes "b", true) ∷ [];
  running = true;
  phase = waiting;
}

turn-checks_example :
    (fm' : FileMon) × (fs : List Bytes) × (turn only_a watching ≡ some fm')
    × (fm'.event_ch ≡ report (map (missing_event only_a) fs))
    × Distinct fs
    × ((f : Bytes)
        → contains fs f ≡ (is_some (lookup f watching.file_table) && is_missing (only_a f)))
    × ((f : Bytes)
        → lookup f fm'.file_table
          ≡ (if is_missing (only_a f) then none else lookup f watching.file_table))
    × (fm'.phase ≡ (if is_empty fm'.file_table then leaving else waiting))
turn-checks_example = turn-checks only_a watching refl (refl, (refl, tt)) (omega arith)

abbrev event_of : Bytes → Event
event_of f = record { filename = f; err = none }

-- The turn reports "b", and goes on watching "a".
turn_test :
    turn only_a watching
    ≡ some (record watching {
      file_table = (codes "a", true) ∷ [];
      event_ch = (event_of (codes "b") ∷ []) ∷ [];
    })
unfolding thread_step is_gone gone_event delete scan_files send remove_all rm_event
turn_test = refl

abbrev ending : FileMon
ending = record fresh { running = true; phase = leaving }

add-leaving_example :
    (fm' : FileMon) × (thread_step stop_ch (add (codes "a") ending) ≡ some fm')
    × (lookup (codes "a") fm'.file_table ≡ some true)
    × (fm'.running ≡ false)
    × ((later : Wake) → thread_step later fm' ≡ none)
add-leaving_example = add-leaving (codes "a") stop_ch ending refl refl

add-in_scan_example :
    (fm' : FileMon) × (thread_step stop_ch
        (add (codes "b") (record watching { phase = sent (map rm_event (codes "b" ∷ [])) }))
      ≡ some fm')
    × (lookup (codes "b") fm'.file_table ≡ none)
    × (fm'.event_ch ≡ [])
add-in_scan_example =
    add-in_scan (codes "b") (codes "b" ∷ []) stop_ch
      (record watching { phase = sent (map rm_event (codes "b" ∷ [])) }) refl refl

abbrev history : List Action
history = adds (codes "b") ∷ wakes (ticker only_a) ∷ wakes (ticker only_a) ∷ []

abbrev reported : FileMon
reported = record fresh {
  file_table = (codes "b", true) ∷ [];
  event_ch = (event_of (codes "b") ∷ []) ∷ [];
  running = true;
  phase = sent (event_of (codes "b") ∷ []);
}

history_test : run history fresh ≡ some reported
unfolding run add thread_step is_gone gone_event insert rm_event scan_files send
history_test = refl

run-new_events_example :
    HasKeys reported.file_table
    × (length reported.event_ch ≤ 10)
    × All (All (IsJust (ever asks history) (ever sees_gone history))) reported.event_ch
    × (true ≡ is_present reported.phase)
run-new_events_example = run-new_events config fresh reported history new-fresh history_test

add-keeps_on_example :
    (lookup (codes "c") (add (codes "c") watching).file_table ≡ some true)
    × ((add (codes "c") watching).running ≡ true)
    × ((add (codes "c") watching).phase ≡ waiting)
add-keeps_on_example = add-keeps_on (codes "c") watching

all_gone :
    (f : Bytes)
    → is_some (lookup f watching.file_table) ≡ true
    → is_gone (λ path. not_exist) f ≡ true
all_gone f h = unfold is_gone in refl

turn-absent_example :
    (fm' : FileMon) × ((turn (λ path. not_exist) watching >>= thread_step stop_ch) ≡ some fm')
    × (fm'.phase ≡ absent)
    × (fm'.running ≡ false)
    × (is_empty fm'.file_table ≡ true)
    × (fm'.event_ch
        ≡ report (
            map
              (gone_event (λ path. not_exist))
              (gone_files (λ path. not_exist) watching.file_table)))
turn-absent_example =
    turn-absent (λ path. not_exist) stop_ch watching refl (refl, (refl, tt)) (omega arith) all_gone

run-Moves_example :
    (t : FileWatch) × Moves sight (labels history fresh) no_watch t
    × ((g : Bytes) → t.watched g ≡ is_some (lookup g reported.file_table))
    × (t.posted ≡ reported.event_ch)
    × (t.closed ≡ false)
run-Moves_example = run-Moves config fresh reported history new-fresh history_test

abbrev swapped : Table Bytes Bool
swapped = (codes "b", true) ∷ (codes "a", true) ∷ []

a_not_b : bytes_beq (codes "a") (codes "b") ≡ false
a_not_b = refl

same_map : map_of watching.file_table ≡ map_of swapped
same_map = Quot.sound same_entries
  where
    same_entries : (f : Bytes) → lookup f watching.file_table ≡ lookup f swapped
    same_entries f =
        unfold lookup in
        ground (arith, bytes_beq_iff (codes "a") f, bytes_beq_iff (codes "b") f, a_not_b)

turn-map_of_example :
    (q r : FileMon) × (fs gs : List Bytes) × (turn only_a watching ≡ some q)
    × (turn only_a (record watching { file_table = swapped }) ≡ some r)
    × (map_of q.file_table ≡ map_of r.file_table)
    × (q.phase ≡ r.phase)
    × (q.event_ch ≡ report (map (gone_event only_a) fs))
    × (r.event_ch ≡ report (map (gone_event only_a) gs))
    × (bag_of fs ≡ bag_of gs)
turn-map_of_example =
    turn-map_of only_a watching swapped refl (refl, (refl, tt)) (refl, (refl, tt)) (omega arith)
      same_map
