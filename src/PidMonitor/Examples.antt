-- ===== src/PidMonitor/Examples.antt =====
-- Concrete runs of pidmonitor.
use sysbox_libs.PidMonitor.Monitor.{
  PidMon, add_event, close, event_ch_cap, exited, hit_event, idle_monitor, is_hit, monitor_step,
  new, pid_exists, polling, remove_event, rm_event, scanned, sent, wait_event,
}
use sysbox_libs.PidMonitor.Once.{asked_in, in_channel, received_in}
use sysbox_libs.PidMonitor.Once.Runs.{run-new_once}
use sysbox_libs.Watching.{Moves, no_watch}
use sysbox_libs.PidMonitor.Watch.{PidWatch, labels, sight}
use sysbox_libs.PidMonitor.Watch.Runs.{run-new-Moves}
use sysbox_libs.Prelude.{
  All, Bytes, List, [], arith, bytes_beq, codes, contains, err, false, if◌then◌else◌, is_some,
  length, map, none, ok, refl, replicate, some, ℕ, ◌++◌, ◌+◌, ◌∷◌, ◌≡◌, ◌≤◌, nat_comparable,
  bytes_comparable,
}
use sysbox_libs.Prelude.Int.{pos}
use sysbox_libs.Prelude.Table.{delete, insert, lookup}
use sysbox_libs.PidMonitor.Events.{
  Cfg, EventTable, PidEvent, Stat, event_is_set, event_table_add, event_table_rm, exit, found,
  not_exist, unknown_event, validate_cfg,
}
use sysbox_libs.Strings.Decimal.{format_uint}
use sysbox_libs.PidMonitor.Validity.{IsValid}
use sysbox_libs.PidMonitor.Calls.{add_event-remove_event, unknown_event-stops}
use sysbox_libs.PidMonitor.Round.{add_event-in_window, turn, with_table}
use sysbox_libs.PidMonitor.Trace.{
  Action, IsJust, adds, asks, closes, ever, monitors, run, sees_gone, waits,
}
use sysbox_libs.PidMonitor.Safety.{run-new_safety}
use sysbox_libs.PidMonitor.Progress.{blocked-wait_event}
use sysbox_libs.PidMonitor.Marker.{IsBatch, returned_in, run-new_marker}

abbrev exit_of : ℕ → PidEvent
exit_of p = record { pid = p; event = exit; err = none }

-- Only process 7 exists.
abbrev only_seven : Bytes → Stat
only_seven path = if bytes_beq path (codes "/proc/7") then found else not_exist

abbrev two_pids : EventTable
two_pids = (7, exit) ∷ (9, exit) ∷ []

abbrev config : Cfg
config = record { poll = pos 10 }

abbrev watching : PidMon
watching = record (idle_monitor config) { event_table = two_pids }

two_pids-IsValid : IsValid two_pids
two_pids-IsValid = record { has_keys = (refl, (refl, tt)); exits = (refl, (refl, tt)) }

add_event-remove_event_example :
    ((add_event (exit_of 9 ∷ exit_of 4 ∷ []) two_pids).1 ≡ ok tt)
    × ((remove_event (exit_of 9 ∷ exit_of 4 ∷ []) two_pids).1 ≡ ok tt)
    × ((p : ℕ)
        → lookup p (add_event (exit_of 9 ∷ exit_of 4 ∷ []) two_pids).0
          ≡ (if contains (9 ∷ 4 ∷ []) p then some exit else lookup p two_pids))
    × ((p : ℕ)
        → lookup p (remove_event (exit_of 9 ∷ exit_of 4 ∷ []) two_pids).0
          ≡ (if contains (9 ∷ 4 ∷ []) p then none else lookup p two_pids))
add_event-remove_event_example =
    add_event-remove_event (exit_of 9 ∷ exit_of 4 ∷ []) two_pids two_pids-IsValid refl

unknown_event-stops_example :
    (add_event (exit_of 4 ∷ record { pid = 5; event = 2; err = none } ∷ exit_of 6 ∷ []) two_pids
      ≡ ((add_event (exit_of 4 ∷ []) two_pids).0, err (unknown_event 2)))
    × (remove_event
          (exit_of 4 ∷ record { pid = 5; event = 2; err = none } ∷ exit_of 6 ∷ [])
          two_pids
        ≡ ((remove_event (exit_of 4 ∷ []) two_pids).0, err (unknown_event 2)))
unknown_event-stops_example =
    unknown_event-stops (exit_of 4 ∷ []) (exit_of 6 ∷ [])
      (record { pid = 5; event = 2; err = none }) two_pids refl refl

-- The turn reports process 9, and goes on monitoring process 7.
turn_test :
    turn only_seven watching
    ≡ some (record watching { event_table = (7, exit) ∷ []; event_ch = (exit_of 9 ∷ []) ∷ [] })
unfolding monitor_step pid_exists is_hit event_is_set format_uint delete lookup event_table_rm
    hit_event
turn_test = refl

add_event-in_window_example :
    (pm' : PidMon) × (monitor_step only_seven (
        with_table
          (add_event (exit_of 9 ∷ []) two_pids).0
          (record watching { phase = sent (map rm_event (9 ∷ [])) }))
      ≡ some pm')
    × (lookup 9 pm'.event_table ≡ none)
    × (pm'.event_ch ≡ [])
    × (pm'.phase ≡ polling)
add_event-in_window_example =
    add_event-in_window only_seven (record watching { phase = sent (map rm_event (9 ∷ [])) })
      (9 ∷ []) (exit_of 9) refl two_pids-IsValid refl

abbrev history : List Action
history = adds (exit_of 9) ∷ monitors only_seven ∷ monitors only_seven ∷ []

abbrev reported : PidMon
reported = record (idle_monitor config) {
  event_table = (9, exit) ∷ [];
  event_ch = (exit_of 9 ∷ []) ∷ [];
  phase = sent (exit_of 9 ∷ []);
}

history_test : run history (idle_monitor config) ≡ some reported
unfolding run add_event event_table_add monitor_step pid_exists lookup insert is_hit event_is_set
    format_uint
history_test = refl

run-new_safety_example :
    IsValid reported.event_table
    × (length reported.event_ch ≤ event_ch_cap)
    × All (All (IsJust (ever asks history) (ever sees_gone history))) reported.event_ch
unfolding new validate_cfg
run-new_safety_example =
    run-new_safety config (idle_monitor config) reported history refl history_test

run-new-Moves_example :
    (t : PidWatch) × Moves sight (labels history (idle_monitor config)) no_watch t
    × ((p : ℕ) → t.watched p ≡ is_some (lookup p reported.event_table))
    × (t.posted ≡ reported.event_ch)
    × (t.closed ≡ false)
unfolding new validate_cfg
run-new-Moves_example =
    run-new-Moves config (idle_monitor config) reported history refl history_test

run-new_once_example :
    received_in 9 history (idle_monitor config) + in_channel 9 reported.event_ch
    ≤ asked_in 9 history
unfolding new validate_cfg
run-new_once_example =
    run-new_once config (idle_monitor config) reported history 9 refl history_test

abbrev crowded : PidMon
crowded = record watching {
  event_ch = replicate 100 (exit_of 9 ∷ []);
  phase = scanned (exit_of 9 ∷ []) (exit_of 9 ∷ []);
}

blocked-wait_event_example :
    (length crowded.event_ch ≡ event_ch_cap)
    × ((es : List PidEvent) × (pm' : PidMon) × (pm'' : PidMon) × (wait_event crowded
          ≡ some (es, pm'))
        × (crowded.event_ch ≡ es ∷ pm'.event_ch)
        × (monitor_step only_seven pm' ≡ some pm''))
unfolding monitor_step
blocked-wait_event_example = blocked-wait_event only_seven crowded (λ e. cc) (omega arith) refl

-- One exit is reported, and the monitor is closed.
abbrev to_the_end : List Action
to_the_end =
    adds (exit_of 9)
    ∷ monitors only_seven
    ∷ monitors only_seven
    ∷ monitors only_seven
    ∷ closes
    ∷ monitors only_seven
    ∷ waits
    ∷ []

abbrev ended : PidMon
ended = record (idle_monitor config) { event_ch = [] ∷ []; phase = exited }

end_test : run to_the_end (idle_monitor config) ≡ some ended
unfolding run monitor_step add_event event_table_add lookup insert is_hit event_is_set pid_exists
    format_uint close wait_event event_table_rm delete
end_test = refl

run-new_marker_example :
    (bs : List (List PidEvent)) × All IsBatch bs
    × (returned_in to_the_end (idle_monitor config) ++ ([] ∷ []) ≡ bs ++ [] ∷ [])
unfolding new validate_cfg
run-new_marker_example = run-new_marker config (idle_monitor config) ended to_the_end refl end_test
