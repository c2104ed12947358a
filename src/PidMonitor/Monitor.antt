-- ===== src/PidMonitor/Monitor.antt =====
-- pidmonitor/pidmon.go and pidmonitor/monitor.go.
-- Each section between `mu.Lock` and `mu.Unlock` is one step, and so is each channel operation.
-- `none` as the next state means that the thread in question is blocked.
use sysbox_libs.Prelude.{
  ℕ, ◌≡◌, refl, Bool, true, false, not, ◌||◌, Option, none, some, List, [], ◌∷◌, ◌++◌, Result, ok,
  ◌>>◌, err, nat_comparable, Bytes, codes, ltb, is_some, length, if◌then◌else◌,
}
use sysbox_libs.Strings.Decimal.{format_uint}
use sysbox_libs.PidMonitor.Events.{
  Stat, found, not_exist, failed, exit, PidEvent, Cfg, Error, unknown_event, validate_cfg,
  validate_event, event_is_set, EventTable, event_table_add, event_table_rm,
}

-- `pidExists`: whether the process is there, and the error of `os.Stat` if it failed otherwise.
unfoldable pub exists_by : Stat → Bool × Option ℕ
exists_by found = (true, none)
exists_by not_exist = (false, none)
exists_by (failed e) = (false, some e)

unfoldable pub pid_exists : (Bytes → Stat) → ℕ → Bool × Option ℕ
unfolding exists_by
pid_exists stat pid = exists_by (stat (codes "/proc/" ++ format_uint pid))

-- The test of the loop over the table: is an exit of this entry to be reported?
unfoldable pub is_hit : (Bytes → Stat) → ℕ × ℕ → Bool
is_hit stat (pid, evect) =
    let (pid_alive, er) = pid_exists stat pid in
    if event_is_set evect exit then is_some er || not pid_alive else false

unfoldable pub hit_event : (Bytes → Stat) → ℕ → PidEvent
hit_event stat pid = record { pid = pid; event = exit; err = (pid_exists stat pid).1 }

unfoldable pub rm_event : ℕ → PidEvent
rm_event pid = record { pid = pid; event = exit; err = none }

-- The loop over the table: what is to be sent, and what is to be removed.
unfoldable pub check_pids :
    (Bytes → Stat) → EventTable → List PidEvent → List PidEvent → List PidEvent × List PidEvent
unfolding hit_event rm_event
check_pids stat [] event_list rm_list = (event_list, rm_list)
check_pids stat ((pid, evect) ∷ t) event_list rm_list =
    let hit = is_hit stat (pid, evect) in
    check_pids stat t (if hit then event_list ++ hit_event stat pid ∷ [] else event_list)
      (if hit then rm_list ++ rm_event pid ∷ [] else rm_list)

-- The loop over `rmList`.
unfoldable pub remove_all : List PidEvent → EventTable → EventTable
remove_all [] t = t
remove_all (e ∷ es) t = remove_all es (event_table_rm t e)

-- Where the monitor thread stands.
pub data Phase : Type 0 where
  polling stopping exited : Phase
  scanned : List PidEvent → List PidEvent → Phase
  sent : List PidEvent → Phase

pub record PidMon : Type 0 where
  pub cfg : Cfg
  pub event_table : EventTable
  pub event_ch : List (List PidEvent)
  pub phase : Phase

-- The room of the event channel.
abbrev pub event_ch_cap : ℕ
event_ch_cap = 100

-- `New`: the monitor thread is started.
abbrev pub idle_monitor : Cfg → PidMon
idle_monitor cfg = record { cfg = cfg; event_table = []; event_ch = []; phase = polling }

unfoldable pub new : Cfg → Result Error PidMon
new cfg = do validate_cfg cfg; ok (idle_monitor cfg)

-- `AddEvent`: the events before the first unknown one are added.
unfoldable pub add_event : List PidEvent → EventTable → EventTable × Result Error (Unit {0})
add_event [] t = (t, ok tt)
add_event (e ∷ es) t =
    if validate_event e.event
    then add_event es (event_table_add t e)
    else (t, err (unknown_event e.event))

unfoldable pub remove_event : List PidEvent → EventTable → EventTable × Result Error (Unit {0})
remove_event [] t = (t, ok tt)
remove_event (e ∷ es) t =
    if validate_event e.event
    then remove_event es (event_table_rm t e)
    else (t, err (unknown_event e.event))

-- A send on the event channel blocks while the channel is full.
unfoldable pub send : List PidEvent → Phase → PidMon → Option PidMon
send events next pm =
    if ltb (length pm.event_ch) event_ch_cap
    then some (record pm { event_ch = pm.event_ch ++ events ∷ []; phase = next })
    else none

-- The next step of the monitor thread, where `stat` is what `os.Stat` reports at this time.
unfoldable pub monitor_at : Phase → (Bytes → Stat) → PidMon → Option PidMon
unfolding check_pids remove_all send
monitor_at polling stat pm =
    let (event_list, rm_list) = check_pids stat pm.event_table [] [] in
    some (record pm { phase = scanned event_list rm_list })
monitor_at (scanned [] rm_list) stat pm = some (record pm { phase = sent rm_list })
monitor_at (scanned (e ∷ es) rm_list) stat pm = send (e ∷ es) (sent rm_list) pm
monitor_at (sent rm_list) stat pm =
    some (record pm { event_table = remove_all rm_list pm.event_table; phase = polling })
monitor_at stopping stat pm = send [] exited pm
monitor_at exited stat pm = none

unfoldable pub monitor_step : (Bytes → Stat) → PidMon → Option PidMon
unfolding monitor_at
monitor_step stat pm = monitor_at pm.phase stat pm

-- `Close` hands over `stop` when the monitor thread is at its `select`, and blocks until then.
unfoldable pub close_at : Phase → PidMon → Option PidMon
close_at polling pm = some (record pm { phase = stopping })
close_at (scanned es rs) pm = none
close_at (sent rs) pm = none
close_at stopping pm = none
close_at exited pm = none

unfoldable pub close : PidMon → Option PidMon
unfolding close_at
close pm = close_at pm.phase pm

unfoldable pub receive : List (List PidEvent) → PidMon → Option (List PidEvent × PidMon)
receive [] pm = none
receive (events ∷ rest) pm = some (events, record pm { event_ch = rest })

-- `WaitEvent`: it blocks while the channel is empty.
unfoldable pub wait_event : PidMon → Option (List PidEvent × PidMon)
unfolding receive
wait_event pm = receive pm.event_ch pm

abbrev no_stat : Bytes → Stat
no_stat p = not_exist

one_round : check_pids no_stat ((7, exit) ∷ []) [] [] ≡ (
  record { pid = 7; event = exit; err = none } ∷ [],
  record { pid = 7; event = exit; err = none } ∷ [],
)
unfolding check_pids is_hit pid_exists event_is_set
one_round = refl
