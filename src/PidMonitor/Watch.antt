-- ===== src/PidMonitor/Watch.antt =====
-- The abstract view of pidmonitor: a set of watched processes.
pub mod Refines
pub mod Runs
use sysbox_libs.Prelude.{
  Bool, Bytes, List, Option, [], codes, false, if◌then◌else◌, is_some, map, none, some, true, ℕ,
  ◌++◌, ◌==◌, ◌∷◌, ◌≡◌, nat_comparable,
}
use sysbox_libs.Prelude.Table.{lookup}
use sysbox_libs.Strings.Decimal.{format_uint}
use sysbox_libs.PidMonitor.Events.{PidEvent, Stat, exit, failed, found, not_exist}
use sysbox_libs.PidMonitor.Monitor.{
  PidMon, Phase, exited, rm_event, scanned, sent, stopping, wait_event,
}
use sysbox_libs.PidMonitor.Trace.{Action, adds, closes, monitors, removes, step, waits}
use sysbox_libs.PidMonitor.Once.{handed}
use sysbox_libs.Watching.{
  Label, Move, Moves, Sight, Stage, Watch, forgets, gets, idle, noticed, refuses, reported, shuts,
  thread, watches,
}

-- What is to be reported: a process that is not there, or of which that could not be found out.
abbrev pub is_missing : Stat → Bool
is_missing found = false
is_missing not_exist = true
is_missing (failed e) = true

abbrev pub cause : Stat → Option ℕ
cause found = none
cause not_exist = none
cause (failed e) = some e

abbrev pub proc_path : ℕ → Bytes
proc_path p = codes "/proc/" ++ format_uint p

abbrev pub exit_event : (Bytes → Stat) → ℕ → PidEvent
exit_event stat p = record { pid = p; event = exit; err = cause (stat (proc_path p)) }

-- Each step of the thread shows something.
abbrev pub sight : Sight ℕ PidEvent (Bytes → Stat)
sight = record {
  gone = λ stat p. is_missing (stat (proc_path p));
  event = exit_event;
  rests = false;
}

abbrev pub PidWatch : Type 0
PidWatch = Watch ℕ PidEvent (Bytes → Stat)

abbrev pub PidLabel : Type 0
PidLabel = Label ℕ PidEvent (Bytes → Stat)

-- What an action is seen as: a call for another event than `Exit` is refused.
abbrev pub label_of : Action → PidMon → PidLabel
label_of (adds e) pm = if e.event == exit then watches e.pid else refuses
label_of (removes e) pm = if e.event == exit then forgets e.pid else refuses
label_of waits pm = gets (handed (wait_event pm))
label_of closes pm = shuts
label_of (monitors stat) pm = thread (some stat)

abbrev pub labels_after : Option PidMon → (PidMon → List PidLabel) → List PidLabel
labels_after none f = []
labels_after (some pm) f = f pm

-- What a run is seen as.
unfoldable pub labels : List Action → PidMon → List PidLabel
labels [] pm = []
labels (a ∷ rest) pm = label_of a pm ∷ labels_after (step a pm) (labels rest)

-- Where the thread stands in the abstract view.
abbrev pub Stands : Phase → Stage ℕ (Bytes → Stat) → Type 0
Stands (scanned es rs) stage =
    (stat : Bytes → Stat) × (ps : List ℕ) × (stage ≡ noticed stat ps)
    × (es ≡ map (exit_event stat) ps)
    × (rs ≡ map rm_event ps)
Stands (sent rs) stage = (ps : List ℕ) × (stage ≡ reported ps) × (rs ≡ map rm_event ps)
Stands _ stage = stage ≡ idle

-- The command to stop has been taken.
abbrev pub is_closed : Phase → Bool
is_closed stopping = true
is_closed exited = true
is_closed _ = false

-- The pids of the table are the watched ones, and the channel holds the reports.
pub record Sees (pm : PidMon) (s : PidWatch) : Type 0 where
  pub watched : (p : ℕ) → s.watched p ≡ is_some (lookup p pm.event_table)
  pub posted : s.posted ≡ pm.event_ch
  pub closed : s.closed ≡ is_closed pm.phase
  pub stands : Stands pm.phase s.stage

-- What the abstract view may come to by one move.
abbrev pub Steps : PidLabel → PidWatch → PidMon → Type 0
Steps l s pm = (t : PidWatch) × Move sight l s t × Sees pm t

abbrev pub Reaches : List PidLabel → PidWatch → PidMon → Type 0
Reaches ls s pm = (t : PidWatch) × Moves sight ls s t × Sees pm t
