-- ===== src/FileMonitor/Watch.antt =====
-- The abstract view of fileMonitor: a set of watched files.
pub mod View
pub mod Refines
pub mod Runs
use sysbox_libs.Prelude.{Bytes, List, Option, [], none, some, true, ◌∷◌}
use sysbox_libs.FileMonitor.Monitor.{Event, FileMon, Stat, Wake, events, stop_ch, ticker}
use sysbox_libs.FileMonitor.Turn.{is_missing, missing_event}
use sysbox_libs.FileMonitor.Trace.{Action, adds, closes, receives, removes, step, wakes}
use sysbox_libs.Watching.{Label, Sight, Watch, forgets, gets, shuts, thread, watches}

abbrev pub sight : Sight Bytes Event (Bytes → Stat)
sight = record { gone = λ stat f. is_missing (stat f); event = missing_event; rests = true }

abbrev pub FileWatch : Type 0
FileWatch = Watch Bytes Event (Bytes → Stat)

abbrev pub FileLabel : Type 0
FileLabel = Label Bytes Event (Bytes → Stat)

-- The list that a receiver gets, if it is not blocked.
abbrev pub got : Option (List Event × FileMon) → List Event
got none = []
got (some r) = r.0

abbrev pub time_of : Wake → Option (Bytes → Stat)
time_of (ticker stat) = some stat
time_of stop_ch = none

-- What an action is seen as.
abbrev pub label_of : Action → FileMon → FileLabel
label_of (adds f) fm = watches f
label_of (removes f) fm = forgets f
label_of receives fm = gets (got (events fm))
label_of closes fm = shuts
label_of (wakes w) fm = thread (time_of w)

abbrev pub labels_after : Option FileMon → (FileMon → List FileLabel) → List FileLabel
labels_after none f = []
labels_after (some fm) f = f fm

-- What a run is seen as.
unfoldable pub labels : List Action → FileMon → List FileLabel
labels [] fm = []
labels (a ∷ rest) fm = label_of a fm ∷ labels_after (step a fm) (labels rest)
