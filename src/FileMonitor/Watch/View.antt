-- ===== src/FileMonitor/Watch/View.antt =====
-- What the set of watched files shows of fileMonitor.
use sysbox_libs.Prelude.{
  Bool, Bytes, List, is_some, map, true, ◌≡◌, nat_comparable, bytes_comparable,
}
use sysbox_libs.Prelude.Table.{lookup}
use sysbox_libs.FileMonitor.Monitor.{FileMon, Phase, Stat, rm_event, scanned, sent, stopping}
use sysbox_libs.FileMonitor.Watch.{FileLabel, FileWatch, sight}
use sysbox_libs.FileMonitor.Turn.{missing_event}
use sysbox_libs.Watching.{Move, Moves, Stage, idle, noticed, reported}

-- Where the thread stands in the abstract view.
abbrev pub Stands : Phase → Stage Bytes (Bytes → Stat) → Bool → Type 0
Stands (scanned es rs) stage closed =
    (stat : Bytes → Stat) × (fs : List Bytes) × (stage ≡ noticed stat fs)
    × (es ≡ map (missing_event stat) fs)
    × (rs ≡ map rm_event fs)
Stands (sent rs) stage closed = (fs : List Bytes) × (stage ≡ reported fs) × (rs ≡ map rm_event fs)
Stands stopping stage closed = (stage ≡ idle) × (closed ≡ true)
Stands _ stage closed = stage ≡ idle

-- The files of the table are the watched ones, and the channel holds the reports.
pub record Sees (fm : FileMon) (s : FileWatch) : Type 0 where
  pub watched : (g : Bytes) → s.watched g ≡ is_some (lookup g fm.file_table)
  pub posted : s.posted ≡ fm.event_ch
  pub closed : s.closed ≡ fm.stopped
  pub stands : Stands fm.phase s.stage s.closed

abbrev pub always : Bytes → Bool
always f = true

-- What the abstract view may come to by one move.
abbrev pub Steps : FileLabel → FileWatch → FileMon → Type 0
Steps l s fm = (t : FileWatch) × Move sight l s t × Sees fm t

abbrev pub Reaches : List FileLabel → FileWatch → FileMon → Type 0
Reaches ls s fm = (t : FileWatch) × Moves sight ls s t × Sees fm t
