-- ===== src/FileMonitor/Restart.antt =====
-- How the monitor thread of fileMonitor starts, ends and is started again.
use sysbox_libs.Prelude.{
  ◌<◌, ◌≡◌, refl, true, false, none, some, List, [], ◌∷◌, ◌++◌, arith, Bytes, bytes_comparable,
  eq_refl, if◌then◌else◌, length, lt→ltb, contains, map,
}
use sysbox_libs.Prelude.Maybe.{◌>>=◌}
use sysbox_libs.Prelude.Table.{lookup, insert, lookup-insert}
use sysbox_libs.FileMonitor.Monitor.{
  FileMon, absent, waiting, sent, cleaned, leaving, Wake, stop_ch, rm_event, remove_all, send,
  thread_step, add,
}
use sysbox_libs.FileMonitor.Turn.{lookup-remove_all}

-- `Add` puts the file in the table; if no thread was marked as running there is one now, which
-- waits, and otherwise the thread is where it was.
pub add-keeps_on :
    (file : Bytes) (fm : FileMon)
    → (lookup file (add file fm).file_table ≡ some true)
      × ((add file fm).running ≡ true)
      × ((add file fm).phase ≡ (if fm.running then fm.phase else waiting))
unfolding add
add-keeps_on file fm = ground (arith, lookup-insert file file true fm.file_table, eq_refl file)

-- `Add` while the thread has seen an empty table and not yet cleared `running`: no thread is
-- started, the thread ends, and the file stays in the table with no thread that could take a step
-- for it.
pub add-leaving :
    (file : Bytes) (wake : Wake) (fm : FileMon)
    → fm.phase ≡ leaving
    → fm.running ≡ true
    → (fm' : FileMon) × (thread_step wake (add file fm) ≡ some fm')
      × (lookup file fm'.file_table ≡ some true)
      × (fm'.running ≡ false)
      × ((later : Wake) → thread_step later fm' ≡ none)
unfolding thread_step add
add-leaving file wake fm at on = (
  record fm { file_table = insert file true fm.file_table; running = false; phase = absent },
  rw (on, at) refl,
  ground (arith, lookup-insert file file true fm.file_table, eq_refl file),
  refl,
  λ later. refl,
)

-- `Add` while the thread has sent its list and not yet removed the files `fs` that it reported:
-- the removal that follows drops the file again if it is among `fs`, with no further event, and
-- keeps it otherwise.
pub add-in_scan :
    (file : Bytes) (fs : List Bytes) (wake : Wake) (fm : FileMon)
    → fm.phase ≡ sent (map rm_event fs)
    → fm.running ≡ true
    → (fm' : FileMon) × (thread_step wake (add file fm) ≡ some fm')
      × (lookup file fm'.file_table ≡ (if contains fs file then none else some true))
      × (fm'.event_ch ≡ fm.event_ch)
unfolding thread_step add
add-in_scan file fs wake fm at on = (
  record fm {
    file_table = remove_all (map rm_event fs) (insert file true fm.file_table);
    phase = cleaned;
  },
  rw (on, at) refl,
  ground (
    arith,
    lookup-remove_all fs (insert file true fm.file_table) file,
    lookup-insert file file true fm.file_table,
    eq_refl file,
  ),
  refl,
)

-- After `Close`, a thread that waits and takes the stop signal pushes one empty list, clears
-- `running` and ends; the table is left as it is.
pub close-thread :
    (wake wake' : Wake) (fm : FileMon)
    → fm.phase ≡ waiting
    → fm.stopped ≡ true
    → length fm.event_ch < fm.cap
    → (thread_step stop_ch fm >>= thread_step wake >>= thread_step wake')
      ≡ some (record fm { event_ch = fm.event_ch ++ [] ∷ []; running = false; phase = absent })
unfolding thread_step send
close-thread wake wake' fm at closed room =
    rw (at, closed, lt→ltb (length fm.event_ch) fm.cap room) refl
