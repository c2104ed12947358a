-- ===== src/FileMonitor/Ending.antt =====
-- The end of the monitor thread of fileMonitor when nothing is left to watch.
use sysbox_libs.Watching.{report}
use sysbox_libs.Prelude.{
  Bool, Bytes, Option-cases, [], arith, eq_refl, false, inl, inr, is_some, length, map, none, refl,
  some, true, ◌++◌, ◌<◌, ◌∷◌, ◌≡◌, nat_comparable, bytes_comparable,
}
use sysbox_libs.Prelude.Maybe.{◌>>=◌}
use sysbox_libs.Prelude.Table.{HasKeys, Table, lookup}
use sysbox_libs.FileMonitor.Monitor.{
  FileMon, Stat, Wake, absent, gone_event, is_empty, is_gone, leaving, remove_all, rm_event,
  thread_step, waiting,
}
use sysbox_libs.FileMonitor.Turn.{
  after_turn, contains-gone_files, gone_files, lookup-remove_all, turn, turn-after_turn,
}

pub is_empty-lookup : (t : Table Bytes Bool) → ((f : Bytes) → lookup f t ≡ none) → is_empty t ≡ true
unfolding lookup is_empty
is_empty-lookup [] h = refl
is_empty-lookup ((f, v) ∷ t) h = absurd (ground (arith, h f, eq_refl f))

leave :
    (wake : Wake) (fm : FileMon)
    → fm.phase ≡ leaving
    → thread_step wake fm ≡ some (record fm { running = false; phase = absent })
unfolding thread_step
leave wake fm at = rw at refl

-- If the thread waits, the table has one entry for each file, the channel has room and every file
-- that is still watched is gone, the thread ends by itself: in a turn with no call in between it
-- reports these files, and with one step more it has cleared `running` and is no more there; the
-- table is empty.
pub turn-absent :
    (stat : Bytes → Stat) (wake : Wake) (fm : FileMon)
    → fm.phase ≡ waiting
    → HasKeys fm.file_table
    → length fm.event_ch < fm.cap
    → ((f : Bytes) → is_some (lookup f fm.file_table) ≡ true → is_gone stat f ≡ true)
    → (fm' : FileMon) × ((turn stat fm >>= thread_step wake) ≡ some fm')
      × (fm'.phase ≡ absent)
      × (fm'.running ≡ false)
      × (is_empty fm'.file_table ≡ true)
      × (fm'.event_ch
          ≡ fm.event_ch ++ report (map (gone_event stat) (gone_files stat fm.file_table)))
turn-absent stat wake fm at keyed room gone =
    let fs = gone_files stat fm.file_table in
    let q = after_turn stat fs fm in
    (
      record q { running = false; phase = absent },
      rw (turn-after_turn stat fm at room) (leave wake q (rw empty refl)),
      refl,
      refl,
      empty,
      refl,
    )
  where
    none_left :
        (f : Bytes)
        → lookup f (remove_all (map rm_event (gone_files stat fm.file_table)) fm.file_table) ≡ none
    none_left f =
        rw
          (
            lookup-remove_all (gone_files stat fm.file_table) fm.file_table f,
            contains-gone_files stat fm.file_table f,
          )
          (elim (Option-cases (lookup f fm.file_table)) [
            | inl no_entry ↦ rw no_entry refl
            | inr (v, e) ↦ rw e (rw (gone f (rw e refl)) refl)
          ])

    empty :
        is_empty (remove_all (map rm_event (gone_files stat fm.file_table)) fm.file_table) ≡ true
    empty = is_empty-lookup _ none_left
