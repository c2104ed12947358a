-- ===== src/FileMonitor/Turn.antt =====
-- One turn of the loop of `fileMon`, with no call of a client inside it.
use sysbox_libs.Watching.{report}
use sysbox_libs.Prelude.{
  ap, not, true, ℕ, ◌||◌, ◌∙◌, Bool, Bytes, Distinct, List, Option, [], arith, bytes_beq_iff,
  contains, false, if◌then◌else◌, is_some, keep, length, lt→ltb, map, none, refl, some, ◌&&◌, ◌++◌,
  ◌<◌, ◌∷◌, ◌≡◌, nat_comparable, bytes_comparable,
}
use sysbox_libs.Prelude.Maybe.{◌>>=◌}
use sysbox_libs.Prelude.Table.{HasKeys, Table, delete, keys, lookup, lookup-delete}
use sysbox_libs.FileMonitor.Monitor.{
  check_file_exists, failed, found, not_exist, Event, FileMon, Stat, gone_event, is_empty, is_gone,
  leaving, remove_all, rm_event, scan_files, scanned, send, thread_step, ticker, waiting,
}
use mathlib.Core.List.{append-nil, append_assoc}

-- The files of the table that are gone.
abbrev pub gone_files : (Bytes → Stat) → Table Bytes Bool → List Bytes
gone_files stat t = keep (is_gone stat) (keys t)

pub scan_files-gone :
    (stat : Bytes → Stat) (t : Table Bytes Bool) (es rs : List Event)
    → scan_files stat t es rs
      ≡ (es ++ map (gone_event stat) (gone_files stat t), rs ++ map rm_event (gone_files stat t))
unfolding scan_files
scan_files-gone stat [] es rs = ground (arith, append-nil es, append-nil rs)
scan_files-gone stat ((f, v) ∷ t) es rs = ground (
  arith,
  scan_files-gone stat t (es ++ gone_event stat f ∷ []) (rs ++ rm_event f ∷ []),
  scan_files-gone stat t es rs,
  append_assoc es (gone_event stat f ∷ []) (map (gone_event stat) (gone_files stat t)),
  append_assoc rs (rm_event f ∷ []) (map rm_event (gone_files stat t)),
)

pub contains-gone_files :
    (stat : Bytes → Stat) (t : Table Bytes Bool) (f : Bytes)
    → contains (gone_files stat t) f ≡ (is_some (lookup f t) && is_gone stat f)
unfolding lookup
contains-gone_files stat [] f = refl
contains-gone_files stat ((g, v) ∷ t) f =
    ground (arith, contains-gone_files stat t f, bytes_beq_iff g f)

pub lookup-remove_all :
    (fs : List Bytes) (t : Table Bytes Bool) (f : Bytes)
    → lookup f (remove_all (map rm_event fs) t) ≡ (if contains fs f then none else lookup f t)
unfolding remove_all rm_event
lookup-remove_all [] t f = refl
lookup-remove_all (g ∷ fs) t f =
    ground (arith, lookup-remove_all fs (delete g t) f, lookup-delete g f t)

contains-keep :
    (p : Bytes → Bool) (fs : List Bytes) (f : Bytes)
    → contains fs f ≡ false
    → contains (keep p fs) f ≡ false
contains-keep p [] f h = refl
contains-keep p (g ∷ fs) f h = ground (arith, contains-keep p fs f)

pub keep-Distinct : (p : Bytes → Bool) (fs : List Bytes) → Distinct fs → Distinct (keep p fs)
keep-Distinct p [] h = tt
keep-Distinct p (g ∷ fs) h = ground (arith, keep-Distinct p fs h.1, contains-keep p fs g)

-- The scan, the send, the removal and the look at the table.
abbrev pub turn : (Bytes → Stat) → FileMon → Option FileMon
turn stat fm =
    thread_step (ticker stat) fm
    >>= thread_step (ticker stat)
    >>= thread_step (ticker stat)
    >>= thread_step (ticker stat)

abbrev pub left_table : List Bytes → FileMon → Table Bytes Bool
left_table fs fm = remove_all (map rm_event fs) fm.file_table

abbrev pub after_turn : (Bytes → Stat) → List Bytes → FileMon → FileMon
after_turn stat fs fm = record fm {
  file_table = left_table fs fm;
  event_ch = fm.event_ch ++ report (map (gone_event stat) fs);
  phase = if is_empty (left_table fs fm) then leaving else waiting;
}

send_turn :
    (stat : Bytes → Stat) (fs : List Bytes) (fm : FileMon)
    → length fm.event_ch < fm.cap
    → fm.phase ≡ scanned (map (gone_event stat) fs) (map rm_event fs)
    → (thread_step (ticker stat) fm >>= thread_step (ticker stat) >>= thread_step (ticker stat))
      ≡ some (after_turn stat fs fm)
unfolding thread_step send
send_turn stat [] fm room at = rw at (ground (arith, append-nil fm.event_ch))
send_turn stat (f ∷ fs) fm room at = rw (at, lt→ltb (length fm.event_ch) fm.cap room) refl

pub turn-after_turn :
    (stat : Bytes → Stat) (fm : FileMon)
    → fm.phase ≡ waiting
    → length fm.event_ch < fm.cap
    → turn stat fm ≡ some (after_turn stat (gone_files stat fm.file_table) fm)
unfolding thread_step
turn-after_turn stat fm at room =
    rw (at, scan_files-gone stat fm.file_table [] [])
      (send_turn stat (gone_files stat fm.file_table)
        (record fm {
          phase =
              scanned (map (gone_event stat) (gone_files stat fm.file_table))
                (map rm_event (gone_files stat fm.file_table));
        })
        room refl)

-- What is to be reported: a file that does not exist, or of which that could not be found out.
abbrev pub is_missing : Stat → Bool
is_missing found = false
is_missing not_exist = true
is_missing (failed e) = true

abbrev pub cause : Stat → Option ℕ
cause found = none
cause not_exist = none
cause (failed e) = some e

abbrev pub missing_event : (Bytes → Stat) → Bytes → Event
missing_event stat f = record { filename = f; err = cause (stat f) }

pub is_gone-is_missing : (stat : Bytes → Stat) (f : Bytes) → is_gone stat f ≡ is_missing (stat f)
unfolding is_gone
is_gone-is_missing stat f = by_stat (stat f)
  where
    by_stat :
        (r : Stat) → (is_some (check_file_exists r).1 || not (check_file_exists r).0) ≡ is_missing r
    by_stat found = unfold check_file_exists in refl
    by_stat not_exist = unfold check_file_exists in refl
    by_stat (failed e) = unfold check_file_exists in refl

gone_event-missing_event :
    (stat : Bytes → Stat) (f : Bytes) → gone_event stat f ≡ missing_event stat f
unfolding gone_event
gone_event-missing_event stat f =
    ap (λ (e : Option ℕ). record { filename = f; err = e }) (by_stat (stat f))
  where
    by_stat : (r : Stat) → (check_file_exists r).1 ≡ cause r
    by_stat found = unfold check_file_exists in refl
    by_stat not_exist = unfold check_file_exists in refl
    by_stat (failed e) = unfold check_file_exists in refl

pub map-missing_event :
    (stat : Bytes → Stat) (fs : List Bytes) → map (gone_event stat) fs ≡ map (missing_event stat) fs
map-missing_event stat [] = refl
map-missing_event stat (f ∷ fs) =
    rw (gone_event-missing_event stat f, map-missing_event stat fs) refl

-- If the thread waits, the table has one entry for each file and the channel has room, then a turn
-- of the loop with no call in between is not blocked. It pushes one list of events, or none if
-- there is nothing to report, that reports, each once, exactly the files of the table that do not
-- exist or cannot be looked up, with the failure of the lookup; exactly these leave the table; and
-- the thread goes back to wait, or on to its end if the table is then empty.
pub turn-checks :
    (stat : Bytes → Stat) (fm : FileMon)
    → fm.phase ≡ waiting
    → HasKeys fm.file_table
    → length fm.event_ch < fm.cap
    → (fm' : FileMon) × (fs : List Bytes) × (turn stat fm ≡ some fm')
      × (fm'.event_ch ≡ fm.event_ch ++ report (map (missing_event stat) fs))
      × Distinct fs
      × ((f : Bytes) → contains fs f ≡ (is_some (lookup f fm.file_table) && is_missing (stat f)))
      × ((f : Bytes)
          → lookup f fm'.file_table
            ≡ (if is_missing (stat f) then none else lookup f fm.file_table))
      × (fm'.phase ≡ (if is_empty fm'.file_table then leaving else waiting))
turn-checks stat fm at keyed room =
    let fs = gone_files stat fm.file_table in
    (
      after_turn stat fs fm,
      fs,
      turn-after_turn stat fm at room,
      ap (λ es. fm.event_ch ++ report es) (map-missing_event stat fs),
      keep-Distinct (is_gone stat) (keys fm.file_table) keyed,
      λ f.
          contains-gone_files stat fm.file_table f
          ∙ ap (λ b. is_some (lookup f fm.file_table) && b) (is_gone-is_missing stat f),
      λ f. rw (← is_gone-is_missing stat f) (
          ground (
            arith,
            lookup-remove_all fs fm.file_table f,
            contains-gone_files stat fm.file_table f,
          )),
      refl,
    )
