-- ===== src/FileMonitor/Unordered.antt =====
-- What the order in which Go walks the table of fileMonitor decides, and what it does not: the
-- table as a map, and the files of a report as a bag, are quotients that forget it.
use sysbox_libs.Watching.{report}
use sysbox_libs.Prelude.{
  Bool, Bool-ext, Bytes, Distinct, List, Option, [], ap, arith, bytes_beq_iff, contains, false,
  if◌then◌else◌, length, map, refl, some, sym, true, ℕ, ◌++◌, ◌+◌, ◌<◌, ◌==◌, ◌∙◌, ◌∷◌, ◌≡◌,
  nat_comparable, bytes_comparable,
}
use sysbox_libs.Prelude.Table.{HasKeys, Table, keys, lookup}
use sysbox_libs.FileMonitor.Monitor.{
  FileMon, Stat, gone_event, is_empty, is_gone, leaving, remove_all, rm_event, waiting,
}
use sysbox_libs.FileMonitor.Turn.{
  after_turn, contains-gone_files, gone_files, keep-Distinct, lookup-remove_all, turn,
  turn-after_turn,
}
use sysbox_libs.FileMonitor.Ending.{is_empty-lookup}
use mathlib.Core.Quot
use mathlib.Core.Quot.{Quot, Quot-set}

abbrev SameEntries : Table Bytes Bool → Table Bytes Bool → Type 0
SameEntries t u = (f : Bytes) → lookup f t ≡ lookup f u

-- A Go map.
abbrev pub FileMap : Type 0
FileMap = Quot SameEntries

abbrev pub map_of : Table Bytes Bool → FileMap
map_of t = Quot.mk t

entry : Bytes → FileMap → Option Bool
entry f = Quot.lift (hlevel) (lookup f) (λ t u h. h f)

map_of-lookup : (t u : Table Bytes Bool) (f : Bytes) → map_of t ≡ map_of u → lookup f t ≡ lookup f u
map_of-lookup t u f h = unfold entry in ap (entry f) h

abbrev pub count : Bytes → List Bytes → ℕ
count f [] = 0
count f (g ∷ gs) = (if g == f then 1 else 0) + count f gs

abbrev SameFiles : List Bytes → List Bytes → Type 0
SameFiles fs gs = (f : Bytes) → count f fs ≡ count f gs

abbrev pub FileBag : Type 0
FileBag = Quot SameFiles

abbrev pub bag_of : List Bytes → FileBag
bag_of fs = Quot.mk fs

count_missing : (f : Bytes) (fs : List Bytes) → contains fs f ≡ false → count f fs ≡ 0
count_missing f [] h = refl
count_missing f (g ∷ fs) h = ground (arith, count_missing f fs)

count-Distinct :
    (f : Bytes) (fs : List Bytes) → Distinct fs → count f fs ≡ (if contains fs f then 1 else 0)
count-Distinct f [] h = refl
count-Distinct f (g ∷ fs) h =
    ground (arith, count-Distinct f fs h.1, count_missing f fs, bytes_beq_iff g f, h.0)

is_empty-entries :
    (t u : Table Bytes Bool) → SameEntries t u → is_empty t ≡ true → is_empty u ≡ true
is_empty-entries [] u h e = is_empty-lookup u (λ f. sym (h f) ∙ unfold lookup in refl)
is_empty-entries (p ∷ t) u h e = absurd (unfold is_empty in ground (arith, e))

-- A turn on two tables that are the same map.
module _ (stat : Bytes → Stat) (t u : Table Bytes Bool) (same : map_of t ≡ map_of u) where
  gone_same : (f : Bytes) → contains (gone_files stat t) f ≡ contains (gone_files stat u) f
  gone_same f =
      rw (contains-gone_files stat t f, contains-gone_files stat u f, map_of-lookup t u f same) refl

  left_same :
      SameEntries
        (remove_all (map rm_event (gone_files stat t)) t)
        (remove_all (map rm_event (gone_files stat u)) u)
  left_same f =
      rw
        (
          lookup-remove_all (gone_files stat t) t f,
          lookup-remove_all (gone_files stat u) u f,
          gone_same f,
          map_of-lookup t u f same,
        )
        refl

  files_same : HasKeys t → HasKeys u → SameFiles (gone_files stat t) (gone_files stat u)
  files_same keyed keyed' f =
      rw
        (
          count-Distinct f (gone_files stat t) (keep-Distinct (is_gone stat) (keys t) keyed),
          count-Distinct f (gone_files stat u) (keep-Distinct (is_gone stat) (keys u) keyed'),
          gone_same f,
        )
        refl

-- A turn of the loop, with a thread that waits and room in the channel, on two tables with one
-- entry for each file that are the same map, in whatever order: both turns are not blocked, and
-- leave tables that are the same map and the thread at the same place; each pushes one list of
-- events, or none, and the files that they report are the same as a bag.
pub turn-map_of :
    (stat : Bytes → Stat) (fm : FileMon) (t : Table Bytes Bool)
    → fm.phase ≡ waiting
    → HasKeys fm.file_table
    → HasKeys t
    → length fm.event_ch < fm.cap
    → map_of fm.file_table ≡ map_of t
    → (q r : FileMon) × (fs gs : List Bytes) × (turn stat fm ≡ some q)
      × (turn stat (record fm { file_table = t }) ≡ some r)
      × (map_of q.file_table ≡ map_of r.file_table)
      × (q.phase ≡ r.phase)
      × (q.event_ch ≡ fm.event_ch ++ report (map (gone_event stat) fs))
      × (r.event_ch ≡ fm.event_ch ++ report (map (gone_event stat) gs))
      × (bag_of fs ≡ bag_of gs)
turn-map_of stat fm t at keyed keyed' room same =
    let fs = gone_files stat fm.file_table in
    let gs = gone_files stat t in
    let left = left_same stat fm.file_table t same in
    let fm' : FileMon = record fm { file_table = t } in
    (
      after_turn stat fs fm,
      after_turn stat gs fm',
      fs,
      gs,
      turn-after_turn stat fm at room,
      turn-after_turn stat fm' at room,
      Quot.sound left,
      ap (λ b. if b then leaving else waiting)
          (Bool-ext _ _ (is_empty-entries _ _ left) (is_empty-entries _ _ (λ f. sym (left f)))),
      refl,
      refl,
      Quot.sound (files_same stat fm.file_table t same keyed keyed'),
    )
