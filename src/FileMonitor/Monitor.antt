-- ===== src/FileMonitor/Monitor.antt =====
-- fileMonitor/fileMon.go and fileMonitor/monitor.go.
-- Each section between `mu.Lock` and `mu.Unlock` is one step, and so is each channel operation.
-- `none` as the next state means that the thread in question is blocked.
use sysbox_libs.Prelude.{
  ℕ, ◌*◌, ◌/◌, ◌-◌, ◌^◌, Bool, true, false, not, ◌||◌, Option, none, some, List, [], ◌∷◌, ◌++◌,
  Result, ok, err, Bytes, ltb, is_some, length, if◌then◌else◌, bytes_comparable,
}
use sysbox_libs.Prelude.Int.{ℤ, pos, negsuc, ltb_ℤ}
use sysbox_libs.Prelude.Table.{Table, insert, delete}

-- What `os.Stat` may report of a path, as the program tells it apart.
pub data Stat : Type 0 where
  found not_exist : Stat
  failed : ℕ → Stat

pub record Event : Type 0 where
  pub filename : Bytes
  pub err : Option ℕ

-- Durations are in nanoseconds.
pub record Cfg : Type 0 where
  pub event_buf_size : ℤ
  pub poll_interval : ℤ

abbrev pub millisecond : ℕ
millisecond = 1000000

abbrev pub poll_min : ℤ
poll_min = pos (1 * millisecond)

abbrev pub poll_max : ℤ
poll_max = pos (10000 * millisecond)

-- Where the monitor thread stands, if there is one. `leaving` is the deferred function that clears
-- `running`.
pub data Phase : Type 0 where
  absent waiting stopping cleaned leaving : Phase
  scanned : List Event → List Event → Phase
  sent : List Event → Phase

pub record FileMon : Type 0 where
  pub cap : ℕ
  pub file_table : Table Bytes Bool
  pub stopped : Bool
  pub event_ch : List (List Event)
  pub running : Bool
  pub phase : Phase

pub data Error : Type 0 where
  invalid_config : ℤ → Error

unfoldable pub validate_cfg : Cfg → Result Error (Unit {0})
validate_cfg cfg =
    if ltb_ℤ cfg.poll_interval poll_min || ltb_ℤ poll_max cfg.poll_interval
    then err (invalid_config cfg.poll_interval)
    else ok tt

-- What a call comes to; making a channel of a size out of range, and closing one again, panic.
pub data Outcome (A : Type 0) : Type 0 where
  returns : A → Outcome A
  fails : Error → Outcome A
  panics : Outcome A

-- The most elements of a channel of slices, of 24 bytes each, in the address space of 48 bits of a
-- 64-bit Linux, less the 96 bytes of its header.
abbrev pub max_channel : ℕ
max_channel = (2 ^ 48 - 96) / 24

abbrev pub fresh_monitor : ℕ → FileMon
fresh_monitor n = record {
  cap = n;
  file_table = [];
  stopped = false;
  event_ch = [];
  running = false;
  phase = absent;
}

unfoldable pub make_monitor : ℤ → Outcome FileMon
make_monitor (pos n) = if ltb max_channel n then panics else returns (fresh_monitor n)
make_monitor (negsuc n) = panics

unfoldable pub new_checked : Result Error (Unit {0}) → Cfg → Outcome FileMon
unfolding make_monitor
new_checked (err e) cfg = fails e
new_checked (ok _) cfg = make_monitor cfg.event_buf_size

unfoldable pub new : Cfg → Outcome FileMon
unfolding new_checked
new cfg = new_checked (validate_cfg cfg) cfg

-- `Add` starts the monitor thread if none is marked as running.
unfoldable pub add : Bytes → FileMon → FileMon
add file fm =
    let fm' : FileMon = record fm { file_table = insert file true fm.file_table } in
    if not fm.running then record fm' { running = true; phase = waiting } else fm'

unfoldable pub remove : Bytes → FileMon → FileMon
remove file fm = record fm { file_table = delete file fm.file_table }

unfoldable pub close : FileMon → Outcome FileMon
close fm = if fm.stopped then panics else returns (record fm { stopped = true })

-- `checkFileExists`
unfoldable pub check_file_exists : Stat → Bool × Option ℕ
check_file_exists found = (true, none)
check_file_exists not_exist = (false, none)
check_file_exists (failed e) = (false, some e)

unfoldable pub is_gone : (Bytes → Stat) → Bytes → Bool
unfolding check_file_exists
is_gone stat file = let (exists, er) = check_file_exists (stat file) in is_some er || not exists

unfoldable pub gone_event : (Bytes → Stat) → Bytes → Event
unfolding check_file_exists
gone_event stat file = record { filename = file; err = (check_file_exists (stat file)).1 }

unfoldable pub rm_event : Bytes → Event
rm_event file = record { filename = file; err = none }

-- The loop over the table in `checkFiles`.
unfoldable pub scan_files :
    (Bytes → Stat) → Table Bytes Bool → List Event → List Event → List Event × List Event
scan_files stat [] event_list rm_list = (event_list, rm_list)
scan_files stat ((file, v) ∷ t) event_list rm_list =
    let hit = is_gone stat file in
    scan_files stat t (if hit then event_list ++ gone_event stat file ∷ [] else event_list)
      (if hit then rm_list ++ rm_event file ∷ [] else rm_list)

-- The loop over `rmList`.
unfoldable pub remove_all : List Event → Table Bytes Bool → Table Bytes Bool
remove_all [] t = t
remove_all (e ∷ es) t = remove_all es (delete e.filename t)

-- A send fits while the buffer has room; an unbuffered channel has none.
unfoldable pub send : List Event → Phase → FileMon → Option FileMon
send events next fm =
    if ltb (length fm.event_ch) fm.cap
    then some (record fm { event_ch = fm.event_ch ++ events ∷ []; phase = next })
    else none

-- What makes the `select` of the thread go on: its ticker, at a time when `os.Stat` is the
-- function, or the closed stop channel.
pub data Wake : Type 0 where
  ticker : (Bytes → Stat) → Wake
  stop_ch : Wake

-- The list that the thread keeps is never written: `checkFiles` appends to a copy of it.
unfoldable pub wake_up : Wake → FileMon → Option FileMon
wake_up (ticker stat) fm =
    let (event_list, rm_list) = scan_files stat fm.file_table [] [] in
    some (record fm { phase = scanned event_list rm_list })
wake_up stop_ch fm = if fm.stopped then some (record fm { phase = stopping }) else none

unfoldable pub is_empty : Table Bytes Bool → Bool
is_empty [] = true
is_empty (e ∷ t) = false

unfoldable pub thread_at : Phase → Wake → FileMon → Option FileMon
unfolding wake_up is_empty
thread_at absent wake fm = none
thread_at waiting wake fm = wake_up wake fm
thread_at stopping wake fm = send [] leaving fm
thread_at (scanned [] rm_list) wake fm = some (record fm { phase = sent rm_list })
thread_at (scanned (e ∷ es) rm_list) wake fm = send (e ∷ es) (sent rm_list) fm
thread_at (sent rm_list) wake fm =
    some (record fm { file_table = remove_all rm_list fm.file_table; phase = cleaned })
thread_at cleaned wake fm =
    some (record fm { phase = if is_empty fm.file_table then leaving else waiting })
thread_at leaving wake fm = some (record fm { running = false; phase = absent })

-- The next step of the monitor thread.
unfoldable pub thread_step : Wake → FileMon → Option FileMon
unfolding thread_at
thread_step wake fm = thread_at fm.phase wake fm

-- With an empty buffer a receiver takes the list of a thread that stands at its send.
unfoldable pub hand_over : Phase → FileMon → Option (List Event × FileMon)
hand_over (scanned (e ∷ es) rm_list) fm = some (e ∷ es, record fm { phase = sent rm_list })
hand_over (scanned [] rm_list) fm = none
hand_over stopping fm = some ([], record fm { phase = leaving })
hand_over (sent rm_list) fm = none
hand_over absent fm = none
hand_over waiting fm = none
hand_over cleaned fm = none
hand_over leaving fm = none

unfoldable pub receive : List (List Event) → FileMon → Option (List Event × FileMon)
unfolding hand_over
receive [] fm = hand_over fm.phase fm
receive (events ∷ rest) fm = some (events, record fm { event_ch = rest })

-- A receive from the channel that `Events` returns.
unfoldable pub events : FileMon → Option (List Event × FileMon)
unfolding receive
events fm = receive fm.event_ch fm
