-- ===== src/PidMonitor/Events.antt =====
-- pidmonitor/utils.go, and the types of pidmonitor/pidmon.go.
-- An `int` event vector is its 64-bit pattern; a `uint32` pid is a plain number.
use Prim.Native.Nat.{bit_and, bit_or, bit_xor}
use sysbox_libs.Prelude.{
  ℕ, Bool, ◌||◌, Option, none, some, Result, ok, err, ◌==◌, nat_comparable, if◌then◌else◌,
}
use sysbox_libs.Prelude.Int.{ℤ, pos, ltb_ℤ}
use sysbox_libs.Prelude.Table.{Table, lookup, insert, delete}

-- What `os.Stat` may report of a path, as the program tells it apart.
pub data Stat : Type 0 where
  found not_exist : Stat
  failed : ℕ → Stat

-- The bit of the event type `Exit`.
abbrev pub exit : ℕ
exit = 1

pub record PidEvent : Type 0 where
  pub pid : ℕ
  pub event : ℕ
  pub err : Option ℕ

pub record Cfg : Type 0 where
  pub poll : ℤ

abbrev pub poll_min : ℤ
poll_min = pos 1

abbrev pub poll_max : ℤ
poll_max = pos 1000

pub data Error : Type 0 where
  invalid_config : ℤ → Error
  unknown_event : ℕ → Error

unfoldable pub validate_cfg : Cfg → Result Error (Unit {0})
validate_cfg cfg =
    if ltb_ℤ cfg.poll poll_min || ltb_ℤ poll_max cfg.poll
    then err (invalid_config cfg.poll)
    else ok tt

abbrev pub validate_event : ℕ → Bool
validate_event event = event == exit

unfoldable pub event_set : ℕ → ℕ → ℕ
event_set evect etype = bit_or evect etype

-- `evect &^ etype`: the bits of `evect` that are not in `etype`.
unfoldable pub event_clear : ℕ → ℕ → ℕ
event_clear evect etype = bit_xor evect (bit_and evect etype)

unfoldable pub event_is_set : ℕ → ℕ → Bool
event_is_set evect etype = bit_and evect etype == etype

abbrev pub EventTable : Type 0
EventTable = Table ℕ ℕ

unfoldable pub add_found : Option ℕ → PidEvent → EventTable → EventTable
unfolding event_set
add_found none e t = insert e.pid e.event t
add_found (some evect) e t = insert e.pid (event_set evect e.event) t

unfoldable pub event_table_add : EventTable → PidEvent → EventTable
unfolding add_found
event_table_add t e = add_found (lookup e.pid t) e t

unfoldable pub rm_found : Option ℕ → PidEvent → EventTable → EventTable
unfolding event_clear
rm_found none e t = t
rm_found (some evect) e t =
    let left = event_clear evect e.event in
    if left == 0 then delete e.pid t else insert e.pid left t

unfoldable pub event_table_rm : EventTable → PidEvent → EventTable
unfolding rm_found
event_table_rm t e = rm_found (lookup e.pid t) e t
