-- ===== src/FileMonitor/Trace.antt =====
-- Interleavings of the thread of fileMonitor with its clients, as sequences of atomic actions.
use sysbox_libs.Prelude.{
  ◌≡◌, Bool, true, false, ◌||◌, Option, none, some, List, [], ◌∷◌, ◌==◌, Bytes, bytes_comparable,
}
use sysbox_libs.Prelude.Maybe.{◌>>=◌}
use sysbox_libs.FileMonitor.Monitor.{
  Event, FileMon, Phase, absent, Wake, ticker, is_gone, thread_step, add, remove, close, events,
  Outcome, returns, fails, panics,
}
use sysbox_libs.FileMonitor.Monitor.{
  Cfg, Error, fresh_monitor, make_monitor, max_channel, new, new_checked, validate_cfg,
}
use sysbox_libs.Prelude.{Bool-cases, Result, ap, err, inl, inr, ltb, ok, refl, ℕ}
use sysbox_libs.Prelude.Int.{negsuc, pos, ℤ}
use sysbox_libs.Prelude.Maybe.{Ensures, Ensures-eq}

pub data Action : Type 0 where
  adds removes : Bytes → Action
  receives closes : Action
  wakes : Wake → Action

abbrev pub returned : Outcome FileMon → Option FileMon
returned (returns fm) = some fm
returned (fails e) = none
returned panics = none

abbrev pub step : Action → FileMon → Option FileMon
step (adds f) fm = some (add f fm)
step (removes f) fm = some (remove f fm)
step receives fm = events fm >>= λ r. some r.1
step closes fm = returned (close fm)
step (wakes w) fm = thread_step w fm

-- `none` if an action is blocked when its turn comes, or panics.
unfoldable pub run : List Action → FileMon → Option FileMon
run [] fm = some fm
run (a ∷ rest) fm = step a fm >>= run rest

abbrev pub asks : Action → Bytes → Bool
asks (adds f) g = f == g
asks _ g = false

-- At some wake-up of the thread the file does not exist or cannot be looked up.
abbrev pub sees_gone : Action → Bytes → Bool
sees_gone (wakes (ticker stat)) f = is_gone stat f
sees_gone _ f = false

abbrev pub ever : (Action → Bytes → Bool) → List Action → Bytes → Bool
ever p [] f = false
ever p (a ∷ rest) f = p a f || ever p rest f

abbrev pub IsJust : (Bytes → Bool) → (Bytes → Bool) → Event → Type 0
IsJust asked gone e = (asked e.filename ≡ true) × (gone e.filename ≡ true)

abbrev pub is_present : Phase → Bool
is_present absent = false
is_present _ = true

abbrev IsFresh : FileMon → Type 0
IsFresh fm = (n : ℕ) × (fresh_monitor n ≡ fm)

-- A monitor that `New` gives is fresh.
pub new-fresh_monitor :
    (cfg : Cfg) (fm : FileMon) → new cfg ≡ returns fm → (n : ℕ) × (fresh_monitor n ≡ fm)
unfolding new
new-fresh_monitor cfg fm h =
    Ensures-eq IsFresh (returned (new cfg)) fm (ap returned h) (on_checked (validate_cfg cfg))
  where
    on_size : (size : ℤ) → Ensures IsFresh (returned (make_monitor size))
    on_size (pos n) = elim (Bool-cases (ltb max_channel n)) [
      | inl over ↦ unfold make_monitor in rw over tt
      | inr fine ↦ unfold make_monitor in rw fine (n, refl)
    ]
    on_size (negsuc n) = unfold make_monitor in tt

    on_checked : (r : Result Error (Unit {0})) → Ensures IsFresh (returned (new_checked r cfg))
    on_checked (ok _) = unfold new_checked in on_size cfg.event_buf_size
    on_checked (err e) = unfold new_checked in tt
