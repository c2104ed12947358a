-- ===== src/FileMonitor/Safety.antt =====
-- What holds of fileMonitor after every interleaving of its thread with its clients.
use sysbox_libs.Prelude.{
  ◌≤◌, ◌≡◌, refl, Bool, true, some, List, [], ◌∷◌, arith, Bytes, bytes_comparable, length, All,
  Bool-cases, inl, inr, or_left, or_right, eq_refl,
}
use sysbox_libs.Prelude.Maybe.{Ensures, Ensures-bind, Ensures-eq}
use sysbox_libs.Prelude.Table.{HasKeys, delete-All, delete-HasKeys}
use sysbox_libs.FileMonitor.Monitor.{FileMon, thread_step, remove, close, events, Cfg, returns, new}
use sysbox_libs.FileMonitor.Trace.{
  Action, adds, removes, receives, closes, wakes, step, run, asks, sees_gone, ever, IsJust,
  is_present,
}
use sysbox_libs.FileMonitor.Invariant.{Inv, Asked, thread-Inv, receive-Inv, add-Inv}
use sysbox_libs.FileMonitor.Monitor.{fresh_monitor}
use sysbox_libs.FileMonitor.Trace.{new-fresh_monitor}
use sysbox_libs.Prelude.{ℕ}

module _ (asked gone : Bytes → Bool) where
  pub step-Inv :
      (a : Action) (fm : FileMon)
      → ((f : Bytes) → asks a f ≡ true → asked f ≡ true)
      → ((f : Bytes) → sees_gone a f ≡ true → gone f ≡ true)
      → Inv asked gone fm
      → Ensures (Inv asked gone) (step a fm)
  unfolding thread_step events remove close
  step-Inv (adds f) fm ha hg inv = add-Inv asked gone f fm (ha f (eq_refl f)) inv
  step-Inv (removes f) fm ha hg inv = record {
    keyed = delete-HasKeys f fm.file_table inv.keyed;
    known = delete-All (Asked asked) f fm.file_table inv.known;
    room = inv.room;
    queued = inv.queued;
    held = inv.held;
    present = inv.present;
  }
  step-Inv receives fm ha hg inv = receive-Inv asked gone fm.event_ch fm refl inv
  step-Inv closes fm ha hg inv = elim (Bool-cases fm.stopped) [
    | inl again ↦ rw again tt
    | inr once ↦ rw once (record {
      keyed = inv.keyed;
      known = inv.known;
      room = inv.room;
      queued = inv.queued;
      held = inv.held;
      present = inv.present;
    })
  ]
  step-Inv (wakes w) fm ha hg inv = thread-Inv asked gone fm.phase w fm hg inv.held inv.present inv

  run-Inv :
      (actions : List Action) (fm : FileMon)
      → ((f : Bytes) → ever asks actions f ≡ true → asked f ≡ true)
      → ((f : Bytes) → ever sees_gone actions f ≡ true → gone f ≡ true)
      → Inv asked gone fm
      → Ensures (Inv asked gone) (run actions fm)
  unfolding run
  run-Inv [] fm ha hg inv = inv
  run-Inv (a ∷ rest) fm ha hg inv =
      Ensures-bind (Inv asked gone) (Inv asked gone) (step a fm) (run rest)
        (step-Inv a fm (λ f h. ha f (or_left _ _ h)) (λ f h. hg f (or_left _ _ h)) inv)
        (λ q. run-Inv rest q (λ f h. ha f (or_right _ _ h)) (λ f h. hg f (or_right _ _ h)))

  fresh_monitor-Inv : (n : ℕ) → Inv asked gone (fresh_monitor n)
  fresh_monitor-Inv n = record {
    keyed = tt;
    known = tt;
    room = omega arith;
    queued = tt;
    held = tt;
    present = refl;
  }

  pub new-Inv : (cfg : Cfg) (fm : FileMon) → new cfg ≡ returns fm → Inv asked gone fm
  new-Inv cfg fm h =
      let (n, fresh) = new-fresh_monitor cfg fm h in rw (← fresh) (fresh_monitor-Inv n)

-- After any interleaving of the thread with calls of Add, Remove, Close and receives from the
-- channel, from a monitor that `New` made, none of which is blocked or panics: the table has one
-- entry for each file, the channel is within the size of its buffer, every event in it is of a
-- file that some call asked for and that, at some wake-up of the thread, did not exist or could
-- not be looked up, and `running` is set exactly while there is a thread.
pub run-new_events :
    (cfg : Cfg) (start fm : FileMon) (actions : List Action)
    → new cfg ≡ returns start
    → run actions start ≡ some fm
    → HasKeys fm.file_table
      × (length fm.event_ch ≤ fm.cap)
      × All (All (IsJust (ever asks actions) (ever sees_gone actions))) fm.event_ch
      × (fm.running ≡ is_present fm.phase)
run-new_events cfg start fm actions made ran =
    let asked = ever asks actions in
    let gone = ever sees_gone actions in
    let inv = Ensures-eq (Inv asked gone) (run actions start) fm ran (
      run-Inv asked gone actions start (λ f h. h) (λ f h. h) (new-Inv asked gone cfg start made)) in
    (inv.keyed, inv.room, inv.queued, inv.present)
