-- ===== src/FileMonitor/Invariant.antt =====
-- The invariant of fileMonitor, and that the steps of its thread and its operations keep it.
use sysbox_libs.Prelude.{
  ◌≤◌, ◌≡◌, refl, ap, Bool, true, false, not, none, some, List, [], ◌∷◌, arith, Bytes,
  bytes_comparable, if◌then◌else◌, map, length, length-append, All, All-append, Bool-cases, inl,
  inr, ltb, ltb→lt,
}
use sysbox_libs.Prelude.Maybe.{◌>>=◌, Ensures}
use sysbox_libs.Prelude.Table.{
  Table, HasKeys, insert, delete, insert-All, delete-All, insert-HasKeys, delete-HasKeys,
}
use sysbox_libs.FileMonitor.Monitor.{
  Stat, Event, FileMon, Phase, absent, waiting, stopping, scanned, sent, cleaned, leaving, Wake,
  ticker, stop_ch, is_gone, gone_event, remove_all, send, thread_at, wake_up, is_empty, add,
  receive, hand_over,
}
use sysbox_libs.FileMonitor.Turn.{gone_files, scan_files-gone}
use sysbox_libs.FileMonitor.Trace.{wakes, sees_gone, IsJust, is_present}

abbrev pub Asked : (Bytes → Bool) → Bytes × Bool → Type 0
Asked asked entry = asked entry.0 ≡ true

abbrev pub Held : (Bytes → Bool) → (Bytes → Bool) → Phase → Type 0
Held asked gone (scanned es rs) = All (IsJust asked gone) es
Held asked gone _ = Unit

pub record Inv (asked gone : Bytes → Bool) (fm : FileMon) : Type 0 where
  pub keyed : HasKeys fm.file_table
  pub known : All (Asked asked) fm.file_table
  pub room : length fm.event_ch ≤ fm.cap
  pub queued : All (All (IsJust asked gone)) fm.event_ch
  pub held : Held asked gone fm.phase
  pub present : fm.running ≡ is_present fm.phase

module _ (asked gone : Bytes → Bool) where
  gone_files-IsJust :
      (stat : Bytes → Stat) (t : Table Bytes Bool)
      → ((f : Bytes) → is_gone stat f ≡ true → gone f ≡ true)
      → All (Asked asked) t
      → All (IsJust asked gone) (map (gone_event stat) (gone_files stat t))
  unfolding gone_event
  gone_files-IsJust stat [] w k = tt
  gone_files-IsJust stat ((f, v) ∷ t) w k = ground (arith, gone_files-IsJust stat t w k.1, w f)

  remove_all-HasKeys :
      (rs : List Event) (t : Table Bytes Bool) → HasKeys t → HasKeys (remove_all rs t)
  unfolding remove_all
  remove_all-HasKeys [] t h = h
  remove_all-HasKeys (r ∷ rs) t h =
      remove_all-HasKeys rs (delete r.filename t) (delete-HasKeys r.filename t h)

  remove_all-known :
      (rs : List Event) (t : Table Bytes Bool)
      → All (Asked asked) t
      → All (Asked asked) (remove_all rs t)
  unfolding remove_all
  remove_all-known [] t k = k
  remove_all-known (r ∷ rs) t k =
      remove_all-known rs (delete r.filename t) (delete-All (Asked asked) r.filename t k)

  on_move :
      (phase : Phase) (fm : FileMon)
      → fm.running ≡ true
      → is_present phase ≡ true
      → Held asked gone phase
      → Inv asked gone fm
      → Inv asked gone (record fm { phase = phase })
  on_move phase fm on there held inv = record {
    keyed = inv.keyed;
    known = inv.known;
    room = inv.room;
    queued = inv.queued;
    held = held;
    present = rw (on, there) refl;
  }

  clean-Inv :
      (rs : List Event) (fm : FileMon)
      → fm.running ≡ true
      → Inv asked gone fm
      → Inv asked gone (record fm { file_table = remove_all rs fm.file_table; phase = cleaned })
  clean-Inv rs fm on inv = record {
    keyed = remove_all-HasKeys rs fm.file_table inv.keyed;
    known = remove_all-known rs fm.file_table inv.known;
    room = inv.room;
    queued = inv.queued;
    held = tt;
    present = on;
  }

  leave-Inv :
      (fm : FileMon)
      → Inv asked gone fm
      → Inv asked gone (record fm { running = false; phase = absent })
  leave-Inv fm inv = record {
    keyed = inv.keyed;
    known = inv.known;
    room = inv.room;
    queued = inv.queued;
    held = tt;
    present = refl;
  }

  send-Inv :
      (es : List Event) (next : Phase) (fm : FileMon)
      → fm.running ≡ is_present next
      → All (IsJust asked gone) es
      → Held asked gone next
      → Inv asked gone fm
      → Ensures (Inv asked gone) (send es next fm)
  unfolding send
  send-Inv es next fm on js held inv = elim (Bool-cases (ltb (length fm.event_ch) fm.cap)) [
    | inl fits ↦ rw fits (record {
      keyed = inv.keyed;
      known = inv.known;
      room = omega (arith, ltb→lt _ _ fits, length-append fm.event_ch (es ∷ []));
      queued = All-append (All (IsJust asked gone)) fm.event_ch (es ∷ []) inv.queued (js, tt);
      held = held;
      present = on;
    })
    | inr full ↦ rw full tt
  ]

  if-Inv :
      (b : Bool) (fm : FileMon)
      → Inv asked gone fm
      → Ensures (Inv asked gone) (if b then some fm else none)
  if-Inv true fm inv = inv
  if-Inv false fm inv = tt

  wake_up-Inv :
      (w : Wake) (fm : FileMon)
      → ((f : Bytes) → sees_gone (wakes w) f ≡ true → gone f ≡ true)
      → fm.running ≡ true
      → Inv asked gone fm
      → Ensures (Inv asked gone) (wake_up w fm)
  unfolding wake_up
  wake_up-Inv (ticker stat) fm hg on inv =
      rw (scan_files-gone stat fm.file_table [] [])
        (on_move _ fm on refl (gone_files-IsJust stat fm.file_table hg inv.known) inv)
  wake_up-Inv stop_ch fm hg on inv =
      if-Inv fm.stopped (record fm { phase = stopping }) (on_move stopping fm on refl tt inv)

  check_empty-Inv :
      (b : Bool) (fm : FileMon)
      → fm.running ≡ true
      → Inv asked gone fm
      → Inv asked gone (record fm { phase = if b then leaving else waiting })
  check_empty-Inv true fm on inv = on_move leaving fm on refl tt inv
  check_empty-Inv false fm on inv = on_move waiting fm on refl tt inv

  pub thread-Inv :
      (phase : Phase) (w : Wake) (fm : FileMon)
      → ((f : Bytes) → sees_gone (wakes w) f ≡ true → gone f ≡ true)
      → Held asked gone phase
      → fm.running ≡ is_present phase
      → Inv asked gone fm
      → Ensures (Inv asked gone) (thread_at phase w fm)
  unfolding thread_at
  thread-Inv absent w fm hg held on inv = tt
  thread-Inv waiting w fm hg held on inv = wake_up-Inv w fm hg on inv
  thread-Inv stopping w fm hg held on inv = send-Inv [] leaving fm on tt tt inv
  thread-Inv (scanned [] rs) w fm hg held on inv = on_move (sent rs) fm on refl tt inv
  thread-Inv (scanned (e ∷ es) rs) w fm hg held on inv =
      send-Inv (e ∷ es) (sent rs) fm on held tt inv
  thread-Inv (sent rs) w fm hg held on inv = clean-Inv rs fm on inv
  thread-Inv cleaned w fm hg held on inv = check_empty-Inv (is_empty fm.file_table) fm on inv
  thread-Inv leaving w fm hg held on inv = leave-Inv fm inv

  hand_over-Inv :
      (phase : Phase) (fm : FileMon)
      → fm.running ≡ is_present phase
      → Inv asked gone fm
      → Ensures (Inv asked gone) (hand_over phase fm >>= λ r. some r.1)
  unfolding hand_over
  hand_over-Inv (scanned (e ∷ es) rs) fm on inv = on_move (sent rs) fm on refl tt inv
  hand_over-Inv stopping fm on inv = on_move leaving fm on refl tt inv
  hand_over-Inv _ fm on inv = tt

  pub receive-Inv :
      (ch : List (List Event)) (fm : FileMon)
      → ch ≡ fm.event_ch
      → Inv asked gone fm
      → Ensures (Inv asked gone) (receive ch fm >>= λ r. some r.1)
  unfolding receive
  receive-Inv [] fm e inv = hand_over-Inv fm.phase fm inv.present inv
  receive-Inv (es ∷ rest) fm e inv = record {
    keyed = inv.keyed;
    known = inv.known;
    room = omega (arith, inv.room, ap length e);
    queued = (rw (← e) at inv.queued).1;
    held = inv.held;
    present = inv.present;
  }

  added-Inv :
      (on : Bool) (f : Bytes) (fm : FileMon)
      → asked f ≡ true
      → fm.running ≡ on
      → Inv asked gone fm
      → Inv asked gone (
          if not on
          then record fm {
            file_table = insert f true fm.file_table;
            running = true;
            phase = waiting;
          }
          else record fm { file_table = insert f true fm.file_table })
  added-Inv true f fm a e inv = record {
    keyed = insert-HasKeys f true fm.file_table inv.keyed;
    known = insert-All (Asked asked) f true fm.file_table a inv.known;
    room = inv.room;
    queued = inv.queued;
    held = inv.held;
    present = inv.present;
  }
  added-Inv false f fm a e inv = record {
    keyed = insert-HasKeys f true fm.file_table inv.keyed;
    known = insert-All (Asked asked) f true fm.file_table a inv.known;
    room = inv.room;
    queued = inv.queued;
    held = tt;
    present = refl;
  }

  pub add-Inv :
      (f : Bytes) (fm : FileMon) → asked f ≡ true → Inv asked gone fm → Inv asked gone (add f fm)
  unfolding add
  add-Inv f fm a inv = added-Inv fm.running f fm a refl inv
