-- ===== src/PidMonitor/Progress.antt =====
-- When the monitor thread of pidmonitor is blocked, and how it stops.
use sysbox_libs.Prelude.{
  ◌≤◌, ◌<◌, ◌≡◌, ◌≢◌, refl, none, some, List, [], ◌∷◌, ◌++◌, arith, Bytes, length, lt→ltb, ap,
}
use sysbox_libs.Prelude.Maybe.{◌>>=◌}
use sysbox_libs.PidMonitor.Events.{Stat, PidEvent}
use sysbox_libs.PidMonitor.Monitor.{
  PidMon, Phase, polling, stopping, exited, scanned, sent, event_ch_cap, monitor_step, monitor_at,
  send, close, close_at, wait_event, receive,
}

send-full :
    (es : List PidEvent) (next : Phase) (pm : PidMon)
    → length pm.event_ch ≤ event_ch_cap
    → send es next pm ≡ none
    → length pm.event_ch ≡ event_ch_cap
unfolding send
send-full es next pm room h = ground arith

monitor_at-full :
    (phase : Phase) (stat : Bytes → Stat) (pm : PidMon)
    → phase ≢ exited
    → length pm.event_ch ≤ event_ch_cap
    → monitor_at phase stat pm ≡ none
    → length pm.event_ch ≡ event_ch_cap
unfolding monitor_at
monitor_at-full polling stat pm live room h = cc
monitor_at-full (scanned [] rs) stat pm live room h = cc
monitor_at-full (scanned (e ∷ es) rs) stat pm live room h = send-full _ _ pm room h
monitor_at-full (sent rs) stat pm live room h = cc
monitor_at-full stopping stat pm live room h = send-full _ _ pm room h
monitor_at-full exited stat pm live room h = absurd (live refl)

send-some :
    (es : List PidEvent) (next : Phase) (pm : PidMon)
    → length pm.event_ch < event_ch_cap
    → send es next pm ≡ some (record pm { event_ch = pm.event_ch ++ es ∷ []; phase = next })
unfolding send
send-some es next pm room = rw (lt→ltb (length pm.event_ch) event_ch_cap room) refl

monitor_at-some :
    (phase : Phase) (stat : Bytes → Stat) (pm : PidMon)
    → phase ≢ exited
    → length pm.event_ch < event_ch_cap
    → (pm' : PidMon) × (monitor_at phase stat pm ≡ some pm')
unfolding monitor_at
monitor_at-some polling stat pm live room = (_, refl)
monitor_at-some (scanned [] rs) stat pm live room = (_, refl)
monitor_at-some (scanned (e ∷ es) rs) stat pm live room = (_, send-some (e ∷ es) (sent rs) pm room)
monitor_at-some (sent rs) stat pm live room = (_, refl)
monitor_at-some stopping stat pm live room = (_, send-some [] exited pm room)
monitor_at-some exited stat pm live room = absurd (live refl)

receive-full :
    (ch : List (List PidEvent)) (pm : PidMon)
    → length ch ≡ event_ch_cap
    → (es : List PidEvent) × (rest : List (List PidEvent)) × (receive ch pm
        ≡ some (es, record pm { event_ch = rest }))
      × (ch ≡ es ∷ rest)
unfolding receive
receive-full [] pm h = absurd (omega arith)
receive-full (es ∷ rest) pm h = (es, rest, refl, refl)

-- If the monitor thread has not exited and its channel is within its room, it is blocked only when
-- the channel is full; then WaitEvent is not blocked: it returns the oldest list of events, and
-- after it the monitor thread can take its step.
pub blocked-wait_event :
    (stat : Bytes → Stat) (pm : PidMon)
    → pm.phase ≢ exited
    → length pm.event_ch ≤ event_ch_cap
    → monitor_step stat pm ≡ none
    → (length pm.event_ch ≡ event_ch_cap)
      × ((es : List PidEvent) × (pm' : PidMon) × (pm'' : PidMon) × (wait_event pm ≡ some (es, pm'))
          × (pm.event_ch ≡ es ∷ pm'.event_ch)
          × (monitor_step stat pm' ≡ some pm''))
unfolding monitor_step wait_event
blocked-wait_event stat pm live room h =
    let full = monitor_at-full pm.phase stat pm live room h in
    let (es, rest, got, split) = receive-full pm.event_ch pm full in
    let (pm'', stepped) =
      monitor_at-some pm.phase stat (record pm { event_ch = rest }) live
        (omega (arith, full, ap length split)) in
    (full, (es, record pm { event_ch = rest }, pm'', got, split, stepped))

-- `Close` at the top of the loop, with room in the channel, makes the monitor thread push an empty
-- list behind what the channel holds and exit, and leaves the table alone; while the thread is
-- anywhere else, or has exited, `Close` is blocked.
pub close_lem :
    (stat : Bytes → Stat) (pm : PidMon)
    → length pm.event_ch < event_ch_cap
    → (pm.phase ≡ polling
        → (close pm >>= monitor_step stat)
          ≡ some (record pm { event_ch = pm.event_ch ++ [] ∷ []; phase = exited }))
      × (pm.phase ≢ polling → close pm ≡ none)
unfolding close monitor_step send
close_lem stat pm room = (
  λ at. rw (at, lt→ltb (length pm.event_ch) event_ch_cap room) refl,
  λ ne. close_at-none pm.phase pm ne,
)
  where
    close_at-none : (phase : Phase) (pm : PidMon) → phase ≢ polling → close_at phase pm ≡ none
    close_at-none polling pm ne = absurd (ne refl)
    close_at-none (scanned es rs) pm ne = refl
    close_at-none (sent rs) pm ne = refl
    close_at-none stopping pm ne = refl
    close_at-none exited pm ne = refl
