-- ===== src/Watching.antt =====
-- What fileMonitor and pidmonitor both promise, as a set of watched names with a list of reports:
-- the order of the tables, the flags and the clean-up steps of the threads are forgotten.
use sysbox_libs.Prelude.{
  Bool, Comparable, Distinct, List, Option, [], contains, false, map, none, not, some, true, ◌&&◌,
  ◌++◌, ◌==◌, ◌||◌, ◌∷◌, ◌≡◌,
}
use sysbox_libs.Prelude.Maybe.{Ensures}

-- How a monitor looks at the system, at a time `W`: whether a name is gone, and the event that
-- tells of it; and whether its thread has steps that show nothing.
pub record Sight (K E W : Type 0) : Type 0 where
  pub gone : W → K → Bool
  pub event : W → K → E
  pub rests : Bool

-- What a run is seen to do: the calls, with the list that a receiver gets, and the steps of the
-- thread, at a time if it has one.
pub data Label (K E W : Type 0) : Type 0 where
  watches forgets : K → Label K E W
  refuses shuts : Label K E W
  gets : List E → Label K E W
  thread : Option W → Label K E W

-- Between turns, or in one: what has been noticed is to be reported, and then to be forgotten.
pub data Stage (K W : Type 0) : Type 0 where
  idle : Stage K W
  noticed : W → List K → Stage K W
  reported : List K → Stage K W

pub record Watch (K E W : Type 0) : Type 0 where
  pub watched : K → Bool
  pub posted : List (List E)
  pub closed : Bool
  pub stage : Stage K W

-- An empty list of events is not sent.
abbrev pub report : {E : Type 0} → List E → List (List E)
report [] = []
report (e ∷ es) = (e ∷ es) ∷ []

abbrev pub no_watch : {K E W : Type 0} → Watch K E W
no_watch = record { watched = λ g. false; posted = []; closed = false; stage = idle }

module _ {K E W : Type 0} ⦃c : Comparable K⦄ (sight : Sight K E W) where
  -- What may happen, and as what it is seen. A batch is noticed at one moment, at which it is
  -- exactly the watched names that are gone, each once; the next step of the thread posts it, if a
  -- receiver does not get it first, and the one after that forgets it. An empty list is posted only
  -- once the monitor has been closed.
  pub data Move : Label K E W → Watch K E W → Watch K E W → Type 0 where
    watch :
        (f : K) (s : Watch K E W)
        → Move (watches f) s (record s { watched = λ g. (f == g) || s.watched g })
    forget :
        (f : K) (s : Watch K E W)
        → Move (forgets f) s (record s { watched = λ g. not (f == g) && s.watched g })
    refuse : (s : Watch K E W) → Move refuses s s
    shut : (s : Watch K E W) → s.closed ≡ false → Move shuts s (record s { closed = true })
    take :
        (es : List E) (rest : List (List E)) (s : Watch K E W)
        → s.posted ≡ es ∷ rest
        → Move (gets es) s (record s { posted = rest })
    hand :
        (now : W) (f : K) (fs : List K) (s : Watch K E W)
        → s.stage ≡ noticed now (f ∷ fs)
        → s.posted ≡ []
        → Move (gets (map (sight.event now) (f ∷ fs))) s (record s { stage = reported (f ∷ fs) })
    hand_end :
        (s : Watch K E W) → s.stage ≡ idle → s.closed ≡ true → s.posted ≡ [] → Move (gets []) s s
    notice :
        (now : W) (fs : List K) (s : Watch K E W)
        → s.stage ≡ idle
        → Distinct fs
        → ((f : K) → contains fs f ≡ (s.watched f && sight.gone now f))
        → Move (thread (some now)) s (record s { stage = noticed now fs })
    post :
        (w : Option W) (now : W) (fs : List K) (s : Watch K E W)
        → s.stage ≡ noticed now fs
        → Move (thread w) s (record s {
          posted = s.posted ++ report (map (sight.event now) fs);
          stage = reported fs;
        })
    drop :
        (w : Option W) (fs : List K) (s : Watch K E W)
        → s.stage ≡ reported fs
        → Move
            (thread w)
            s
            (record s { watched = λ g. not (contains fs g) && s.watched g; stage = idle })
    finish :
        (w : Option W) (s : Watch K E W)
        → s.stage ≡ idle
        → s.closed ≡ true
        → Move (thread w) s (record s { posted = s.posted ++ [] ∷ [] })
    rest :
        (w : Option W) (s : Watch K E W) → sight.rests ≡ true → s.stage ≡ idle → Move (thread w) s s

  -- One move for each label.
  pub data Moves : List (Label K E W) → Watch K E W → Watch K E W → Type 0 where
    stay : (s : Watch K E W) → Moves [] s s
    go :
        (l : Label K E W) (ls : List (Label K E W)) (s t u : Watch K E W)
        → Move l s t
        → Moves ls t u
        → Moves (l ∷ ls) s u

  -- A monitor of which the abstract view is `Sees`.
  module _ {S : Type 0} (Sees : S → Watch K E W → Type 0) where
    -- What the abstract view may come to by one move, and by several.
    abbrev pub Steps : Label K E W → Watch K E W → S → Type 0
    Steps l s m = (t : Watch K E W) × Move l s t × Sees m t

    abbrev pub Reaches : List (Label K E W) → Watch K E W → S → Type 0
    Reaches ls s m = (t : Watch K E W) × Moves ls s t × Sees m t

    pub Reaches-then :
        (l : Label K E W) (ls : List (Label K E W)) (s t : Watch K E W) (o : Option S)
        → Move l s t
        → Ensures (Reaches ls t) o
        → Ensures (Reaches (l ∷ ls) s) o
    Reaches-then l ls s t none a h = tt
    Reaches-then l ls s t (some m) a (u, n, sees) = (u, go l ls s t u a n, sees)
