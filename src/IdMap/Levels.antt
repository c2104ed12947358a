-- ===== src/IdMap/Levels.antt =====
-- What the calls of a check take from the system and give back: directories, processes, mounts.
use sysbox_libs.Prelude.{
  Bool, Bytes, List, Option, Result, [], arith, err, false, none, ok, refl, some, suc, true, ℕ, ◌+◌,
  ◌∷◌, ◌≡◌,
}
use sysbox_libs.Host.{
  Call, Error, Host, Program, clone, kill, mkdir_temp, mount, move_mount, remove_all, unmount,
  ◌>>=◌,
}
use sysbox_libs.Host.Rules.{Continues, Runs, bind_rule}

pub data Kind : Type 0 where
  temp_dir process mounted : Kind

-- The call takes one of the kind if it succeeds.
abbrev pub takes : Call → Kind → Bool
takes (mkdir_temp dir pattern) temp_dir = true
takes (clone flags) process = true
takes (move_mount fd path) mounted = true
takes (mount source target fstype data_text) mounted = true
takes _ _ = false

-- The call gives one of the kind back.
abbrev pub gives_back : Call → Kind → Bool
gives_back (remove_all path) temp_dir = true
gives_back (kill pid) process = true
gives_back (unmount path) mounted = true
gives_back _ _ = false

abbrev pub one_if : Bool → Option ℕ → ℕ
one_if true none = 1
one_if true (some e) = 0
one_if false o = 0

unfoldable pub taken : Host → List Call → Kind → ℕ
taken host [] kind = 0
taken host (c ∷ calls) kind = one_if (takes c kind) (host.failure calls c) + taken host calls kind

unfoldable pub given_back : List Call → Kind → ℕ
given_back [] kind = 0
given_back (c ∷ calls) kind = one_if (gives_back c kind) none + given_back calls kind

-- How many of each kind are held.
abbrev pub holding : ℕ → ℕ → ℕ → Kind → ℕ
holding d p m temp_dir = d
holding d p m process = p
holding d p m mounted = m

abbrev pub Level : Host → (Kind → ℕ) → List Call → Type 0
Level host held calls = (kind : Kind) → taken host calls kind ≡ given_back calls kind + held kind

module _ (host : Host) where
  pub level-cons :
      (held held' : Kind → ℕ) (c : Call) (calls : List Call)
      → Level host held calls
      → ((kind : Kind)
          → one_if (takes c kind) (host.failure calls c) + held kind
            ≡ one_if (gives_back c kind) none + held' kind)
      → Level host held' (c ∷ calls)
  unfolding taken given_back
  level-cons held held' c calls h step kind = omega (arith, h kind, step kind)

  -- A call that failed took nothing.
  pub level-failed :
      (held : Kind → ℕ) (c : Call) (calls : List Call) (e : ℕ)
      → host.failure calls c ≡ some e
      → ((kind : Kind) → gives_back c kind ≡ false)
      → Level host held calls
      → Level host held (c ∷ calls)
  level-failed held c calls e bad none_back h =
      level-cons held held c calls h
        (λ kind. rw (bad, none_back kind) (nothing (takes c kind) (held kind)))
    where
      nothing : (b : Bool) (n : ℕ) → one_if b (some e) + n ≡ 0 + n
      nothing true n = refl
      nothing false n = refl

-- The level `held'` after a success, and `held` after a
-- failure.
abbrev pub Adds :
    {A : Type 0} → Host → (Kind → ℕ) → (Kind → ℕ) → List Call → Result Error A → Type 0
Adds host held held' calls (ok a) = Level host held' calls
Adds host held held' calls (err e) = Level host held calls

module _ {A : Type 0} (host : Host) (held held' : Kind → ℕ) where
  -- A deferred call that touches no kind.
  pub Adds-quiet :
      (c : Call) (calls : List Call) (r : Result Error A)
      → ((kind : Kind) → takes c kind ≡ false)
      → ((kind : Kind) → gives_back c kind ≡ false)
      → Adds host held held' calls r
      → Adds host held held' (c ∷ calls) r
  Adds-quiet c calls (ok a) no_take no_give h =
      level-cons host held' held' c calls h (λ kind. rw (no_take kind, no_give kind) refl)
  Adds-quiet c calls (err e) no_take no_give h =
      level-cons host held held c calls h (λ kind. rw (no_take kind, no_give kind) refl)

-- One more or one less of a kind.
module _ (host : Host) (d p m : ℕ) (calls : List Call) where
  pub clone-Level :
      (flags : ℕ)
      → host.failure calls (clone flags) ≡ none
      → Level host (holding d p m) calls
      → Level host (holding d (suc p) m) (clone flags ∷ calls)
  clone-Level flags good h = level-cons host _ _ (clone flags) calls h (λ kind. rw good (step kind))
    where
      step :
          (kind : Kind)
          → one_if (takes (clone flags) kind) none + holding d p m kind
            ≡ 0 + holding d (suc p) m kind
      step temp_dir = refl
      step process = omega arith
      step mounted = refl

  pub kill-Level :
      (pid : ℕ)
      → Level host (holding d (suc p) m) calls
      → Level host (holding d p m) (kill pid ∷ calls)
  kill-Level pid h = level-cons host _ _ (kill pid) calls h step
    where
      step :
          (kind : Kind)
          → 0 + holding d (suc p) m kind
            ≡ one_if (gives_back (kill pid) kind) none + holding d p m kind
      step temp_dir = refl
      step process = omega arith
      step mounted = refl

  pub attach-Level :
      (c : Call)
      → takes c ≡ takes (move_mount 0 [])
      → gives_back c ≡ gives_back (move_mount 0 [])
      → host.failure calls c ≡ none
      → Level host (holding d p m) calls
      → Level host (holding d p (suc m)) (c ∷ calls)
  attach-Level c same same' good h =
      level-cons host _ _ c calls h (λ kind. rw (good, same, same') (step kind))
    where
      step :
          (kind : Kind)
          → one_if (takes (move_mount 0 []) kind) none + holding d p m kind
            ≡ 0 + holding d p (suc m) kind
      step temp_dir = refl
      step process = refl
      step mounted = omega arith

  pub unmount-Level :
      (path : Bytes)
      → Level host (holding d p (suc m)) calls
      → Level host (holding d p m) (unmount path ∷ calls)
  unmount-Level path h = level-cons host _ _ (unmount path) calls h step
    where
      step :
          (kind : Kind)
          → 0 + holding d p (suc m) kind
            ≡ one_if (gives_back (unmount path) kind) none + holding d p m kind
      step temp_dir = refl
      step process = refl
      step mounted = omega arith

  pub mkdir_temp-Level :
      (dir pattern : Bytes)
      → host.failure calls (mkdir_temp dir pattern) ≡ none
      → Level host (holding d p m) calls
      → Level host (holding (suc d) p m) (mkdir_temp dir pattern ∷ calls)
  mkdir_temp-Level dir pattern good h =
      level-cons host _ _ (mkdir_temp dir pattern) calls h (λ kind. rw good (step kind))
    where
      step :
          (kind : Kind)
          → one_if (takes (mkdir_temp dir pattern) kind) none + holding d p m kind
            ≡ 0 + holding (suc d) p m kind
      step temp_dir = omega arith
      step process = refl
      step mounted = refl

  pub remove_all-Level :
      (path : Bytes)
      → Level host (holding (suc d) p m) calls
      → Level host (holding d p m) (remove_all path ∷ calls)
  remove_all-Level path h = level-cons host _ _ (remove_all path) calls h step
    where
      step :
          (kind : Kind)
          → 0 + holding (suc d) p m kind
            ≡ one_if (gives_back (remove_all path) kind) none + holding d p m kind
      step temp_dir = omega arith
      step process = refl
      step mounted = refl

Adds-Continues :
    {A B : Type 0} (host : Host) (held held' : Kind → ℕ) (Q : List Call → Result Error B → Type 0)
    (f : A → Program B) (calls : List Call) (r : Result Error A)
    → Adds host held held' calls r
    → ((e : Error) → Level host held calls → Q calls (err e))
    → ((a : A) → Level host held' calls → Runs Q (f a) calls)
    → Continues Q f calls r
Adds-Continues host held held' Q f calls (ok a) h bad good = good a h
Adds-Continues host held held' Q f calls (err e) h bad good = bad e h

-- A first part that adds, and what follows it.
pub Adds-bind :
    {A B : Type 0} (host : Host) (held held' : Kind → ℕ) (Q : List Call → Result Error B → Type 0)
    (first : Program A) (f : A → Program B) (calls : List Call)
    → Runs (Adds host held held') first calls
    → ((e : Error) (calls' : List Call) → Level host held calls' → Q calls' (err e))
    → ((a : A) (calls' : List Call) → Level host held' calls' → Runs Q (f a) calls')
    → Runs Q (first >>= f) calls
Adds-bind host held held' Q first f calls h bad good = bind_rule Q first f calls (
    Adds-Continues host held held' Q f (first calls).0 (first calls).1 h (λ e h'. bad e _ h')
      (λ a h'. good a _ h'))
