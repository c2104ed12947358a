-- ===== src/LinuxUtils/Child/Exit.antt =====
-- How a process that checks its calls ends: or_else_run over the calls that it makes.
use sysbox_libs.Prelude.{
  Bool, List, Option, [], ap, arith, false, is_some, nat_beq, none, not, or_right, refl, some, sym,
  true, ℕ, ◌&&◌, ◌*◌, ◌<◌, ◌||◌, ◌∙◌, ◌∷◌, ◌≡◌,
}
use sysbox_libs.Host.{
  Call, Host, close_fd, exit_status, exited, remove_file, set_resgid, set_resuid,
}
use sysbox_libs.LinuxUtils.Child.{
  End, Exec, become_root, checked, exit_with, exits, or_else_number, or_else_run, returns,
}

-- A call whose failure the process does not look at.
abbrev pub is_unchecked : Call → Bool
is_unchecked (remove_file path) = true
is_unchecked (close_fd fd) = true
is_unchecked _ = false

-- No checked call has failed.
abbrev pub is_clean : Host → List Call → Bool
is_clean host [] = true
is_clean host (c ∷ calls) =
    (is_unchecked c || not (is_some (host.failure calls c))) && is_clean host calls

-- The status that `wait` gives for the end of a process.
abbrev pub wait_status : End → ℕ
wait_status (exits code) = code * 256
wait_status returns = 0

-- The process exits, with 0 exactly if no checked call has failed so far.
abbrev pub Tells : Host → List Call × End → Type 0
Tells host (calls, exits code) = (nat_beq code 0 ≡ is_clean host calls) × (code < 256)
Tells host (calls, returns) = ⊥

module _ (host : Host) (P : List Call × End → Type 0) where
  checked_rule :
      (o : Option ℕ) (next broken : Exec) (calls : List Call)
      → (o ≡ none → P (next calls))
      → ((e : ℕ) → o ≡ some e → P (broken calls))
      → P (checked o next broken calls)
  unfolding checked
  checked_rule none next broken calls h k = h refl
  checked_rule (some e) next broken calls h k = k e refl

  pub or_else_run_rule :
      (c : Call) (broken next : Exec) (calls : List Call)
      → (host.failure calls c ≡ none → P (next (c ∷ calls)))
      → ((e : ℕ) → host.failure calls c ≡ some e → P (broken (c ∷ calls)))
      → P (or_else_run host c broken next calls)
  unfolding or_else_run
  or_else_run_rule c broken next calls = checked_rule (host.failure calls c) next broken (c ∷ calls)

  pub or_else_number_rule :
      (c : Call) (broken : Exec) (next : ℕ → Exec) (calls : List Call)
      → (host.failure calls c ≡ none → P (next (host.number calls c) (c ∷ calls)))
      → ((e : ℕ) → host.failure calls c ≡ some e → P (broken (c ∷ calls)))
      → P (or_else_number host c broken next calls)
  unfolding or_else_number
  or_else_number_rule c broken next calls =
      checked_rule (host.failure calls c) (next (host.number calls c)) broken (c ∷ calls)

module _ (host : Host) where
  clean_after :
      (c : Call) (calls : List Call)
      → host.failure calls c ≡ none
      → is_clean host calls ≡ true
      → is_clean host (c ∷ calls) ≡ true
  clean_after c calls e h = rw (e, h) (ground (arith, or_right (is_unchecked c) true refl))

  soiled_after :
      (c : Call) (calls : List Call) (e : ℕ)
      → is_unchecked c ≡ false
      → host.failure calls c ≡ some e
      → is_clean host (c ∷ calls) ≡ false
  soiled_after c calls e u f = rw (f, u) refl

  -- A checked call: what comes behind it begins with clean calls.
  pub or_else_run-Tells :
      (c : Call) (broken next : Exec) (calls : List Call)
      → is_unchecked c ≡ false
      → is_clean host calls ≡ true
      → (is_clean host (c ∷ calls) ≡ true → Tells host (next (c ∷ calls)))
      → (is_clean host (c ∷ calls) ≡ false → Tells host (broken (c ∷ calls)))
      → Tells host (or_else_run host c broken next calls)
  or_else_run-Tells c broken next calls u h good bad =
      or_else_run_rule host (Tells host) c broken next calls (λ e. good (clean_after c calls e h))
        (λ n e. bad (soiled_after c calls n u e))

  pub or_else_number-Tells :
      (c : Call) (broken : Exec) (next : ℕ → Exec) (calls : List Call)
      → is_unchecked c ≡ false
      → is_clean host calls ≡ true
      → (is_clean host (c ∷ calls) ≡ true → Tells host (next (host.number calls c) (c ∷ calls)))
      → (is_clean host (c ∷ calls) ≡ false → Tells host (broken (c ∷ calls)))
      → Tells host (or_else_number host c broken next calls)
  or_else_number-Tells c broken next calls u h good bad =
      or_else_number_rule host (Tells host) c broken next calls
        (λ e. good (clean_after c calls e h)) (λ n e. bad (soiled_after c calls n u e))

  pub become_root-Tells :
      (next : Exec)
      → ((calls : List Call) → is_clean host calls ≡ true → Tells host (next calls))
      → Tells host (become_root host next [])
  unfolding become_root
  become_root-Tells next h =
      or_else_run-Tells (set_resuid 0) (exit_with 1) _ [] refl refl
        (λ ok1.
          or_else_run-Tells (set_resgid 0) (exit_with 1) next (set_resuid 0 ∷ []) refl ok1
            (λ ok2. h (set_resgid 0 ∷ set_resuid 0 ∷ []) ok2) (λ bad2. (sym bad2, omega arith)))
        (λ bad1. (sym bad1, omega arith))

-- The parent reads in the status whether the calls of the child went well.
pub status-Tells :
    (host : Host) (calls : List Call) (end : End)
    → Tells host (calls, end)
    → (exited (wait_status end) ≡ true)
      × (nat_beq (exit_status (wait_status end)) 0 ≡ is_clean host calls)
status-Tells host calls (exits code) h = (ground arith, code_back ∙ h.0)
  where
    code_back : nat_beq (exit_status (code * 256)) 0 ≡ nat_beq code 0
    code_back = ap (λ n. nat_beq n 0) (omega (arith, h.1))
status-Tells host calls returns h = absurd h
