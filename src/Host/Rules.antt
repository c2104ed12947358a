-- ===== src/Host/Rules.antt =====
-- Rules for what holds of the calls and the result of a program.
use sysbox_libs.Prelude.{Bytes, List, Option, Result, err, none, ok, refl, some, ℕ, ◌++◌, ◌∷◌, ◌≡◌}
use sysbox_libs.Host.{
  Call, Error, Host, Program, answer, defer, failed, get_number, get_text, perform, then_run, ◌>>=◌,
}

-- The condition holds of the calls and the result.
abbrev pub Runs :
    {A : Type 0} → (List Call → Result Error A → Type 0) → Program A → List Call → Type 0
Runs Q p calls = Q (p calls).0 (p calls).1

-- What is to hold of a first part, so that the condition holds of the whole.
abbrev pub Continues :
    {A B : Type 0}
    → (List Call → Result Error B → Type 0)
    → (A → Program B)
    → List Call
    → Result Error A
    → Type 0
Continues Q f calls (ok a) = Runs Q (f a) calls
Continues Q f calls (err e) = Q calls (err e)

module _ {A B : Type 0} (Q : List Call → Result Error B → Type 0) where
  continue_with :
      (f : A → Program B) (calls : List Call) (r : Result Error A)
      → Continues Q f calls r
      → Q (then_run f (calls, r)).0 (then_run f (calls, r)).1
  unfolding then_run
  continue_with f calls (ok a) h = h
  continue_with f calls (err e) h = h

  pub bind_rule :
      (m : Program A) (f : A → Program B) (calls : List Call)
      → Runs (Continues Q f) m calls
      → Runs Q (m >>= f) calls
  unfolding ◌>>=◌
  bind_rule m f calls h = continue_with f (m calls).0 (m calls).1 h

  answer_rule :
      (f : A → Program B) (c : Call) (calls : List Call) (o : Option ℕ) (a : A)
      → ((e : ℕ) → o ≡ some e → Q calls (err (failed c e)))
      → (o ≡ none → Runs Q (f a) calls)
      → Continues Q f calls (answer c o a)
  unfolding answer
  answer_rule f c calls none a bad good = good refl
  answer_rule f c calls (some e) a bad good = bad e refl

module _ (host : Host) {B : Type 0} (Q : List Call → Result Error B → Type 0) (c : Call)
    (calls : List Call)
    (bad : (e : ℕ) → host.failure calls c ≡ some e → Q (c ∷ calls) (err (failed c e))) where
  pub perform_rule :
      (f : Unit {0} → Program B)
      → (host.failure calls c ≡ none → Runs Q (f tt) (c ∷ calls))
      → Runs Q (perform host c >>= f) calls
  unfolding perform
  perform_rule f good =
      bind_rule Q (perform host c) f calls
        (answer_rule Q f c (c ∷ calls) (host.failure calls c) tt bad good)

  pub number_rule :
      (f : ℕ → Program B)
      → (host.failure calls c ≡ none → Runs Q (f (host.number calls c)) (c ∷ calls))
      → Runs Q (get_number host c >>= f) calls
  unfolding get_number
  number_rule f good =
      bind_rule Q (get_number host c) f calls
        (answer_rule Q f c (c ∷ calls) (host.failure calls c) (host.number calls c) bad good)

  pub text_rule :
      (f : Bytes → Program B)
      → (host.failure calls c ≡ none → Runs Q (f (host.text calls c)) (c ∷ calls))
      → Runs Q (get_text host c >>= f) calls
  unfolding get_text
  text_rule f good =
      bind_rule Q (get_text host c) f calls
        (answer_rule Q f c (c ∷ calls) (host.failure calls c) (host.text calls c) bad good)

module _ {B : Type 0} (Q : List Call → Result Error B → Type 0) where
  pub defer_rule :
      (last : List Call) (p : Program B) (calls : List Call)
      → Runs (λ calls' r. Q (last ++ calls') r) p calls
      → Runs Q (defer last p) calls
  unfolding defer
  defer_rule last p calls h = h
