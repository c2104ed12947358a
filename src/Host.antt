-- ===== src/Host.antt =====
-- Programs that call the system: what they are given is any function of the calls so far.
pub mod Rules
use sysbox_libs.Prelude.{
  Bool, Bytes, List, Option, Result, err, nat_beq, none, ok, some, ℕ, ◌%◌, ◌++◌, ◌/◌, ◌∷◌,
}

-- The calls of linuxUtils/linux.go, idMap/idMapMount.go and shiftfs/shiftfs.go that change the
-- system or may fail. File descriptors and processes are numbers.
pub data Call : Type 0 where
  open_file eval_symlinks read_link open_tree unmount remove_all chdir statfs : Bytes → Call
  read_whole open_for_writing create_file remove_file : Bytes → Call
  modprobe : Bytes → Call
  mkdir chmod : Bytes → ℕ → Call
  mkdir_temp rename : Bytes → Bytes → Call
  close_fd read_file kill wait : ℕ → Call
  set_attr : ℕ → ℕ → Call
  move_mount : ℕ → Bytes → Call
  mount : Bytes → Bytes → Bytes → Bytes → Call
  write_file : Bytes → Bytes → ℕ → Call
  syscall : ℕ → List ℕ → Call
  run_command : List Bytes → Call
  getwd getpid : Call
  set_death_signal set_resuid set_resgid sleep : ℕ → Call
  clone : ℕ → Call
  write_map : ℕ → Bytes → Bytes → Call

-- The system: whether a call fails, with what error, and what it gives otherwise. The calls of
-- before are listed with the latest first.
pub record Host : Type 0 where
  pub failure : List Call → Call → Option ℕ
  pub number : List Call → Call → ℕ
  pub text : List Call → Call → Bytes

pub data Error : Type 0 where
  failed : Call → ℕ → Error
  refused : Bytes → Error

-- A program makes calls after those of before, and succeeds or fails.
abbrev pub Program : Type 0 → Type 0
Program A = List Call → List Call × Result Error A

infixl 5 ◌>>=◌ ◌>>◌
unfoldable pub then_run :
    {A B : Type 0} → (A → Program B) → List Call × Result Error A → List Call × Result Error B
then_run f (calls, ok a) = f a calls
then_run f (calls, err e) = (calls, err e)

unfoldable pub ◌>>=◌ : {A B : Type 0} → Program A → (A → Program B) → Program B
unfolding then_run
◌>>=◌ m f calls = then_run f (m calls)

unfoldable pub ◌>>◌ : {A B : Type 0} → Program A → Program B → Program B
◌>>◌ m k = m >>= λ _. k

abbrev pub return : {A : Type 0} → A → Program A
return a calls = (calls, ok a)

-- A failure that is no call's.
abbrev pub refuse : {A : Type 0} → Bytes → Program A
refuse why calls = (calls, err (refused why))

-- A call whose failure is not looked at.
abbrev pub ignore : Call → Program (Unit {0})
ignore c calls = (c ∷ calls, ok tt)

unfoldable pub answer : {A : Type 0} → Call → Option ℕ → A → Result Error A
answer c none a = ok a
answer c (some e) a = err (failed c e)

module _ (host : Host) where
  -- A call, with what it gives.
  unfoldable pub perform : Call → Program (Unit {0})
  unfolding answer
  perform c calls = (c ∷ calls, answer c (host.failure calls c) tt)

  unfoldable pub get_number : Call → Program ℕ
  unfolding answer
  get_number c calls = (c ∷ calls, answer c (host.failure calls c) (host.number calls c))

  unfoldable pub get_text : Call → Program Bytes
  unfolding answer
  get_text c calls = (c ∷ calls, answer c (host.failure calls c) (host.text calls c))

-- `defer`: the call is made when the body has ended, whether it failed or not, and its own failure
-- is not looked at.
unfoldable pub defer : {A : Type 0} → List Call → Program A → Program A
defer last body calls = let (calls', r) = body calls in (last ++ calls', r)

-- `WaitStatus.Exited` and `WaitStatus.ExitStatus`.
abbrev pub exited : ℕ → Bool
exited status = nat_beq (status % 128) 0

abbrev pub exit_status : ℕ → ℕ
exit_status status = status / 256 % 256
