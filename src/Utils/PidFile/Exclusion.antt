-- ===== src/Utils/PidFile/Exclusion.antt =====
-- One pid file for two processes, in utils/pidfile.go.
use sysbox_libs.Prelude.{
  arith, false, Bool, Bytes, List, Option, Result, [], ap, codes, eq_refl, err, none, ok, refl,
  some, true, ℕ, ◌++◌, ◌<◌, ◌==◌, ◌^◌, ◌∙◌, ◌∷◌, ◌≡◌, nat_comparable, bytes_comparable,
}
use sysbox_libs.Prelude.Int.{pos}
use sysbox_libs.Host.{
  Call, Error, Host, answer, get_number, get_text, getpid, perform, read_link, read_whole, refused,
  then_run, write_file, ◌>>=◌,
}
use sysbox_libs.Utils.PidFile.{
  check_pid_file, create_pid_file, exe_path, is_program, is_program_running, number_in, on_pid,
  pid_text, read_pid_file, running,
}
use sysbox_libs.Strings.Atoi.{atoi-format_uint}
use sysbox_libs.Strings.Decimal.{format_uint}
use sysbox_libs.Strings.Utf8.{plain_spaces, plain_spaces-append}
use sysbox_libs.Strings.Trim.{Free, is_space, trim, trim-around}
use sysbox_libs.Strings.Fields.{format_uint-IsWord, is_outside, word-IsAscii}
use sysbox_libs.Host.Rules.{Continues, bind_rule, number_rule}
use sysbox_libs.Strings.Path.{base}
use mathlib.Core.Path.{subst}

no_space : (w : Bytes) → Free is_outside w → Free is_space w
no_space [] h = refl
no_space (c ∷ w) h = ground (arith, no_space w)

trim-pid_text : (pid : ℕ) → trim is_space (plain_spaces (pid_text pid)) ≡ format_uint pid
trim-pid_text pid =
    rw
      (plain_spaces-append (format_uint pid) (codes "\n")
        (word-IsAscii (format_uint pid) (format_uint-IsWord pid).0))
      (unfold plain_spaces in
        trim-around is_space [] (format_uint pid) (codes "\n") refl
          (no_space (format_uint pid) (format_uint-IsWord pid).0) refl)

read_pid_file-pid_text :
    (host : Host) (pid_file : Bytes) (pid : ℕ) (calls : List Call)
    → pid < 2 ^ 63
    → host.failure calls (read_whole pid_file) ≡ none
    → host.text calls (read_whole pid_file) ≡ pid_text pid
    → read_pid_file host pid_file calls ≡ (read_whole pid_file ∷ calls, ok (pos pid))
unfolding read_pid_file ◌>>=◌ then_run get_text number_in answer
read_pid_file-pid_text host pid_file pid calls h f t =
    rw (f, t, trim-pid_text pid, atoi-format_uint pid h) refl

-- What a process that created its pid file has done last.
abbrev pub Created : Host → Bytes → List Call × Result Error (Unit {0}) → Type 0
Created host pid_file (calls, ok a) =
    (rest : List Call) × (calls
      ≡ write_file pid_file (pid_text (host.number rest getpid)) 0x100 ∷ getpid ∷ rest)
Created host pid_file (calls, err e) = Unit

module _ (host : Host) (program pid_file : Bytes) where
  create_pid_file-Created :
      (calls : List Call) → Created host pid_file (create_pid_file host program pid_file calls)
  unfolding create_pid_file
  create_pid_file-Created calls = bind_rule Q (check_pid_file host program pid_file) _ calls (
      checked (check_pid_file host program pid_file calls).0
        (check_pid_file host program pid_file calls).1)
    where
      Q : List Call → Result Error (Unit {0}) → Type 0
      Q calls r = Created host pid_file (calls, r)

      wrote :
          (rest : List Call) (c : Call) (o : Option ℕ)
          → c ≡ write_file pid_file (pid_text (host.number rest getpid)) 0x100
          → Q (c ∷ getpid ∷ rest) (answer c o tt)
      wrote rest c none e = unfold answer in (rest, ap (λ d. d ∷ getpid ∷ rest) e)
      wrote rest c (some n) e = unfold answer in tt

      checked :
          (calls : List Call) (r : Result Error (Unit {0}))
          → Continues Q
              (λ _. get_number host getpid >>= λ pid.
                perform host (write_file pid_file (pid_text pid) 0x100))
              calls
              r
      checked calls (err e) = tt
      checked calls (ok a) =
          number_rule host Q getpid calls (λ e bad. tt) _
            (λ good.
              unfold perform in
              wrote calls (write_file pid_file (pid_text (host.number calls getpid)) 0x100)
                (host.failure (getpid ∷ calls)
                  (write_file pid_file (pid_text (host.number calls getpid)) 0x100))
                refl)

  check_pid_file-pid_text :
      (pid : ℕ) (target : Bytes) (calls : List Call)
      → pid < 2 ^ 63
      → host.failure calls (read_whole pid_file) ≡ none
      → host.text calls (read_whole pid_file) ≡ pid_text pid
      → host.failure (read_whole pid_file ∷ calls) (read_link (exe_path (pos pid))) ≡ none
      → host.text (read_whole pid_file ∷ calls) (read_link (exe_path (pos pid))) ≡ target
      → check_pid_file host program pid_file calls ≡ (
        read_link (exe_path (pos pid)) ∷ read_whole pid_file ∷ calls,
        (running program (program == base target) []).1,
      )
  unfolding check_pid_file on_pid is_program_running is_program get_text answer ◌>>=◌ then_run
  check_pid_file-pid_text pid target calls h f t f' t' =
      rw (read_pid_file-pid_text host pid_file pid calls h f t, f', t')
        (by_answer (program == base target))
    where
      by_answer :
          (b : Bool)
          → running program b (read_link (exe_path (pos pid)) ∷ read_whole pid_file ∷ calls) ≡ (
            read_link (exe_path (pos pid)) ∷ read_whole pid_file ∷ calls,
            (running program b []).1,
          )
      by_answer true = unfold running in refl
      by_answer false = unfold running in refl

create-refused :
    (host : Host) (program pid_file : Bytes) (calls calls' : List Call) (e : Error)
    → check_pid_file host program pid_file calls ≡ (calls', err e)
    → create_pid_file host program pid_file calls ≡ (calls', err e)
unfolding create_pid_file ◌>>=◌ then_run
create-refused host program pid_file calls calls' e h = rw h refl

running-named :
    (program target : Bytes)
    → base target ≡ program
    → (running program (program == base target) []).1
      ≡ err (refused (program ++ codes " program is running"))
running-named program target e = rw (e, eq_refl program) (unfold running in refl)

refused_now :
    (host : Host) (program pid_file : Bytes) (pid : ℕ) (calls : List Call)
    → pid < 2 ^ 63
    → (host.failure calls (read_whole pid_file) ≡ none)
      × (host.text calls (read_whole pid_file) ≡ pid_text pid)
    → ((now : List Call)
        → (host.failure now (read_link (exe_path (pos pid))) ≡ none)
          × (base (host.text now (read_link (exe_path (pos pid)))) ≡ program))
    → create_pid_file host program pid_file calls ≡ (
      read_link (exe_path (pos pid)) ∷ read_whole pid_file ∷ calls,
      err (refused (program ++ codes " program is running")),
    )
refused_now host program pid_file pid calls small kept alive =
    let now = read_whole pid_file ∷ calls in
    let link = read_link (exe_path (pos pid)) in
    create-refused host program pid_file calls (link ∷ now)
      (refused (program ++ codes " program is running"))
      (check_pid_file-pid_text host program pid_file pid (host.text now link) calls small kept.0
          kept.1 (alive now).0 refl
        ∙ ap (λ r. (link ∷ now, r)) (running-named program (host.text now link) (alive now).1))

-- Where CreatePidFile has succeeded and the file keeps what was written, a second CreatePidFile
-- for the same program is refused and writes nothing, as long as the link of the process that
-- wrote its pid, a number below 2^63, names the program.
pub create_pid_file-create_pid_file :
    (host : Host) (program pid_file : Bytes) (calls calls' : List Call)
    → ((before : List Call) → host.number before getpid < 2 ^ 63)
    → ((before : List Call) (text : Bytes) (mode : ℕ)
        → (host.failure (write_file pid_file text mode ∷ before) (read_whole pid_file) ≡ none)
          × (host.text (write_file pid_file text mode ∷ before) (read_whole pid_file) ≡ text))
    → ((before now : List Call)
        → (host.failure now (read_link (exe_path (pos (host.number before getpid)))) ≡ none)
          × (base (host.text now (read_link (exe_path (pos (host.number before getpid)))))
              ≡ program))
    → create_pid_file host program pid_file calls ≡ (calls', ok tt)
    → (pid : ℕ) × (create_pid_file host program pid_file calls' ≡ (
      read_link (exe_path (pos pid)) ∷ read_whole pid_file ∷ calls',
      err (refused (program ++ codes " program is running")),
    ))
create_pid_file-create_pid_file host program pid_file calls calls' small kept alive h =
    refused_again calls' created
  where
    created : Created host pid_file (calls', ok tt)
    created = subst (Created host pid_file) h (create_pid_file-Created host program pid_file calls)

    refused_again :
        (calls' : List Call)
        → Created host pid_file (calls', ok tt)
        → (pid : ℕ) × (create_pid_file host program pid_file calls' ≡ (
          read_link (exe_path (pos pid)) ∷ read_whole pid_file ∷ calls',
          err (refused (program ++ codes " program is running")),
        ))
    refused_again calls' (rest, e) =
        let pid = host.number rest getpid in
        rw e (
          pid,
          refused_now host program pid_file pid
              (write_file pid_file (pid_text pid) 0x100 ∷ getpid ∷ rest) (small rest)
              (kept (getpid ∷ rest) (pid_text pid) 0x100) (λ now. alive rest now),
        )
