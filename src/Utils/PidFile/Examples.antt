-- ===== src/Utils/PidFile/Examples.antt =====
-- Concrete pid files.
use sysbox_libs.Strings.Trim.{trim_right}
use sysbox_libs.Strings.Split.{split}
use sysbox_libs.Prelude.{
  Bytes, List, Option, [], arith, codes, err, none, ok, refl, some, ℕ, ◌++◌, ◌∷◌, ◌≡◌,
}
use sysbox_libs.Prelude.Int.{pos}
use sysbox_libs.Host.{
  Call, Host, answer, get_number, get_text, getpid, perform, read_link, read_whole, refused,
  then_run, write_file, ◌>>=◌,
}
use sysbox_libs.Strings.Path.{base}
use sysbox_libs.Utils.PidFile.{check_pid_file, create_pid_file, exe_path, on_pid, read_pid_file}
use sysbox_libs.Utils.PidFile.Exclusion.{create_pid_file-create_pid_file}
use sysbox_libs.Strings.Decimal.{format_uint}

abbrev pid_file : Bytes
pid_file = codes "/run/sysbox-mgr.pid"

abbrev mgr : Bytes
mgr = codes "sysbox-mgr"

-- A file can be read right behind its writing, and is not there before.
abbrev read_failure : List Call → Option ℕ
read_failure (write_file path text mode ∷ calls) = none
read_failure _ = some 2

abbrev failure_of : List Call → Call → Option ℕ
failure_of calls (read_whole path) = read_failure calls
failure_of calls _ = none

abbrev last_text : List Call → Bytes
last_text (write_file path text mode ∷ calls) = text
last_text _ = []

abbrev text_of : List Call → Call → Bytes
text_of calls (read_whole path) = last_text calls
text_of calls _ = codes "/usr/bin/sysbox-mgr"

abbrev one_host : Host
one_host = record { failure = failure_of; number = λ calls c. 42; text = text_of }

abbrev first_calls : List Call
first_calls = write_file pid_file (codes "42\n") 0x100 ∷ getpid ∷ read_whole pid_file ∷ []

create_test : create_pid_file one_host mgr pid_file [] ≡ (first_calls, ok tt)
unfolding create_pid_file check_pid_file read_pid_file on_pid get_text get_number perform answer
    then_run ◌>>=◌ format_uint
create_test = refl

names_mgr : base (codes "/usr/bin/sysbox-mgr") ≡ mgr
unfolding base split trim_right
names_mgr = refl

create_pid_file-create_pid_file_example :
    (pid : ℕ) × (create_pid_file one_host mgr pid_file first_calls ≡ (
      read_link (exe_path (pos pid)) ∷ read_whole pid_file ∷ first_calls,
      err (refused (mgr ++ codes " program is running")),
    ))
create_pid_file-create_pid_file_example =
    create_pid_file-create_pid_file one_host mgr pid_file [] first_calls (λ before. omega arith)
      (λ before text mode. (refl, refl)) (λ before now. (refl, names_mgr)) create_test
