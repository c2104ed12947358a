-- ===== src/Utils/PidFile.antt =====
-- The pid file functions of utils/pidfile.go, as the calls that they make.
pub mod Exclusion
mod Examples
use sysbox_libs.Prelude.{
  Bool, Bytes, List, Option, Result, codes, err, false, if◌then◌else◌, nat_beq, none, ok, some, suc,
  true, ℕ, ◌++◌, ◌==◌, ◌∷◌, nat_comparable, bytes_comparable,
}
use sysbox_libs.Prelude.Int.{negsuc, pos, ℤ}
use sysbox_libs.Host.{
  Call, Error, Host, Program, failed, get_number, get_text, getpid, perform, read_link, read_whole,
  refuse, refused, remove_all, return, write_file, ◌>>=◌,
}
use sysbox_libs.Strings.Atoi.{atoi}
use sysbox_libs.Strings.Decimal.{format_uint}
use sysbox_libs.Strings.Path.{base}
use sysbox_libs.Strings.Utf8.{plain_spaces}
use sysbox_libs.Strings.Trim.{is_space, trim}

-- `%d` of an `int`.
unfoldable pub format_int : ℤ → Bytes
format_int (pos n) = format_uint n
format_int (negsuc n) = b'-' ∷ format_uint (suc n)

abbrev pub exe_path : ℤ → Bytes
exe_path pid = codes "/proc/" ++ (format_int pid ++ codes "/exe")

abbrev pub pid_text : ℕ → Bytes
pid_text pid = format_uint pid ++ codes "\n"

-- The number that ENOENT is: what `os.IsNotExist` asks for.
abbrev pub not_exist : ℕ
not_exist = 2

unfoldable pub number_in : Option ℤ → Program ℤ
number_in none = refuse (codes "invalid syntax or value out of range")
number_in (some n) = return n

unfoldable pub running : Bytes → Bool → Program (Unit {0})
running program true = refuse (program ++ codes " program is running")
running program false = return tt

module _ (host : Host) where
  unfoldable pub read_pid_file : Bytes → Program ℤ
  read_pid_file pid_file = do
    bs ← get_text host (read_whole pid_file)
    number_in (atoi (trim is_space (plain_spaces bs)))

  -- A link that cannot be read is that of no process.
  unfoldable pub is_program : Bytes → List Call × Result Error Bytes → List Call × Result Error Bool
  is_program program (calls, err e) = (calls, ok false)
  is_program program (calls, ok target) = (calls, ok (program == base target))

  unfoldable pub is_program_running : Bytes → ℤ → Program Bool
  is_program_running program pid calls =
      is_program program (get_text host (read_link (exe_path pid)) calls)

  -- What follows the read: a file that is not there is no error.
  unfoldable pub on_pid : Bytes → List Call × Result Error ℤ → List Call × Result Error (Unit {0})
  on_pid program (calls, err (failed c e)) =
      if nat_beq e not_exist then (calls, ok tt) else (calls, err (failed c e))
  on_pid program (calls, err (refused why)) = (calls, err (refused why))
  on_pid program (calls, ok pid) = (is_program_running program pid >>= running program) calls

  unfoldable pub check_pid_file : Bytes → Bytes → Program (Unit {0})
  check_pid_file program pid_file calls = on_pid program (read_pid_file pid_file calls)

  unfoldable pub create_pid_file : Bytes → Bytes → Program (Unit {0})
  create_pid_file program pid_file = do
    _ ← check_pid_file program pid_file
    pid ← get_number host getpid
    perform host (write_file pid_file (pid_text pid) 0x100)

  unfoldable pub destroy_pid_file : Bytes → Program (Unit {0})
  destroy_pid_file pid_file = perform host (remove_all pid_file)
