-- ===== src/Mount/Parse.antt =====
-- The table of mounts as mount/mount_linux.go reads it: parseInfoFile and its clients, with
-- GetMounts and GetMountsPid of mount/mount.go.
pub mod RoundTrip
mod Examples
use sysbox_libs.Prelude.{
  Bytes, List, Option, Result, [], codes, err, none, ok, some, ℕ, ◌++◌, ◌>>=◌, ◌∷◌,
}
use sysbox_libs.Host.{Call, Host, close_fd, open_file, read_file}
use sysbox_libs.Mount.Search.{Info}
use sysbox_libs.Mount.Line.{ParseError, not_opened, parse_info_line}
use sysbox_libs.Strings.Split.{split}
use sysbox_libs.Strings.Lines.{scan_lines}
use sysbox_libs.Strings.Decimal.{format_uint}

unfoldable pub parse_info_lines : List Bytes → Result ParseError (List Info)
parse_info_lines [] = ok []
parse_info_lines (line ∷ lines) =
    parse_info_line line >>= λ p. parse_info_lines lines >>= λ out. ok (p ∷ out)

-- The text is what could be read: where the reading stopped with a failure, or a line does not fit
-- in the buffer of the scanner, the loop ends all the same, since the failure is asked for in the
-- loop and not behind it.
unfoldable pub parse_info_file : Bytes → Result ParseError (List Info)
parse_info_file text = parse_info_lines (scan_lines (split b'\n' text))

module _ (host : Host) where
  unfoldable pub opened_table :
      Call → Option ℕ → List Call → List Call × Result ParseError (List Info)
  opened_table c (some e) calls = (c ∷ calls, err (not_opened e))
  opened_table c none calls =
      let f = host.number calls c in
      (close_fd f ∷ read_file f ∷ c ∷ calls, parse_info_file (host.text (c ∷ calls) (read_file f)))

  unfoldable pub parse_mount_table : List Call → List Call × Result ParseError (List Info)
  parse_mount_table calls =
      let c = open_file (codes "/proc/self/mountinfo") in
      opened_table c (host.failure calls c) calls

  unfoldable pub parse_mount_table_for_pid :
      ℕ → List Call → List Call × Result ParseError (List Info)
  parse_mount_table_for_pid pid calls =
      let c = open_file (codes "/proc/" ++ (format_uint pid ++ codes "/mountinfo")) in
      opened_table c (host.failure calls c) calls

  unfoldable pub get_mounts : List Call → List Call × Result ParseError (List Info)
  get_mounts = parse_mount_table

  unfoldable pub get_mounts_pid : ℕ → List Call → List Call × Result ParseError (List Info)
  get_mounts_pid = parse_mount_table_for_pid
