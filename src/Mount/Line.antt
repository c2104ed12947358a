-- ===== src/Mount/Line.antt =====
-- A line of the table of mounts, as parseInfoFile of mount/mount_linux.go reads it.
pub mod Separator
pub mod Head
pub mod Numbers
pub mod RoundTrip
use sysbox_libs.Prelude.{
  Bytes, List, Option, Result, [], codes, err, if◌then◌else◌, none, ok, some, ℕ, ◌!=◌, ◌-◌, ◌∷◌,
  nat_comparable, bytes_comparable,
}
use sysbox_libs.Prelude.Maybe.{◌>>=◌}
use sysbox_libs.Mount.Search.{Info}
use sysbox_libs.Strings.Scan.{scan_blank, scan_char, scan_int, scan_word}
use sysbox_libs.Strings.Fields.{fields}
use sysbox_libs.Strings.Utf8.{plain_spaces, rune_text}
use sysbox_libs.Strings.Affix.{strip_prefix}
use sysbox_libs.Strings.Split.{join}

unfoldable pub or_later : Option Bytes → Option Bytes → Option Bytes
or_later (some after) later = some after
or_later none later = later

-- What stands behind the first occurrence, if there is one.
unfoldable pub behind : Bytes → Bytes → Option Bytes
behind sep [] = strip_prefix sep []
behind sep (c ∷ s) = or_later (strip_prefix sep (c ∷ s)) (behind sep s)

-- `text[index+3:]`: without a separator the index is -1.
unfoldable pub past_separator : Bytes → Option Bytes → Bytes
past_separator text (some after) = after
past_separator [] none = []
past_separator (c ∷ []) none = []
past_separator (c ∷ d ∷ text) none = text

-- The parts of `mountinfoFormat`, one after the other.
unfoldable pub scan_parts : Bytes → Option (Info × Bytes)
scan_parts text = do
  id ← scan_int text
  s1 ← scan_blank id.1
  parent ← scan_int s1
  s2 ← scan_blank parent.1
  major ← scan_int s2
  s3 ← scan_char b':' major.1
  minor ← scan_int s3
  s4 ← scan_blank minor.1
  root ← scan_word s4
  s5 ← scan_blank root.1
  mountpoint ← scan_word s5
  s6 ← scan_blank mountpoint.1
  opts ← scan_word s6
  s7 ← scan_blank opts.1
  optional ← scan_word s7
  some (
    record {
      id = id.0;
      parent = parent.0;
      major = major.0;
      minor = minor.0;
      root = root.0;
      mountpoint = mountpoint.0;
      opts = opts.0;
      optional = [];
      fstype = [];
      source = [];
      vfs_opts = [];
    },
    optional.0,
  )

-- The fields of `p` that Sscanf fills by `mountinfoFormat`, and `optionalFields`. It scans runes:
-- white space beyond ASCII ends a part, and a byte that is no UTF-8 is read as U+FFFD.
unfoldable pub scan_head : Bytes → Option (Info × Bytes)
scan_head text = scan_parts (rune_text (plain_spaces text))

pub data ParseError : Type 0 where
  scan_failed : Bytes → ParseError
  too_few_fields : Bytes → ParseError
  not_opened : ℕ → ParseError

unfoldable pub with_fields : Bytes → Info → Bytes → List Bytes → Result ParseError Info
with_fields text p optional (fstype ∷ source ∷ v ∷ vs) = ok (record p {
  optional = if optional != codes "-" then optional else [];
  fstype = fstype;
  source = source;
  vfs_opts = join (codes " ") (v ∷ vs);
})
with_fields text p optional _ = err (too_few_fields text)

unfoldable pub on_head : Bytes → Option (Info × Bytes) → Result ParseError Info
on_head text none = err (scan_failed text)
on_head text (some (p, optional)) =
    with_fields text p optional (fields (past_separator text (behind (codes " - ") text)))

-- One round of the loop.
unfoldable pub parse_info_line : Bytes → Result ParseError Info
parse_info_line text = on_head text (scan_head text)
