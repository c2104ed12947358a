-- ===== src/Mount/Parse/Examples.antt =====
-- A concrete table of mounts.
use sysbox_libs.Prelude.{[], arith, codes, map, ok, refl, ◌∷◌, ◌≡◌}
use sysbox_libs.Mount.Line.{
  behind, on_head, or_later, parse_info_line, past_separator, scan_head, scan_parts, with_fields,
}
use sysbox_libs.Strings.Utf8.{plain_spaces, rune_text}
use sysbox_libs.Mount.Line.RoundTrip.{MountEntry, IsPrintable, info_of}
use sysbox_libs.Mount.Parse.{parse_info_file}
use sysbox_libs.Mount.Parse.RoundTrip.{parse_info_file-table_of, table_of}
use sysbox_libs.Strings.Scan.{scan_blank, scan_char, scan_int, scan_word}
use sysbox_libs.Strings.Trim.{trim_left}
use sysbox_libs.Strings.Atoi.{atoi}
use sysbox_libs.Strings.Decimal.{parse_uint}
use sysbox_libs.Strings.Fields.{fields}
use sysbox_libs.Strings.Affix.{strip_prefix}
use sysbox_libs.Strings.Split.{join}

abbrev root_entry : MountEntry
root_entry = record {
  id = 36;
  parent = 35;
  major = 98;
  minor = 0;
  root = codes "/mnt1";
  mountpoint = codes "/mnt2";
  opts = codes "rw,noatime";
  tags = codes "master:1" ∷ codes "shared:2" ∷ [];
  fstype = codes "ext3";
  source = codes "/dev/root";
  first_option = codes "rw,errors=continue";
  more_options = [];
}

abbrev proc_entry : MountEntry
proc_entry = record root_entry {
  id = 37;
  mountpoint = codes "/proc";
  tags = [];
  fstype = codes "proc";
  source = codes "proc";
}

root-IsPrintable : IsPrintable root_entry
root-IsPrintable = record {
  id_fits = omega arith;
  parent_fits = omega arith;
  major_fits = omega arith;
  minor_fits = omega arith;
  names = (
    ((refl, refl), refl),
    (
      ((refl, refl), refl),
      (((refl, refl), refl), (((refl, refl), refl), (((refl, refl), refl), tt))),
    ),
  );
  words = ((refl, refl), ((refl, refl), ((refl, refl), tt)));
}

proc-IsPrintable : IsPrintable proc_entry
proc-IsPrintable = record {
  id_fits = omega arith;
  parent_fits = omega arith;
  major_fits = omega arith;
  minor_fits = omega arith;
  names = (((refl, refl), refl), (((refl, refl), refl), (((refl, refl), refl), tt)));
  words = ((refl, refl), ((refl, refl), ((refl, refl), tt)));
}

parse_info_file-table_of_example :
    parse_info_file (table_of (root_entry ∷ proc_entry ∷ []))
    ≡ ok (map info_of (root_entry ∷ proc_entry ∷ []))
unfolding sysbox_libs.Strings.Decimal.format_uint join
parse_info_file-table_of_example =
    parse_info_file-table_of (root_entry ∷ proc_entry ∷ [])
      (root-IsPrintable, (proc-IsPrintable, tt)) (omega arith, (omega arith, tt))

-- Without the separator the third byte of the line is where the fields are looked for.
no_separator_test :
    parse_info_line (codes "36 35 98:0 / /m rw none")
    ≡ ok (record (info_of root_entry) {
      root = codes "/";
      mountpoint = codes "/m";
      opts = codes "rw";
      optional = codes "none";
      fstype = codes "35";
      source = codes "98:0";
      vfs_opts = codes "/ /m rw none";
    })
unfolding parse_info_line on_head scan_head scan_int trim_left atoi parse_uint scan_blank scan_char
    scan_word with_fields fields past_separator behind or_later strip_prefix join scan_parts
    plain_spaces rune_text
no_separator_test = refl
