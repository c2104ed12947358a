-- ===== src/Mount/Line/RoundTrip.antt =====
-- A line of the table of mounts as the kernel prints it, for mount/mount_linux.go.
use sysbox_libs.Prelude.{
  All, Bytes, List, [], arith, codes, if◌then◌else◌, ok, refl, some, ℕ, ◌!=◌, ◌++◌, ◌<◌, ◌^◌, ◌∷◌,
  ◌≡◌, nat_comparable, bytes_comparable,
}
use sysbox_libs.Prelude.Int.{pos}
use sysbox_libs.Mount.Search.{Info}
use sysbox_libs.Mount.Line.{
  on_head, parse_info_line, past_separator, scan_head, scan_parts, with_fields,
}
use sysbox_libs.Mount.Line.Separator.{IsField, behind-spaced, spaced}
use sysbox_libs.Mount.Line.Head.{scan_eight}
use sysbox_libs.Mount.Line.Numbers.{device-IsField, number-IsField}
use sysbox_libs.Strings.Fields.{IsWord, fields-join, word-IsAscii}
use sysbox_libs.Strings.Utf8.{IsAscii, plain_spaces-IsAscii, rune_text-IsAscii}
use sysbox_libs.Strings.Split.{join}
use sysbox_libs.Strings.Decimal.{format_uint}
use mathlib.Core.List.{append_assoc}

-- What a line says: the tags are its optional fields, and there is at least one option of the
-- superblock.
pub record MountEntry : Type 0 where
  pub id : ℕ
  pub parent : ℕ
  pub major : ℕ
  pub minor : ℕ
  pub root : Bytes
  pub mountpoint : Bytes
  pub opts : Bytes
  pub tags : List Bytes
  pub fstype : Bytes
  pub source : Bytes
  pub first_option : Bytes
  pub more_options : List Bytes

abbrev pub device : MountEntry → Bytes
device e = format_uint e.major ++ b':' ∷ format_uint e.minor

abbrev pub front : MountEntry → List Bytes
front e =
    format_uint e.id ∷ format_uint e.parent ∷ device e ∷ e.root ∷ e.mountpoint ∷ e.opts ∷ e.tags

abbrev pub back : MountEntry → List Bytes
back e = e.fstype ∷ e.source ∷ e.first_option ∷ e.more_options

abbrev pub line_of : MountEntry → Bytes
line_of e = spaced (front e) (codes "- " ++ join (codes " ") (back e))

-- The first of the optional fields, and a dash where there is none.
abbrev pub first_tag : List Bytes → Bytes
first_tag [] = []
first_tag (t ∷ ts) = t

abbrev pub info_of : MountEntry → Info
info_of e = record {
  id = pos e.id;
  parent = pos e.parent;
  major = pos e.major;
  minor = pos e.minor;
  root = e.root;
  mountpoint = e.mountpoint;
  opts = e.opts;
  optional = first_tag e.tags;
  fstype = e.fstype;
  source = e.source;
  vfs_opts = join (codes " ") (e.first_option ∷ e.more_options);
}

-- The numbers fit in an `int`, and no field is empty, has other bytes than ASCII or white space in
-- it, or is a dash before the separator.
pub record IsPrintable (e : MountEntry) : Type 0 where
  pub id_fits : e.id < 2 ^ 63
  pub parent_fits : e.parent < 2 ^ 63
  pub major_fits : e.major < 2 ^ 63
  pub minor_fits : e.minor < 2 ^ 63
  pub names : All IsField (e.root ∷ e.mountpoint ∷ e.opts ∷ e.tags)
  pub words : All IsWord (back e)

-- The word that Sscanf finds behind the options of the mount.
abbrev token : List Bytes → Bytes
token [] = codes "-"
token (t ∷ ts) = t

token-IsWord : (tags : List Bytes) → All IsField tags → IsWord (token tags)
token-IsWord [] h = (refl, refl)
token-IsWord (t ∷ ts) h = h.0.0

token-first :
    (tags : List Bytes) (s : Bytes)
    → (rest : Bytes) × (spaced tags (codes "- " ++ s) ≡ token tags ++ b' ' ∷ rest)
token-first [] s = (s, refl)
token-first (t ∷ ts) s = (spaced ts (codes "- " ++ s), refl)

token-optional :
    (tags : List Bytes)
    → All IsField tags
    → (if token tags != codes "-" then token tags else []) ≡ first_tag tags
token-optional [] h = refl
token-optional (t ∷ ts) h = rw h.0.1 refl

append-IsAscii : (a s : Bytes) → IsAscii a → IsAscii s → IsAscii (a ++ s)
append-IsAscii [] s h k = k
append-IsAscii (c ∷ a) s h k = ground (arith, append-IsAscii a s, h)

spaced-IsAscii : (ws : List Bytes) (s : Bytes) → All IsField ws → IsAscii s → IsAscii (spaced ws s)
spaced-IsAscii [] s h k = k
spaced-IsAscii (w ∷ ws) s h k =
    append-IsAscii w (b' ' ∷ spaced ws s) (word-IsAscii w h.0.0.0) (spaced-IsAscii ws s h.1 k)

join-IsAscii :
    (w : Bytes) (ws : List Bytes) → All IsWord (w ∷ ws) → IsAscii (join (codes " ") (w ∷ ws))
unfolding join
join-IsAscii w [] h = word-IsAscii w h.0.0
join-IsAscii w (v ∷ ws) h =
    append-IsAscii w (b' ' ∷ join (codes " ") (v ∷ ws)) (word-IsAscii w h.0.0)
      (join-IsAscii v ws h.1)

module _ (e : MountEntry) (h : IsPrintable e) where
  pub front-IsField : All IsField (front e)
  front-IsField =
      (number-IsField e.id, (number-IsField e.parent, (device-IsField e.major e.minor, h.names)))

  line_of-IsAscii : IsAscii (line_of e)
  line_of-IsAscii =
      spaced-IsAscii (front e) (codes "- " ++ join (codes " ") (back e)) front-IsField
        (join-IsAscii e.fstype (e.source ∷ e.first_option ∷ e.more_options) h.words)

  scan_parts-line_of :
      scan_parts (line_of e)
      ≡ some (
        record (info_of e) { optional = []; fstype = []; source = []; vfs_opts = [] },
        token e.tags,
      )
  scan_parts-line_of =
      let rest = token-first e.tags (join (codes " ") (back e)) in
      rw
        (
          append_assoc (format_uint e.major) (b':' ∷ format_uint e.minor) (
              b' '
              ∷ (e.root
                  ++ b' '
                    ∷ (e.mountpoint
                        ++ b' '
                          ∷ (e.opts
                              ++ b' ' ∷ spaced e.tags (codes "- " ++ join (codes " ") (back e)))))),
          rest.1,
        )
        (scan_eight e.id e.parent e.major e.minor e.root e.mountpoint e.opts (token e.tags) rest.0
          h.id_fits h.parent_fits h.major_fits h.minor_fits h.names.0.0 h.names.1.0.0
          h.names.1.1.0.0 (token-IsWord e.tags h.names.1.1.1))

  scan_head-line_of :
      scan_head (line_of e)
      ≡ some (
        record (info_of e) { optional = []; fstype = []; source = []; vfs_opts = [] },
        token e.tags,
      )
  scan_head-line_of =
      unfold scan_head in
      rw
        (
          plain_spaces-IsAscii (line_of e) line_of-IsAscii,
          rune_text-IsAscii (line_of e) line_of-IsAscii,
        )
        scan_parts-line_of

-- A line that the kernel prints is read back, with the first of its optional fields.
pub parse_info_line-line_of :
    (e : MountEntry) → IsPrintable e → parse_info_line (line_of e) ≡ ok (info_of e)
unfolding parse_info_line on_head past_separator with_fields
parse_info_line-line_of e h =
    rw
      (
        scan_head-line_of e h,
        behind-spaced (format_uint e.id) _ (join (codes " ") (back e)) (front-IsField e h),
        fields-join e.fstype _ h.words,
        token-optional e.tags h.names.1.1.1,
      )
      refl
