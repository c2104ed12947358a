-- ===== src/Mount/Parse/RoundTrip.antt =====
-- The table of mounts as the kernel prints it, for mount/mount_linux.go.
use sysbox_libs.Prelude.{
  All, Bytes, List, [], ap, arith, codes, contains-append, false, length, lt→ltb, map, ◌<◌,
  nat_beq_iff, ok, refl, true, ℕ, ◌++◌, ◌∷◌, ◌≡◌, ◌≢◌, nat_comparable, bytes_comparable,
}
use sysbox_libs.Mount.Parse.{parse_info_file, parse_info_lines}
use sysbox_libs.Strings.Lines.{max_line, scan_lines}
use sysbox_libs.Mount.Line.Separator.{IsField, spaced}
use sysbox_libs.Mount.Line.RoundTrip.{
  MountEntry, IsPrintable, back, front, front-IsField, info_of, line_of, parse_info_line-line_of,
}
use sysbox_libs.Strings.Fields.{IsWord, is_outside}
use sysbox_libs.Strings.Trim.{Free, is_blank, is_space, trim_suffix}
use sysbox_libs.Strings.Split.{Lacks, join, split, split-append, split-ne-nil}
use sysbox_libs.Mount.Search.{Info}
use sysbox_libs.Mount.Line.{parse_info_line}

-- The lines of the table, each with its line end.
abbrev pub table_of : List MountEntry → Bytes
table_of [] = []
table_of (e ∷ es) = line_of e ++ b'\n' ∷ table_of es

-- Another white space than the blank.
abbrev pub IsBreak : ℕ → Type 0
IsBreak c = (is_space c ≡ true) × (is_blank c ≡ false)

Free-Lacks : (c : ℕ) (w : Bytes) → IsBreak c → Free is_outside w → Lacks c w
Free-Lacks c [] b h = refl
Free-Lacks c (d ∷ w) b h = ground (arith, Free-Lacks c w b, b, nat_beq_iff d c, ap is_space)

spaced-Lacks :
    (c : ℕ) (ws : List Bytes) (s : Bytes)
    → IsBreak c
    → All IsField ws
    → Lacks c s
    → Lacks c (spaced ws s)
spaced-Lacks c [] s b h l = l
spaced-Lacks c (w ∷ ws) s b h l = ground (
  arith,
  contains-append w (b' ' ∷ spaced ws s) c,
  Free-Lacks c w b h.0.0.0,
  spaced-Lacks c ws s b h.1 l,
  b,
)

join-Lacks :
    (c : ℕ) (w : Bytes) (ws : List Bytes)
    → IsBreak c
    → All IsWord (w ∷ ws)
    → Lacks c (join (codes " ") (w ∷ ws))
unfolding join
join-Lacks c w [] b h = Free-Lacks c w b h.0.0
join-Lacks c w (v ∷ ws) b h = ground (
  arith,
  contains-append w (b' ' ∷ join (codes " ") (v ∷ ws)) c,
  Free-Lacks c w b h.0.0,
  join-Lacks c v ws b h.1,
  b,
)

line_of-Lacks : (e : MountEntry) (c : ℕ) → IsPrintable e → IsBreak c → Lacks c (line_of e)
line_of-Lacks e c h b =
    spaced-Lacks c (front e) (codes "- " ++ join (codes " ") (back e)) b (front-IsField e h) (
      ground
        (arith, join-Lacks c e.fstype (e.source ∷ e.first_option ∷ e.more_options) b h.words, b))

trim_suffix-Lacks : (s : Bytes) (c : ℕ) → Lacks c s → trim_suffix s (c ∷ []) ≡ s
unfolding trim_suffix
trim_suffix-Lacks [] c h = refl
trim_suffix-Lacks (d ∷ s) c h = ground (arith, trim_suffix-Lacks s c, h)

scan_lines-cons :
    (l : Bytes) (ls : List Bytes)
    → ls ≢ []
    → Lacks b'\r' l
    → length l < max_line
    → scan_lines (l ∷ ls) ≡ l ∷ scan_lines ls
unfolding scan_lines
scan_lines-cons l [] n h k = absurd (n refl)
scan_lines-cons [] (m ∷ ls) n h k = unfold trim_suffix in refl
scan_lines-cons (c ∷ l) (m ∷ ls) n h k =
    rw (lt→ltb (length (c ∷ l)) max_line k)
      (ap (λ t. t ∷ scan_lines (m ∷ ls)) (trim_suffix-Lacks (c ∷ l) b'\r' h))

parse_info_lines-cons :
    (l : Bytes) (ls : List Bytes) (p : Info) (out : List Info)
    → parse_info_line l ≡ ok p
    → parse_info_lines ls ≡ ok out
    → parse_info_lines (l ∷ ls) ≡ ok (p ∷ out)
unfolding parse_info_lines
parse_info_lines-cons l ls p out h k = rw (h, k) refl

-- A table of lines as the kernel prints them is read back whole and in order, each line with the
-- first of its optional fields, if the numbers fit in an int, no field is empty or has white space
-- or another byte than ASCII in it, none before the separator is a dash, and each line is shorter
-- than the 64 KiB that the scanner takes.
pub parse_info_file-table_of :
    (es : List MountEntry)
    → All IsPrintable es
    → All (λ e. length (line_of e) < max_line) es
    → parse_info_file (table_of es) ≡ ok (map info_of es)
unfolding parse_info_file
parse_info_file-table_of [] h k = unfold split scan_lines parse_info_lines in refl
parse_info_file-table_of (e ∷ es) h k =
    rw
      (
        split-append b'\n' (line_of e) (table_of es) (line_of-Lacks e b'\n' h.0 (refl, refl)),
        scan_lines-cons (line_of e) (split b'\n' (table_of es)) (split-ne-nil b'\n' (table_of es))
            (line_of-Lacks e b'\r' h.0 (refl, refl)) k.0,
      )
      (parse_info_lines-cons (line_of e) (scan_lines (split b'\n' (table_of es))) (info_of e)
        (map info_of es) (parse_info_line-line_of e h.0) (parse_info_file-table_of es h.1 k.1))
