-- ===== src/LinuxUtils/Distro/RoundTrip.antt =====
-- The line that names the distribution, in linuxUtils/linux.go.
use sysbox_libs.Prelude.{
  Bool, Bytes, [], ap, arith, codes, contains-append, false, refl, replicate, some, suc, true, zero,
  ℕ, ◌++◌, ◌∙◌, ◌∷◌, ◌≡◌, nat_comparable, bytes_comparable,
}
use sysbox_libs.LinuxUtils.Distro.{
  expand, field_value, last_byte, parse_line_distro_id, strip_quotes, unquote,
}
use sysbox_libs.Strings.Split.{Lacks, cut-append}
use sysbox_libs.Strings.Replace.{contains_any, contains_any-Lacks, replace_all-Lacks}
use sysbox_libs.Strings.Trim.{
  Every, Free, is_blank, trim-around, trim_suffix-append, trim_suffix-other,
}
use sysbox_libs.Strings.Affix.{strip_prefix, trim_prefix, trim_prefix-append}

abbrev pub blanks : ℕ → Bytes
blanks n = replicate n b' '

-- A value, between double quotes if they are asked for.
abbrev pub quoted : Bool → Bytes → Bytes
quoted true id = b'"' ∷ (id ++ b'"' ∷ [])
quoted false id = id

-- A line for the key `ID` with blanks around the key and the value.
abbrev pub id_line : Bool → ℕ → ℕ → ℕ → ℕ → Bytes → Bytes
id_line q a b c d id =
    (blanks a ++ (codes "ID" ++ blanks b)) ++ b'=' ∷ (blanks c ++ (quoted q id ++ blanks d))

-- No blank, no quote and no backslash.
abbrev pub IsPlain : Bytes → Type 0
IsPlain id = Lacks b' ' id × Lacks b'"' id × Lacks b'\\' id

expand_plain : (id : Bytes) → Lacks b'\\' id → expand id ≡ id
unfolding expand
expand_plain id h = rw (replace_all-Lacks b'\\' (codes "\"") (codes "\"") id h) (
    rw (replace_all-Lacks b'\\' (codes "$") (codes "$") id h) (
      rw (replace_all-Lacks b'\\' (codes "\\") (codes "\\") id h)
        (replace_all-Lacks b'\\' (codes "`") (codes "`") id h)))

blanks-Every : (n : ℕ) → Every is_blank (blanks n)
blanks-Every zero = refl
blanks-Every (suc n) = blanks-Every n

blanks-Lacks : (c n : ℕ) → is_blank c ≡ false → Lacks c (blanks n)
blanks-Lacks c zero h = refl
blanks-Lacks c (suc n) h = ground (arith, blanks-Lacks c n h)

Lacks-Free : (s : Bytes) → Lacks b' ' s → Free is_blank s
Lacks-Free [] h = refl
Lacks-Free (c ∷ s) h = ground (arith, Lacks-Free s)

key-Lacks : (c a b : ℕ) → Lacks c (codes " ID") → Lacks c (blanks a ++ (codes "ID" ++ blanks b))
key-Lacks c a b h = grind (
  arith,
  contains-append (blanks a) (codes "ID" ++ blanks b) c,
  blanks-Lacks c a,
  blanks-Lacks c b,
  h,
)

split_key :
    (key value : Bytes)
    → Lacks b'#' key
    → Lacks b'=' key
    → parse_line_distro_id (key ++ b'=' ∷ value) ≡ field_value (some (key, value))
unfolding parse_line_distro_id
split_key [] value h e = ap field_value (cut-append b'=' [] value e)
split_key (c ∷ key) value h e = rw (cut-append b'=' (c ∷ key) value e) (ground (arith, h))

quoted-Lacks : (q : Bool) (id : Bytes) → Lacks b' ' id → Lacks b' ' (quoted q id)
quoted-Lacks true id h = grind (arith, contains-append id (b'"' ∷ []) b' ', h)
quoted-Lacks false id h = h

last_byte-append : (c d : ℕ) (s : Bytes) → last_byte c (s ++ d ∷ []) ≡ d
last_byte-append c d [] = refl
last_byte-append c d (e ∷ s) = last_byte-append e d s

strip_quotes-quoted : (id : Bytes) → strip_quotes (b'"' ∷ (id ++ b'"' ∷ [])) ≡ id
strip_quotes-quoted id =
    unfold strip_quotes in
    rw
      (
        trim_prefix-front,
        trim_prefix-append (codes "\"") (id ++ b'"' ∷ []),
        trim_suffix-other id b'"' b'\'' (ground arith),
      )
      (trim_suffix-append id b'"')
  where
    trim_prefix-front :
        trim_prefix (b'"' ∷ (id ++ b'"' ∷ [])) (codes "'") ≡ b'"' ∷ (id ++ b'"' ∷ [])
    trim_prefix-front = unfold trim_prefix in unfold sysbox_libs.Strings.Affix.strip_prefix in refl

unquote-quoted : (q : Bool) (id : Bytes) → Lacks b'"' id → unquote (quoted q id) ≡ id
unfolding unquote
unquote-quoted false [] h = refl
unquote-quoted false (c ∷ s) h = rw (contains_any-Lacks b'"' (c ∷ s) h) refl
unquote-quoted true id h =
    rw (last_byte-append b'"' b'"' id) (unfold contains_any in strip_quotes-quoted id)

-- A line for `ID` is read back: parseLineDistroId gives the value that it was made from, with or
-- without double quotes and whatever the number of blanks, if the value has no blank, double quote
-- or backslash in it.
pub parse_line_distro_id-id_line :
    (q : Bool) (a b c d : ℕ) (id : Bytes)
    → IsPlain id
    → parse_line_distro_id (id_line q a b c d id) ≡ id
parse_line_distro_id-id_line q a b c d id h =
    split_key key value (key-Lacks b'#' a b refl) (key-Lacks b'=' a b refl) ∙ value_read
  where
    key : Bytes
    key = blanks a ++ (codes "ID" ++ blanks b)

    value : Bytes
    value = blanks c ++ (quoted q id ++ blanks d)

    value_read : field_value (some (key, value)) ≡ id
    value_read =
        unfold field_value in
        rw
          (
            trim-around is_blank (blanks a) (codes "ID") (blanks b) (blanks-Every a) refl
                (blanks-Every b),
            trim-around is_blank (blanks c) (quoted q id) (blanks d) (blanks-Every c)
                (Lacks-Free (quoted q id) (quoted-Lacks q id h.0)) (blanks-Every d),
            unquote-quoted q id h.1,
          )
          (expand_plain id h.2)
