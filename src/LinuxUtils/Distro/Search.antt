-- ===== src/LinuxUtils/Distro/Search.antt =====
-- The search of GetDistroPath through the files, in linuxUtils/linux.go.
use sysbox_libs.Prelude.{
  All, Bool, Bytes, List, Option, Result, [], arith, codes, eq_ne, err, inl, inr, none, ok, refl,
  some, ℕ, ◌++◌, ◌∷◌, ◌≡◌, ◌≢◌, ◌⊎◌, nat_comparable, bytes_comparable,
}
use sysbox_libs.LinuxUtils.Distro.{
  etc_file, first_id, get_distro_path, on_file, parse_line_distro_id, search_files, usr_file,
}
use sysbox_libs.LinuxUtils.Distro.RoundTrip.{IsPlain, id_line, parse_line_distro_id-id_line}
use sysbox_libs.Strings.Split.{Lacks, join, split, split-join}

-- A line that says nothing of the distribution.
abbrev pub IsSilent : Bytes → Type 0
IsSilent line = parse_line_distro_id line ≡ []

-- A file that cannot be read, or whose lines say nothing.
abbrev pub SaysNothing : Result ℕ Bytes → Type 0
SaysNothing (err e) = Unit
SaysNothing (ok text) = All IsSilent (split b'\n' text)

-- A file of lines, one of which is for `ID`, with silent lines before it.
abbrev pub id_file : List Bytes → Bytes → List Bytes → Bytes
id_file before line after = join (codes "\n") (before ++ line ∷ after)

first_id-silent : (lines : List Bytes) → All IsSilent lines → first_id lines ≡ []
unfolding first_id
first_id-silent [] h = refl
first_id-silent (line ∷ lines) h = ground (arith, first_id-silent lines h.1, h.0)

first_id-found :
    (before after : List Bytes) (line id : Bytes)
    → All IsSilent before
    → parse_line_distro_id line ≡ id
    → id ≢ []
    → first_id (before ++ line ∷ after) ≡ id
unfolding first_id
first_id-found [] after line id s h n = rw h (rw (eq_ne id [] n) refl)
first_id-found (l ∷ before) after line id s h n =
    rw s.0 (first_id-found before after line id s.1 h n)

split-id_file :
    (before after : List Bytes) (line : Bytes)
    → All (Lacks b'\n') (before ++ line ∷ after)
    → split b'\n' (id_file before line after) ≡ before ++ line ∷ after
split-id_file [] after line h = split-join b'\n' line after h
split-id_file (l ∷ before) after line h = split-join b'\n' l (before ++ line ∷ after) h

pass_silent :
    (r : Result ℕ Bytes) (search : Option ℕ → Result ℕ Bytes) (id : Bytes)
    → SaysNothing r
    → ((error : Option ℕ) → search error ≡ ok id)
    → on_file r search ≡ ok id
unfolding on_file
pass_silent (err e) search id h k = k (some e)
pass_silent (ok text) search id h k = rw (first_id-silent (split b'\n' text) h) (k none)

take_named :
    (r : Result ℕ Bytes) (search : Option ℕ → Result ℕ Bytes) (text id : Bytes)
    → r ≡ ok text
    → first_id (split b'\n' text) ≡ id
    → id ≢ []
    → on_file r search ≡ ok id
unfolding on_file
take_named r search text id e h n = rw (e, h, eq_ne id [] n) refl

-- GetDistroPath gives the ID of the first line for `ID` that a system has, if the ID is not empty
-- and has no blank, double quote or backslash in it; the line may have blanks around the key and
-- the value, and double quotes. It stands in a file of lines behind others that say nothing, and
-- the file is etc/os-release, or it is usr/lib/os-release and etc/os-release cannot be read or
-- says nothing.
pub get_distro_path-id_file :
    (read : Bytes → Result ℕ Bytes) (rootfs : Bytes) (before after : List Bytes) (q : Bool)
    (a b c d : ℕ) (id : Bytes)
    → IsPlain id
    → id ≢ []
    → All IsSilent before
    → All (Lacks b'\n') (before ++ id_line q a b c d id ∷ after)
    → (read (etc_file rootfs) ≡ ok (id_file before (id_line q a b c d id) after))
      ⊎ (SaysNothing (read (etc_file rootfs))
          × (read (usr_file rootfs) ≡ ok (id_file before (id_line q a b c d id) after)))
    → get_distro_path read rootfs ≡ ok id
unfolding get_distro_path
get_distro_path-id_file read rootfs before after q a b c d id p n s l h =
    unfold search_files in
    elim h [
      | inl etc ↦
          take_named (read (etc_file rootfs)) (search_files read (usr_file rootfs ∷ [])) text id etc
            found n
      | inr both ↦
          pass_silent (read (etc_file rootfs)) (search_files read (usr_file rootfs ∷ [])) id both.0
            (λ error.
              take_named (read (usr_file rootfs)) (search_files read []) text id both.1 found n)
    ]
  where
    line : Bytes
    line = id_line q a b c d id

    text : Bytes
    text = id_file before line after

    found : first_id (split b'\n' text) ≡ id
    found =
        rw (split-id_file before after line l)
          (first_id-found before after line id s (parse_line_distro_id-id_line q a b c d id p) n)
