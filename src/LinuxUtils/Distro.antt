-- ===== src/LinuxUtils/Distro.antt =====
-- The distribution of a system in linuxUtils/linux.go: parseLineDistroId, GetDistroPath, GetDistro
-- and GetLinuxHeaderPath. What a file holds, or why it cannot be read, is given by `read`, for the
-- file system `appFs`.
pub mod RoundTrip
pub mod Search
mod Examples
use sysbox_libs.Prelude.{
  Bool, Bytes, List, Option, Result, [], codes, contains, err, if◌then◌else◌, none, ok, some, ℕ,
  ◌!=◌, ◌&&◌, ◌++◌, ◌==◌, ◌>>=◌, ◌∷◌, nat_comparable, bytes_comparable,
}
use sysbox_libs.Strings.Split.{cut, split}
use sysbox_libs.Strings.Trim.{is_blank, trim, trim_suffix}
use sysbox_libs.Strings.Affix.{trim_prefix}
use sysbox_libs.Strings.Replace.{contains_any, replace_all}
use sysbox_libs.Strings.Path.{join_path}
use sysbox_libs.LinuxUtils.Kernel.{Error, get_kernel_release}

abbrev pub last_byte : ℕ → Bytes → ℕ
last_byte c [] = c
last_byte c (d ∷ s) = last_byte d s

unfoldable pub strip_quotes : Bytes → Bytes
strip_quotes value =
    trim_suffix (trim_suffix (trim_prefix (trim_prefix value (codes "'")) (codes "\"")) (codes "'"))
      (codes "\"")

-- `value[0:1]` is there, since the value has a quote in it.
unfoldable pub unquote : Bytes → Bytes
unquote [] = []
unquote (c ∷ s) =
    if contains_any (c ∷ s) (codes "\"")
    then (if c == last_byte c s && contains_any (c ∷ []) (codes "\"'")
        then strip_quotes (c ∷ s)
        else c ∷ s)
    else c ∷ s

unfoldable pub expand : Bytes → Bytes
expand value =
    replace_all
      (replace_all
        (replace_all (replace_all value (codes "\\\"") (codes "\"")) (codes "\\$") (codes "$"))
        (codes "\\\\") (codes "\\"))
      (codes "\\`") (codes "`")

unfoldable pub field_value : Option (Bytes × Bytes) → Bytes
field_value none = []
field_value (some (key, value)) =
    if trim is_blank key != codes "ID" then [] else expand (unquote (trim is_blank value))

unfoldable pub parse_line_distro_id : Bytes → Bytes
parse_line_distro_id [] = []
parse_line_distro_id (c ∷ line) = if c == b'#' then [] else field_value (cut b'=' (c ∷ line))

-- The loop over the lines of a file.
unfoldable pub first_id : List Bytes → Bytes
first_id [] = []
first_id (line ∷ lines) =
    let distro = parse_line_distro_id line in
    let rest = first_id lines in if distro != [] then distro else rest

-- The value of `err` at the end.
unfoldable pub no_id : Option ℕ → Result ℕ Bytes
no_id none = ok []
no_id (some e) = err e

-- A file that is read or not, where the search goes on with the error that it leaves in `err`.
unfoldable pub on_file : Result ℕ Bytes → (Option ℕ → Result ℕ Bytes) → Result ℕ Bytes
on_file (err e) search = search (some e)
on_file (ok text) search =
    let distro = first_id (split b'\n' text) in if distro != [] then ok distro else search none

abbrev pub etc_file : Bytes → Bytes
etc_file rootfs = join_path (rootfs ∷ codes "/etc/os-release" ∷ [])

abbrev pub usr_file : Bytes → Bytes
usr_file rootfs = join_path (rootfs ∷ codes "/usr/lib/os-release" ∷ [])

module _ (read : Bytes → Result ℕ Bytes) where
  -- The loop over the files.
  unfoldable pub search_files : List Bytes → Option ℕ → Result ℕ Bytes
  unfolding no_id on_file
  search_files [] error = no_id error
  search_files (file ∷ files) error = on_file (read file) (search_files files)

  unfoldable pub get_distro_path : Bytes → Result ℕ Bytes
  get_distro_path rootfs = search_files (etc_file rootfs ∷ usr_file rootfs ∷ []) none

  unfoldable pub get_distro : Result ℕ Bytes
  get_distro = get_distro_path (codes "/") >>= λ distro. ok distro

abbrev pub one_of : Bytes → List Bytes → Bool
one_of s names = contains names s

unfoldable pub header_path : Bytes → Bytes → Bytes
header_path distro rel =
    if one_of distro (
      codes "redhat"
      ∷ codes "centos"
      ∷ codes "rocky"
      ∷ codes "almalinux"
      ∷ codes "fedora"
      ∷ codes "amzn"
      ∷ [])
    then join_path (codes "/usr/src/kernels" ∷ rel ∷ [])
    else (if one_of distro (codes "arch" ∷ codes "flatcar" ∷ [])
        then join_path (codes "/lib/modules" ∷ rel ∷ codes "build" ∷ [])
        else join_path (codes "/usr/src" ∷ (codes "linux-headers-" ++ rel) ∷ []))

unfoldable pub get_linux_header_path : Result ℕ Bytes → Bytes → Result Error Bytes
get_linux_header_path uname distro = get_kernel_release uname >>= λ rel. ok (header_path distro rel)
