-- ===== src/LinuxUtils/Distro/Examples.antt =====
-- Concrete os-release files.
use sysbox_libs.Strings.Split.{cut, join, split}
use sysbox_libs.Strings.Path.{clean, clean_elems, is_abs, join_path}
use sysbox_libs.LinuxUtils.Distro.{
  expand, field_value, get_distro_path, get_linux_header_path, header_path, parse_line_distro_id,
  strip_quotes, unquote,
}
use sysbox_libs.LinuxUtils.Kernel.{get_kernel_release, release_text}
use sysbox_libs.Strings.Affix.{strip_prefix, trim_prefix}
use sysbox_libs.Strings.Trim.{trim, trim_left, trim_right, trim_suffix}
use sysbox_libs.Strings.Replace.{contains_any, replace_all}
use sysbox_libs.Prelude.{
  Bytes, Result, [], ap, arith, codes, err, if◌then◌else◌, inr, length, ok, refl, true, ℕ, ◌++◌,
  ◌==◌, ◌∷◌, ◌≡◌, nat_comparable, bytes_comparable,
}
use sysbox_libs.LinuxUtils.Distro.RoundTrip.{id_line}
use sysbox_libs.LinuxUtils.Distro.Search.{IsSilent, get_distro_path-id_file, id_file}

abbrev name_line : Bytes
name_line = codes "NAME=Ubuntu"

abbrev os_release : Bytes
os_release =
    id_file (name_line ∷ []) (id_line true 0 0 0 1 (codes "ubuntu")) (codes "ID_LIKE=debian" ∷ [])

-- Only usr/lib/os-release is there.
abbrev read_usr : Bytes → Result ℕ Bytes
read_usr path = if path == codes "/usr/lib/os-release" then ok os_release else err 2

name-IsSilent : IsSilent name_line
unfolding parse_line_distro_id field_value cut trim trim_right trim_left
name-IsSilent = refl

get_distro_path-id_file_example : get_distro_path read_usr (codes "/") ≡ ok (codes "ubuntu")
unfolding join_path clean is_abs join clean_elems split
get_distro_path-id_file_example =
    get_distro_path-id_file read_usr (codes "/") (name_line ∷ []) (codes "ID_LIKE=debian" ∷ []) true
      0 0 0 1 (codes "ubuntu") (refl, refl, refl) (λ h. absurd (ground (arith, ap length h)))
      (name-IsSilent, tt) (refl, (refl, (refl, tt))) (inr (tt, refl))

-- An apostrophe is taken off only where the value has a double quote in it.
apostrophe_test : parse_line_distro_id (codes "ID='ubuntu'") ≡ codes "'ubuntu'"
unfolding parse_line_distro_id field_value cut trim trim_right trim_left expand replace_all unquote
    contains_any strip_prefix
apostrophe_test = refl

escape_test : parse_line_distro_id (codes "ID=\"a\\\"b\\$\"") ≡ codes "a\"b$"
unfolding parse_line_distro_id field_value cut trim trim_right trim_left expand replace_all unquote
    contains_any strip_quotes trim_suffix trim_prefix strip_prefix
escape_test = refl

comment_test : parse_line_distro_id (codes "# ID=x") ≡ []
unfolding parse_line_distro_id
comment_test = refl

header_test :
    get_linux_header_path (ok (codes "6.8.0" ++ 0 ∷ [])) (codes "arch")
    ≡ ok (codes "/lib/modules/6.8.0/build")
unfolding get_linux_header_path get_kernel_release release_text header_path join_path clean is_abs
    join clean_elems split
header_test = refl
