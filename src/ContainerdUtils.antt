-- ===== src/ContainerdUtils.antt =====
-- containerdUtils/containerdUtils.go. Opening a file and decoding what it holds are parameters: the
-- decoder gives the value of `Root`, empty where there is none.
pub mod Search
mod Examples
use sysbox_libs.Prelude.{
  Bool, Bytes, List, Option, Result, [], codes, err, false, if◌then◌else◌, none, ok, some, ℕ, ◌==◌,
  ◌∷◌, nat_comparable, bytes_comparable,
}

abbrev pub config_path : List Bytes
config_path =
    codes "/etc/containerd/containerd.toml"
    ∷ codes "/etc/containerd/config.toml"
    ∷ codes "/usr/local/etc/containerd/config.toml"
    ∷ []

abbrev pub default_data_root : Bytes
default_data_root = codes "/var/lib/containerd"

pub data Error : Type 0 where
  not_opened : ℕ → Error
  not_decoded : Bytes → Error
  at_file : Bytes → Error → Error

-- `os.IsNotExist`: it does not look into an error that another one wraps.
unfoldable pub is_not_exist : Error → Bool
is_not_exist (not_opened e) = e == 2
is_not_exist (not_decoded why) = false
is_not_exist (at_file path e) = false

unfoldable pub root_or_default : Result Bytes Bytes → Result Error Bytes
root_or_default (err why) = err (not_decoded why)
root_or_default (ok root) = ok (if root == [] then default_data_root else root)

unfoldable pub on_opened : Option ℕ → Result Bytes Bytes → Result Error Bytes
on_opened (some e) decoded = err (not_opened e)
on_opened none decoded = root_or_default decoded

unfoldable pub on_parsed : Bytes → Result Error Bytes → Result Error Bytes → Result Error Bytes
on_parsed path (ok data_root) next = ok data_root
on_parsed path (err e) next = if is_not_exist e then next else err (at_file path e)

module _ (open_file : Bytes → Option ℕ) (decode : Bytes → Result Bytes Bytes) where
  unfoldable pub parse_data_root : Bytes → Result Error Bytes
  parse_data_root path = on_opened (open_file path) (decode path)

  -- The loop over the files.
  unfoldable pub first_root : List Bytes → Result Error Bytes
  first_root [] = ok default_data_root
  first_root (path ∷ paths) = on_parsed path (parse_data_root path) (first_root paths)

  unfoldable pub get_data_root : Result Error Bytes
  get_data_root = first_root config_path
