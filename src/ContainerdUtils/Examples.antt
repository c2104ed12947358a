-- ===== src/ContainerdUtils/Examples.antt =====
-- Concrete configurations of containerd.
use sysbox_libs.ContainerdUtils.{
  default_data_root, first_root, get_data_root, is_not_exist, on_opened, on_parsed, parse_data_root,
  root_or_default,
}
use sysbox_libs.Prelude.{
  Bytes, Option, [], codes, if◌then◌else◌, none, ok, refl, some, ℕ, ◌==◌, ◌≡◌, nat_comparable,
  bytes_comparable,
}

-- Only the second file is there.
abbrev second_only : Bytes → Option ℕ
second_only path = if path == codes "/etc/containerd/config.toml" then none else some 2

root_test : get_data_root second_only (λ path. ok (codes "/data")) ≡ ok (codes "/data")
unfolding get_data_root first_root on_parsed parse_data_root on_opened is_not_exist root_or_default
root_test = refl

default_test : get_data_root second_only (λ path. ok []) ≡ ok default_data_root
unfolding get_data_root first_root on_parsed parse_data_root on_opened is_not_exist root_or_default
default_test = refl
