-- ===== src/Mount/Examples.antt =====
-- Concrete searches of a table of mounts, and concrete flags.
use sysbox_libs.Prelude.Table.{lookup}
use sysbox_libs.Mount.Flags.{add_flags, options_to_flags}
use sysbox_libs.Prelude.{
  Bytes, List, [], codes, ok, refl, ◌∷◌, ◌≡◌, nat_comparable, bytes_comparable,
}
use sysbox_libs.Prelude.Int.{pos}
use sysbox_libs.Mount.Search.{Info, get_mount_at}

abbrev mount_of : Bytes → Bytes → Info
mount_of place fs = record {
  id = pos 36;
  parent = pos 35;
  major = pos 98;
  minor = pos 0;
  root = codes "/";
  mountpoint = place;
  opts = codes "rw,noatime";
  optional = codes "master:1";
  fstype = fs;
  source = codes "none";
  vfs_opts = codes "rw";
}

-- Two mounts at the same place.
abbrev table : List Info
table =
    mount_of (codes "/") (codes "ext4")
    ∷ mount_of (codes "/mnt") (codes "tmpfs")
    ∷ mount_of (codes "/mnt") (codes "overlay")
    ∷ []

flags_test : options_to_flags (codes "rw" ∷ codes "nodev" ∷ codes "ro" ∷ codes "nodev" ∷ []) ≡ 5
unfolding options_to_flags add_flags lookup
flags_test = refl

find_test : get_mount_at (codes "/mnt") table ≡ ok (mount_of (codes "/mnt") (codes "tmpfs"))
unfolding get_mount_at
find_test = refl
