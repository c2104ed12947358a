-- ===== src/Mount/Flags.antt =====
-- `optToFlag` of mount/mount_linux.go: mount options as the flags of the system call.
use sysbox_libs.Prelude.{
  Bytes, List, Option, [], codes, none, some, ℕ, ◌∷◌, nat_comparable, bytes_comparable,
}
use sysbox_libs.Prelude.Table.{Table, lookup}
use Prim.Native.Nat.{bit_or}

-- The values of `unix.MS_RDONLY` and its kin on Linux.
abbrev pub mount_flags_map : Table Bytes ℕ
mount_flags_map =
    (codes "ro", 0x1)
    ∷ (codes "nodev", 0x4)
    ∷ (codes "noexec", 0x8)
    ∷ (codes "nosuid", 0x2)
    ∷ (codes "noatime", 0x400)
    ∷ (codes "nodiratime", 0x800)
    ∷ (codes "relatime", 0x200000)
    ∷ (codes "strictatime", 0x1000000)
    ∷ (codes "sync", 0x10)
    ∷ []

-- An option that is not in the table is passed over.
unfoldable pub or_flag : Option ℕ → ℕ → ℕ
or_flag none flags = flags
or_flag (some f) flags = bit_or flags f

unfoldable pub add_flags : List Bytes → ℕ → ℕ
unfolding or_flag
add_flags [] flags = flags
add_flags (opt ∷ opts) flags = add_flags opts (or_flag (lookup opt mount_flags_map) flags)

unfoldable pub opt_to_flag : List Bytes → ℕ
opt_to_flag opts = add_flags opts 0

unfoldable pub options_to_flags : List Bytes → ℕ
unfolding opt_to_flag
options_to_flags opt = opt_to_flag opt
