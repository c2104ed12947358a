-- ===== src/Mount/Search.antt =====
-- The table of mounts of mount/mountinfo.go, and its search in mount/mount.go.
use sysbox_libs.Prelude.{
  Bool, Bytes, List, Result, [], any, err, false, if◌then◌else◌, ok, true, ◌&&◌, ◌++◌, ◌==◌, ◌∷◌,
  ◌≡◌, nat_comparable, bytes_comparable,
}
use sysbox_libs.Prelude.Int.{ℤ}

pub record Info : Type 0 where
  pub id : ℤ
  pub parent : ℤ
  pub major : ℤ
  pub minor : ℤ
  pub root : Bytes
  pub mountpoint : Bytes
  pub opts : Bytes
  pub optional : Bytes
  pub fstype : Bytes
  pub source : Bytes
  pub vfs_opts : Bytes

unfoldable pub find_mount : Bytes → List Info → Bool
find_mount mountpoint [] = false
find_mount mountpoint (m ∷ mounts) =
    let rest = find_mount mountpoint mounts in if m.mountpoint == mountpoint then true else rest

-- The error is always nil.
unfoldable pub mounted_with_fs : Bytes → Bytes → List Info → Bool
mounted_with_fs mountpoint fs [] = false
mounted_with_fs mountpoint fs (m ∷ mounts) =
    let rest = mounted_with_fs mountpoint fs mounts in
    if m.mountpoint == mountpoint && m.fstype == fs then true else rest

pub data Error : Type 0 where
  not_a_mountpoint : Bytes → Error

unfoldable pub get_mount_at : Bytes → List Info → Result Error Info
get_mount_at mountpoint [] = err (not_a_mountpoint mountpoint)
get_mount_at mountpoint (m ∷ mounts) =
    let rest = get_mount_at mountpoint mounts in if m.mountpoint == mountpoint then ok m else rest

-- The first mount of the table at the place, with those before it and behind it.
abbrev pub IsFirst : Bytes → List Info → Info → Type 0
IsFirst mountpoint mounts m =
    (before after : List Info) × (mounts ≡ before ++ m ∷ after)
    × (m.mountpoint ≡ mountpoint)
    × (any (λ i. i.mountpoint == mountpoint) before ≡ false)
