-- ===== src/Mount/Table.antt =====
-- How the searches of the table of mounts agree.
use sysbox_libs.Prelude.{
  Bool-cases, Bytes, List, [], ap, arith, bytes_beq_iff, err, false, inl, inr, ok, ok_inj, refl,
  true, ◌==◌, ◌∙◌, ◌∷◌, ◌≡◌, ◌⊎◌, nat_comparable, bytes_comparable,
}
use sysbox_libs.Mount.Search.{
  Info, IsFirst, find_mount, get_mount_at, mounted_with_fs, not_a_mountpoint,
}

abbrev pub Found : Bytes → List Info → Type 0
Found mountpoint mounts =
    (find_mount mountpoint mounts ≡ true)
    × ((m : Info) × (get_mount_at mountpoint mounts ≡ ok m) × IsFirst mountpoint mounts m)

abbrev pub Missing : Bytes → List Info → Type 0
Missing mountpoint mounts =
    (find_mount mountpoint mounts ≡ false)
    × (get_mount_at mountpoint mounts ≡ err (not_a_mountpoint mountpoint))
    × ((fs : Bytes) → mounted_with_fs mountpoint fs mounts ≡ false)

later :
    (mountpoint : Bytes) (m : Info) (mounts : List Info)
    → (m.mountpoint == mountpoint) ≡ false
    → Found mountpoint mounts ⊎ Missing mountpoint mounts
    → Found mountpoint (m ∷ mounts) ⊎ Missing mountpoint (m ∷ mounts)
unfolding find_mount get_mount_at mounted_with_fs
later mountpoint m mounts other (inl (found, (i, got, (before, after, eq, at, none_before)))) =
    rw other (
      inl (
        found,
        (i, got, (m ∷ before, after, ap (λ r. m ∷ r) eq, at, rw (other, none_before) refl)),
      ))
later mountpoint m mounts other (inr (none_found, failed, nowhere)) =
    rw other (inr (none_found, failed, nowhere))

-- If FindMount finds the place, GetMountAt gives the first mount of the table there; otherwise it
-- fails and MountedWithFs is false for every filesystem.
pub get_mount_at-find_mount :
    (mountpoint : Bytes) (mounts : List Info) → Found mountpoint mounts ⊎ Missing mountpoint mounts
unfolding find_mount get_mount_at mounted_with_fs
get_mount_at-find_mount mountpoint [] = inr (refl, refl, λ fs. refl)
get_mount_at-find_mount mountpoint (m ∷ mounts) = elim (Bool-cases (m.mountpoint == mountpoint)) [
  | inl here ↦ rw here (
      inl
        (refl, (m, refl, ([], mounts, refl, (bytes_beq_iff m.mountpoint mountpoint).0 here, refl))))
  | inr other ↦ later mountpoint m mounts other (get_mount_at-find_mount mountpoint mounts)
]

-- Where GetMountAt gives a mount of the filesystem, MountedWithFs is true.
pub mounted_with_fs-get_mount_at :
    (mountpoint fs : Bytes) (mounts : List Info) (m : Info)
    → get_mount_at mountpoint mounts ≡ ok m
    → m.fstype ≡ fs
    → mounted_with_fs mountpoint fs mounts ≡ true
unfolding get_mount_at mounted_with_fs
mounted_with_fs-get_mount_at mountpoint fs [] m h e = absurd (ground (arith, h))
mounted_with_fs-get_mount_at mountpoint fs (i ∷ mounts) m h e =
    elim (Bool-cases (i.mountpoint == mountpoint)) [
      | inl here ↦
          rw
            (
              here,
              (bytes_beq_iff i.fstype fs).1
                  (ap (λ (r : Info). r.fstype) (ok_inj (rw here at h)) ∙ e),
            )
            refl
      | inr other ↦ rw other (mounted_with_fs-get_mount_at mountpoint fs mounts m (rw other at h) e)
    ]
