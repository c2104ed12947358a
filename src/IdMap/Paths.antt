-- ===== src/IdMap/Paths.antt =====
-- Which paths and kernels the checks of idMap/idMapMount.go accept.
use sysbox_libs.Prelude.{
  Bool, Bool-cases, Bytes, List, Option, Result, arith, contains, false, if◌then◌else◌, inl, inr,
  ltb, nat_beq, none, not, ok, refl, true, ℕ, ◌&&◌, ◌++◌, ◌<◌, ◌^◌, ◌||◌, ◌∷◌, ◌≡◌, nat_comparable,
  bytes_comparable,
}
use sysbox_libs.Prelude.Int.{ltb_ℤ, pos, ℤ}
use sysbox_libs.Strings.Split.{Lacks}
use sysbox_libs.Host.{Call, Host, statfs}
use sysbox_libs.LinuxUtils.Kernel.{compare_versions, kernel_current_version_cmp}
use sysbox_libs.LinuxUtils.Versions.{release, release-compare_versions, with_point}
use sysbox_libs.IdMap.Supported.{
  Failure, dev_black_list, fs_black_list, id_map_mount_supported_on_path, on_fs, on_statfs,
  on_tmpfs, tmpfs_magic,
}

-- A version is earlier than another.
abbrev pub earlier : ℕ → ℕ → ℕ → ℕ → Bool
earlier major minor a b = ltb major a || (nat_beq major a && ltb minor b)

compare_versions-earlier :
    (a b major minor : ℕ)
    → ltb_ℤ (compare_versions (pos a) (pos b) (pos major) (pos minor)) (pos 0)
      ≡ earlier major minor a b
unfolding compare_versions
compare_versions-earlier a b major minor = ground arith

decided :
    (black tmpfs early : Bool) (r : Result Failure Bool)
    → r ≡ ok (not early)
    → (if black then ok false else (if tmpfs then r else ok true))
      ≡ ok (not black && not (tmpfs && early))
decided true tmpfs early r h = refl
decided false true early r h = h
decided false false early r h = refl

module _ (host : Host) (major minor : ℕ) (more : Option Bytes) (junk : Bytes) (hm : major < 2 ^ 63)
    (hn : minor < 2 ^ 63) (clean : Lacks 0 (with_point more)) where
  abbrev uname : Result ℕ Bytes
  uname = ok (release major minor more ++ 0 ∷ junk)

  tmpfs-lem :
      on_tmpfs host uname (kernel_current_version_cmp uname (pos 6) (pos 3))
      ≡ ok (not (earlier major minor 6 3))
  unfolding on_tmpfs
  tmpfs-lem = rw (release-compare_versions major minor 6 3 more junk hm hn clean) (
      negated (compare_versions (pos 6) (pos 3) (pos major) (pos minor)) (earlier major minor 6 3)
        (compare_versions-earlier 6 3 major minor))
    where
      negated :
          (cmp : ℤ) (b : Bool) → ltb_ℤ cmp (pos 0) ≡ b → on_tmpfs host uname (ok cmp) ≡ ok (not b)
      negated cmp true h = unfold on_tmpfs in rw h refl
      negated cmp false h = unfold on_tmpfs in rw h refl

  -- On a kernel whose release begins with the two numbers, and where statfs does not fail:
  -- IDMapMountSupportedOnPath says yes exactly if the path is not /dev/null, the filesystem is
  -- none of overlayfs, FUSE and FAKEOWNER, and it is not tmpfs on a kernel before 6.3.
  pub id_map_mount_supported_on_path-release :
      (path : Bytes) (calls : List Call)
      → host.failure calls (statfs path) ≡ none
      → (id_map_mount_supported_on_path host uname path calls).1
        ≡ ok (
            not (contains dev_black_list path)
            && not (contains fs_black_list (host.number calls (statfs path)))
            && not
                (nat_beq (host.number calls (statfs path)) tmpfs_magic && earlier major minor 6 3))
  unfolding id_map_mount_supported_on_path on_fs
  id_map_mount_supported_on_path-release path calls good =
      elim (Bool-cases (contains dev_black_list path)) [
        | inl device ↦ rw device refl
        | inr other ↦ rw other (
            unfold on_statfs in
            rw good (
              decided _ (nat_beq (host.number calls (statfs path)) tmpfs_magic)
                (earlier major minor 6 3) _ tmpfs-lem))
      ]
