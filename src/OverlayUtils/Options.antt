-- ===== src/OverlayUtils/Options.antt =====
-- The functions of overlayUtils/overlayUtils.go.
use sysbox_libs.Prelude.{
  Bool, Bytes, Distinct, List, [], codes, contains, false, if◌then◌else◌, not, suc, true, zero, ℕ,
  ◌&&◌, ◌++◌, ◌==◌, ◌||◌, ◌∷◌, ◌≡◌, nat_comparable, bytes_comparable,
}
use sysbox_libs.Strings.Split.{split}
use sysbox_libs.Strings.Affix.{has_part, has_prefix, trim_prefix}
use sysbox_libs.Mount.Search.{Info}
use sysbox_libs.Mount.Flags.{options_to_flags}
use Prim.Native.Nat.{bit_or}

-- The set library, for sets of strings; a slice of a set lists its members in some order, each
-- once.
pub record Sets : Type 1 where
  pub StringSet : Type 0
  pub new_set : StringSet
  pub add : Bytes → StringSet → StringSet
  pub intersect : StringSet → StringSet → StringSet
  pub difference : StringSet → StringSet → StringSet
  pub to_slice : StringSet → List Bytes
  pub to_slice-new_set : to_slice new_set ≡ []
  pub to_slice-add :
      (x : Bytes) (s : StringSet) (y : Bytes)
      → contains (to_slice (add x s)) y ≡ ((x == y) || contains (to_slice s) y)
  pub to_slice-intersect :
      (s t : StringSet) (y : Bytes)
      → contains (to_slice (intersect s t)) y ≡ (contains (to_slice s) y && contains (to_slice t) y)
  pub to_slice-difference :
      (s t : StringSet) (y : Bytes)
      → contains (to_slice (difference s t)) y
        ≡ (contains (to_slice s) y && not (contains (to_slice t) y))
  pub to_slice-Distinct : (s : StringSet) → Distinct (to_slice s)

pub record MountOpts : Type 0 where
  pub opts : Bytes
  pub flags : ℕ
  pub prop_flags : ℕ

abbrev pub proper_mnt_opts : List Bytes
proper_mnt_opts =
    codes "ro"
    ∷ codes "rw"
    ∷ codes "nodev"
    ∷ codes "noexec"
    ∷ codes "nosuid"
    ∷ codes "noatime"
    ∷ codes "nodiratime"
    ∷ codes "relatime"
    ∷ codes "strictatime"
    ∷ codes "sync"
    ∷ []

-- The loop that makes the data string: a comma in front of each option but that of index 0.
with_comma : ℕ → Bytes → Bytes
with_comma zero s = s
with_comma (suc i) s = s ++ codes ","

unfoldable pub append_opts : ℕ → List Bytes → Bytes → Bytes
unfolding with_comma
append_opts i [] s = s
append_opts i (opt ∷ opts) s = append_opts (suc i) opts (with_comma i s ++ opt)

-- `unix.MS_SHARED` and its kin.
unfoldable pub prop_flags_of : Bytes → ℕ
prop_flags_of optional =
    if has_part optional (codes "shared")
    then bit_or 0 0x100000
    else (if has_part optional (codes "master")
        then bit_or 0 0x80000
        else (if has_part optional (codes "unbindable")
            then bit_or 0 0x20000
            else bit_or 0 0x40000))

module _ (sets : Sets) where
  open sets use {StringSet, new_set, add, intersect, difference, to_slice}

  unfoldable pub add_all : List Bytes → StringSet → StringSet
  add_all [] s = s
  add_all (opt ∷ opts) s = add_all opts (add opt s)

  -- The set of the per-mount options is made and not used.
  unfoldable pub get_mount_opt : Info → MountOpts
  get_mount_opt mi =
      let curr_vfs_opts = add_all (split b',' mi.vfs_opts) new_set in
      let proper = add_all proper_mnt_opts new_set in
      let new_mnt_opts = intersect curr_vfs_opts proper in
      let new_vfs_opts = difference curr_vfs_opts proper in
      record {
        opts = append_opts 0 (to_slice new_vfs_opts) [];
        flags = options_to_flags (to_slice new_mnt_opts);
        prop_flags = prop_flags_of mi.optional;
      }

-- What follows the prefix in the first option that has it, or nothing.
unfoldable pub first_value : Bytes → List Bytes → Bytes
first_value prefix [] = []
first_value prefix (opt ∷ opts) =
    let rest = first_value prefix opts in
    if has_prefix opt prefix then trim_prefix opt prefix else rest

unfoldable pub get_lower_layers : MountOpts → List Bytes
get_lower_layers mnt_opts = split b':' (first_value (codes "lowerdir=") (split b',' mnt_opts.opts))

unfoldable pub get_upper_layer : MountOpts → Bytes
get_upper_layer mnt_opts = first_value (codes "upperdir=") (split b',' mnt_opts.opts)

unfoldable pub get_work_layer : MountOpts → Bytes
get_work_layer mnt_opts = first_value (codes "workdir=") (split b',' mnt_opts.opts)

-- The loop of `GetVolatile`.
unfoldable pub has_volatile : List Bytes → Bool
has_volatile [] = false
has_volatile (opt ∷ opts) =
    let rest = has_volatile opts in if opt == codes "volatile" then true else rest

unfoldable pub get_volatile : MountOpts → Bool
unfolding has_volatile
get_volatile mnt_opts = has_volatile (split b',' mnt_opts.opts)
