-- ===== src/OverlayUtils/Examples.antt =====
-- Concrete mounts of overlayUtils.
use sysbox_libs.OverlayUtils.Options.{
  MountOpts, Sets, first_value, get_lower_layers, get_mount_opt, get_upper_layer, get_volatile,
  get_work_layer, proper_mnt_opts,
}
use sysbox_libs.Prelude.{
  Bytes, Distinct, List, [], any, codes, contains, not, refl, true, ℕ, ◌&&◌, ◌==◌, ◌∷◌, ◌≡◌,
  nat_comparable, bytes_comparable,
}
use sysbox_libs.Prelude.Int.{pos}
use sysbox_libs.Prelude.Sets.{
  Members, add_member, contains-add_member, contains-keep_members, keep_members,
}
use sysbox_libs.Strings.Split.{join, split}
use sysbox_libs.Mount.Search.{Info}
use sysbox_libs.Mount.Bits.{bit}
use sysbox_libs.Mount.Options.{flag_positions}
use sysbox_libs.OverlayUtils.Parts.{get_mount_opt-split}
use sysbox_libs.OverlayUtils.Layers.{get_lower_layers-join}
use sysbox_libs.Strings.Affix.{strip_prefix}

-- Sets as lists.
abbrev list_sets : Sets
list_sets = record {
  StringSet = Members Bytes;
  new_set = ([], tt);
  add = add_member;
  intersect = λ s t. keep_members (contains t.0) s;
  difference = λ s t. keep_members (λ y. not (contains t.0 y)) s;
  to_slice = λ s. s.0;
  to_slice-new_set = refl;
  to_slice-add = contains-add_member;
  to_slice-intersect = λ s t. contains-keep_members (contains t.0) s;
  to_slice-difference = λ s t. contains-keep_members (λ y. not (contains t.0 y)) s;
  to_slice-Distinct = λ s. s.1;
}

abbrev overlay : Info
overlay = record {
  id = pos 36;
  parent = pos 35;
  major = pos 98;
  minor = pos 0;
  root = codes "/";
  mountpoint = codes "/mnt";
  opts = codes "rw,nosuid";
  optional = codes "shared:4";
  fstype = codes "overlay";
  source = codes "overlay";
  vfs_opts = codes "ro,lowerdir=/a:/b,upperdir=/u,workdir=/w,sync";
}

get_mount_opt-split_example :
    (names : List Bytes) × ((get_mount_opt list_sets overlay).opts ≡ join (codes ",") names)
    × Distinct names
    × ((opt : Bytes)
        → contains names opt
          ≡ (contains (split b',' overlay.vfs_opts) opt && not (contains proper_mnt_opts opt)))
    × ((k : ℕ)
        → bit (get_mount_opt list_sets overlay).flags k
          ≡ any (λ p. (p.1 == k) && contains (split b',' overlay.vfs_opts) p.0) flag_positions)
get_mount_opt-split_example = get_mount_opt-split list_sets overlay

abbrev mounted : MountOpts
mounted = record {
  opts = codes "index=off,lowerdir=/a:/b,upperdir=/u,workdir=/w,volatile";
  flags = 0;
  prop_flags = 0;
}

get_lower_layers-join_example :
    (get_lower_layers mounted ≡ codes "/a" ∷ codes "/b" ∷ [])
    × (get_upper_layer mounted ≡ codes "/u")
    × (get_work_layer mounted ≡ codes "/w")
    × (get_volatile mounted ≡ true)
get_lower_layers-join_example =
    get_lower_layers-join mounted (codes "index=off" ∷ []) (codes "/a") (codes "/b" ∷ [])
      (codes "/u") (codes "/w") (codes "volatile" ∷ []) (unfold join in refl) (refl, tt) (refl, tt)
      (refl, (refl, tt)) (refl, (refl, tt)) refl refl (unfold strip_prefix in refl)
      (unfold strip_prefix in refl) (unfold strip_prefix in refl)

-- With no lower directory there is one layer, with an empty path.
no_lower_test : get_lower_layers (record mounted { opts = codes "upperdir=/u" }) ≡ [] ∷ []
unfolding get_lower_layers split first_value strip_prefix
no_lower_test = refl
