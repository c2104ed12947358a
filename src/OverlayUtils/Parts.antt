-- ===== src/OverlayUtils/Parts.antt =====
-- How GetMountOpt of overlayUtils/overlayUtils.go parts the options of a mount.
use sysbox_libs.Prelude.{
  Bool, Bytes, Distinct, List, [], all, any, arith, codes, contains, not, or_false, refl, suc, true,
  ℕ, ◌&&◌, ◌++◌, ◌==◌, ◌||◌, ◌∙◌, ◌∷◌, ◌≡◌, nat_comparable, bytes_comparable,
}
use sysbox_libs.Strings.Split.{join, split}
use sysbox_libs.OverlayUtils.Options.{Sets, add_all, append_opts, get_mount_opt, proper_mnt_opts}
use sysbox_libs.Mount.Search.{Info}
use sysbox_libs.Mount.Bits.{bit}
use sysbox_libs.Mount.Options.{flag_positions, options_to_flags-bit}
use mathlib.Core.List.{append_assoc}

append_opts-later :
    (i : ℕ) (opt : Bytes) (opts : List Bytes) (s : Bytes)
    → append_opts (suc i) (opt ∷ opts) s ≡ s ++ (codes "," ++ join (codes ",") (opt ∷ opts))
unfolding append_opts join
append_opts-later i opt [] s = append_assoc s (codes ",") opt
append_opts-later i opt (next ∷ opts) s =
    append_opts-later (suc i) next opts ((s ++ codes ",") ++ opt)
    ∙ append_assoc (s ++ codes ",") opt (codes "," ++ join (codes ",") (next ∷ opts))
    ∙ append_assoc s (codes ",") (opt ++ (codes "," ++ join (codes ",") (next ∷ opts)))

append_opts-join : (opts : List Bytes) → append_opts 0 opts [] ≡ join (codes ",") opts
unfolding append_opts join
append_opts-join [] = refl
append_opts-join (opt ∷ []) = refl
append_opts-join (opt ∷ next ∷ opts) = append_opts-later 0 next opts opt

and_true : (b : Bool) → (b && true) ≡ b
and_true b = ground arith

-- Two tests that agree on the names `good` give the same where all names are good.
any-same :
    (k : ℕ) (good c d : Bytes → Bool) (ps : List (Bytes × ℕ))
    → ((name : Bytes) → good name ≡ true → c name ≡ d name)
    → all (λ p. good p.0) ps ≡ true
    → any (λ p. (p.1 == k) && c p.0) ps ≡ any (λ p. (p.1 == k) && d p.0) ps
any-same k good c d [] same h = refl
any-same k good c d ((name, i) ∷ ps) same h =
    ground (arith, h, same name, any-same k good c d ps same)

module _ (sets : Sets) where
  open sets use {
    StringSet, new_set, add, intersect, difference, to_slice, to_slice-add, to_slice-new_set,
    to_slice-intersect, to_slice-difference, to_slice-Distinct,
  }

  contains-add_all :
      (opts : List Bytes) (s : StringSet) (y : Bytes)
      → contains (to_slice (add_all sets opts s)) y ≡ (contains opts y || contains (to_slice s) y)
  unfolding add_all
  contains-add_all [] s y = refl
  contains-add_all (opt ∷ opts) s y =
      ground (arith, contains-add_all opts (add opt s) y, to_slice-add opt s y)

  set_of : List Bytes → StringSet
  set_of opts = add_all sets opts new_set

  contains-set_of :
      (opts : List Bytes) (y : Bytes) → contains (to_slice (set_of opts)) y ≡ contains opts y
  unfolding set_of
  contains-set_of opts y =
      contains-add_all opts new_set y ∙ rw to_slice-new_set (or_false (contains opts y))

  in_both :
      (opts : List Bytes) (name : Bytes)
      → contains (to_slice (intersect (set_of opts) (set_of proper_mnt_opts))) name
        ≡ (contains opts name && contains proper_mnt_opts name)
  in_both opts name =
      to_slice-intersect (set_of opts) (set_of proper_mnt_opts) name
      ∙ rw (contains-set_of opts name, contains-set_of proper_mnt_opts name) refl

  in_first :
      (opts : List Bytes) (name : Bytes)
      → contains (to_slice (difference (set_of opts) (set_of proper_mnt_opts))) name
        ≡ (contains opts name && not (contains proper_mnt_opts name))
  in_first opts name =
      to_slice-difference (set_of opts) (set_of proper_mnt_opts) name
      ∙ rw (contains-set_of opts name, contains-set_of proper_mnt_opts name) refl

  -- GetMountOpt parts the comma-separated VfsOpts of a mount: the options that are no proper mount
  -- options, each once and in some order, are joined by commas in the data string; a binary digit
  -- of the flags is set exactly if it stands for an option in VfsOpts. The options in Opts change
  -- nothing.
  pub get_mount_opt-split :
      (mi : Info)
      → (names : List Bytes) × ((get_mount_opt sets mi).opts ≡ join (codes ",") names)
        × Distinct names
        × ((opt : Bytes)
            → contains names opt
              ≡ (contains (split b',' mi.vfs_opts) opt && not (contains proper_mnt_opts opt)))
        × ((k : ℕ)
            → bit (get_mount_opt sets mi).flags k
              ≡ any (λ p. (p.1 == k) && contains (split b',' mi.vfs_opts) p.0) flag_positions)
  unfolding get_mount_opt set_of
  get_mount_opt-split mi =
      let opts = split b',' mi.vfs_opts in
      let names = to_slice (difference (set_of opts) (set_of proper_mnt_opts)) in
      let kept = to_slice (intersect (set_of opts) (set_of proper_mnt_opts)) in
      (
        names,
        append_opts-join names,
        to_slice-Distinct _,
        in_first opts,
        λ k.
            options_to_flags-bit kept k
            ∙ any-same k (contains proper_mnt_opts) (contains kept) (contains opts) flag_positions
                (λ name h. in_both opts name ∙ rw h (and_true (contains opts name))) refl,
      )
