-- ===== src/OverlayUtils/Layers.antt =====
-- What the layer functions of overlayUtils/overlayUtils.go read from the data of a mount.
use sysbox_libs.Prelude.{
  All, All-append, Bytes, List, [], any, ap, arith, codes, contains, contains-append, false, refl,
  ℕ, ◌++◌, ◌==◌, ◌||◌, ◌∙◌, ◌∷◌, ◌≡◌, nat_comparable, bytes_comparable,
}
use sysbox_libs.Strings.Split.{Lacks, join, split, split-join}
use sysbox_libs.Strings.Affix.{has_prefix, strip_prefix, strip_prefix-append, trim_prefix-append}
use sysbox_libs.OverlayUtils.Options.{
  MountOpts, first_value, get_lower_layers, get_upper_layer, get_volatile, get_work_layer,
  has_volatile,
}

-- No option of the list has the prefix.
abbrev pub None : Bytes → List Bytes → Type 0
None prefix opts = any (λ opt. has_prefix opt prefix) opts ≡ false

first_value-skip :
    (prefix : Bytes) (before opts : List Bytes)
    → None prefix before
    → first_value prefix (before ++ opts) ≡ first_value prefix opts
unfolding first_value
first_value-skip prefix [] opts h = refl
first_value-skip prefix (opt ∷ before) opts h =
    ground (arith, h, first_value-skip prefix before opts)

first_value-here :
    (prefix value : Bytes) (opts : List Bytes)
    → first_value prefix ((prefix ++ value) ∷ opts) ≡ value
unfolding first_value
first_value-here prefix value opts =
    rw (strip_prefix-append prefix value) (trim_prefix-append prefix value)

has_volatile-contains : (opts : List Bytes) → has_volatile opts ≡ contains opts (codes "volatile")
unfolding has_volatile
has_volatile-contains [] = refl
has_volatile-contains (opt ∷ opts) = ground (arith, has_volatile-contains opts)

Lacks-append : (c : ℕ) (s t : Bytes) → Lacks c s → Lacks c t → Lacks c (s ++ t)
Lacks-append c s t h h' = grind (arith, contains-append s t c)

Lacks-join :
    (c sep : ℕ) (t : Bytes) (ts : List Bytes)
    → (sep == c) ≡ false
    → All (Lacks c) (t ∷ ts)
    → Lacks c (join (sep ∷ []) (t ∷ ts))
unfolding join
Lacks-join c sep t [] ne h = h.0
Lacks-join c sep t (u ∷ ts) ne h =
    Lacks-append c t (sep ∷ join (sep ∷ []) (u ∷ ts)) h.0
      (rw (ne, Lacks-join c sep u ts ne h.1) refl)

-- The options of a mount of the lower layers `l ∷ ls`.
abbrev pub layer_opts : Bytes → List Bytes → Bytes → Bytes → List Bytes
layer_opts l ls upper work =
    (codes "lowerdir=" ++ join (codes ":") (l ∷ ls))
    ∷ (codes "upperdir=" ++ upper)
    ∷ (codes "workdir=" ++ work)
    ∷ []

abbrev pub data_opts : List Bytes → Bytes → List Bytes → Bytes → Bytes → List Bytes → List Bytes
data_opts before l ls upper work after = before ++ (layer_opts l ls upper work ++ after)

split-opts :
    (before : List Bytes) (o : Bytes) (os : List Bytes)
    → All (Lacks b',') before
    → All (Lacks b',') (o ∷ os)
    → split b',' (join (codes ",") (before ++ o ∷ os)) ≡ before ++ o ∷ os
split-opts [] o os hb ho = split-join b',' o os ho
split-opts (b ∷ before) o os hb ho =
    split-join b',' b (before ++ o ∷ os) (All-append (Lacks b',') (b ∷ before) (o ∷ os) hb ho)

data_opts-Lacks :
    (l : Bytes) (ls : List Bytes) (upper work : Bytes) (after : List Bytes)
    → All (Lacks b',') (l ∷ ls)
    → Lacks b',' upper
    → Lacks b',' work
    → All (Lacks b',') after
    → All (Lacks b',') (layer_opts l ls upper work ++ after)
data_opts-Lacks l ls upper work after hl hu hw ha = (
  Lacks-append b',' (codes "lowerdir=") (join (codes ":") (l ∷ ls)) refl
      (Lacks-join b',' b':' l ls refl hl),
  (
    Lacks-append b',' (codes "upperdir=") upper refl hu,
    (Lacks-append b',' (codes "workdir=") work refl hw, ha),
  ),
)

module _ (before : List Bytes) (l : Bytes) (ls : List Bytes) (upper work : Bytes)
    (after : List Bytes) where
  lower_of :
      None (codes "lowerdir=") before
      → first_value (codes "lowerdir=") (data_opts before l ls upper work after)
        ≡ join (codes ":") (l ∷ ls)
  lower_of h =
      first_value-skip (codes "lowerdir=") before (layer_opts l ls upper work ++ after) h
      ∙ first_value-here (codes "lowerdir=") (join (codes ":") (l ∷ ls)) _

  upper_of :
      None (codes "upperdir=") before
      → first_value (codes "upperdir=") (data_opts before l ls upper work after) ≡ upper
  unfolding first_value strip_prefix
  upper_of h =
      first_value-skip (codes "upperdir=") before (layer_opts l ls upper work ++ after) h
      ∙ first_value-here (codes "upperdir=") upper ((codes "workdir=" ++ work) ∷ after)

  work_of :
      None (codes "workdir=") before
      → first_value (codes "workdir=") (data_opts before l ls upper work after) ≡ work
  unfolding first_value strip_prefix
  work_of h =
      first_value-skip (codes "workdir=") before (layer_opts l ls upper work ++ after) h
      ∙ first_value-here (codes "workdir=") work after

  volatile_of :
      has_volatile (data_opts before l ls upper work after)
      ≡ (contains before (codes "volatile") || contains after (codes "volatile"))
  volatile_of =
      has_volatile-contains (data_opts before l ls upper work after)
      ∙ contains-append before (layer_opts l ls upper work ++ after) (codes "volatile")

-- If the data of a mount is the comma-separated list of a lower, an upper and a work directory
-- option, with further options before and after it, of which those before are none of these, no
-- part having a comma in it and no lower layer a colon: GetLowerLayers gives the lower layers in
-- order, GetUpperLayer and GetWorkLayer the two directories, and GetVolatile whether `volatile` is
-- among the further options.
pub get_lower_layers-join :
    (mnt : MountOpts) (before : List Bytes) (l : Bytes) (ls : List Bytes) (upper work : Bytes)
    (after : List Bytes)
    → mnt.opts ≡ join (codes ",") (data_opts before l ls upper work after)
    → All (Lacks b',') before
    → All (Lacks b',') after
    → All (Lacks b',') (l ∷ ls)
    → All (Lacks b':') (l ∷ ls)
    → Lacks b',' upper
    → Lacks b',' work
    → None (codes "lowerdir=") before
    → None (codes "upperdir=") before
    → None (codes "workdir=") before
    → (get_lower_layers mnt ≡ l ∷ ls)
      × (get_upper_layer mnt ≡ upper)
      × (get_work_layer mnt ≡ work)
      × (get_volatile mnt
          ≡ (contains before (codes "volatile") || contains after (codes "volatile")))
unfolding get_lower_layers get_upper_layer get_work_layer get_volatile
get_lower_layers-join mnt before l ls upper work after text hb ha hl hc hu hw nl nu nw =
    let parts =
      ap (split b',') text
      ∙ split-opts before _ _ hb (data_opts-Lacks l ls upper work after hl hu hw ha) in
    (
      rw parts
          (ap (split b':') (lower_of before l ls upper work after nl) ∙ split-join b':' l ls hc),
      rw parts (upper_of before l ls upper work after nu),
      rw parts (work_of before l ls upper work after nw),
      rw parts (volatile_of before l ls upper work after),
    )
