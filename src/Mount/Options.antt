-- ===== src/Mount/Options.antt =====
-- Which flags the mount options come to.
use sysbox_libs.Prelude.{
  Bool, Bytes, List, Option, [], any, ap, arith, bytes_beq_iff, codes, contains, false, map, none,
  refl, some, sym, ℕ, ◌&&◌, ◌==◌, ◌^◌, ◌||◌, ◌∙◌, ◌∷◌, ◌≡◌, nat_comparable, bytes_comparable,
}
use sysbox_libs.Prelude.Table.{HasKeys, Table, keys, lookup}
use sysbox_libs.Mount.Flags.{add_flags, mount_flags_map, options_to_flags, or_flag}
use sysbox_libs.Mount.Bits.{bit, bit-bit_or, bit-pow, bit-zero}

abbrev has_bit : Option ℕ → ℕ → Bool
has_bit none k = false
has_bit (some f) k = bit f k

nine_names : HasKeys mount_flags_map
nine_names = (refl, (refl, (refl, (refl, (refl, (refl, (refl, (refl, (refl, tt)))))))))

module _ (k : ℕ) where
  -- The digit of an entry of a table, where the key is that of the entry.
  abbrev at_entry : Bytes → Bytes × ℕ → Bool
  at_entry opt entry = bit entry.1 k && (entry.0 == opt)

  absent-entry :
      (opt : Bytes) (t : Table Bytes ℕ)
      → contains (keys t) opt ≡ false
      → any (at_entry opt) t ≡ false
  absent-entry opt [] h = refl
  absent-entry opt ((name, f) ∷ t) h = ground (arith, absent-entry opt t)

  has_bit-lookup :
      (opt : Bytes) (t : Table Bytes ℕ)
      → HasKeys t
      → has_bit (lookup opt t) k ≡ any (at_entry opt) t
  unfolding lookup
  has_bit-lookup opt [] h = refl
  has_bit-lookup opt ((name, f) ∷ t) h =
      ground (arith, has_bit-lookup opt t, bytes_beq_iff name opt, absent-entry opt t)

  bit-or_flag : (f : Option ℕ) (flags : ℕ) → bit (or_flag f flags) k ≡ (bit flags k || has_bit f k)
  unfolding or_flag
  bit-or_flag none flags = ground arith
  bit-or_flag (some f) flags = bit-bit_or flags f k

  bit-add_flags :
      (opts : List Bytes) (flags : ℕ)
      → bit (add_flags opts flags) k
        ≡ (bit flags k || any (λ opt. any (at_entry opt) mount_flags_map) opts)
  unfolding add_flags
  bit-add_flags [] flags = ground arith
  bit-add_flags (opt ∷ opts) flags =
      bit-add_flags opts (or_flag (lookup opt mount_flags_map) flags)
      ∙ regroup (bit flags k) _ (bit-or_flag (lookup opt mount_flags_map) flags)
          (has_bit-lookup opt mount_flags_map nine_names)
    where
      regroup : {a c d : Bool} (b e : Bool) → a ≡ (b || c) → c ≡ d → (a || e) ≡ (b || (d || e))
      regroup {d} b e h h' = rw (h, h') (ground arith)

  -- The position of a flag that stands for an option of the list.
  abbrev pub gives : List Bytes → Bytes × ℕ → Bool
  gives opts p = (p.1 == k) && contains opts p.0

  any-nothing : (ps : List (Bytes × ℕ)) → any (gives []) ps ≡ false
  any-nothing [] = refl
  any-nothing (p ∷ ps) = ground (arith, any-nothing ps)

  as_flag : Bytes × ℕ → Bytes × ℕ
  as_flag p = (p.0, 2 ^ p.1)

  at_flags :
      (opt : Bytes) (opts : List Bytes) (ps : List (Bytes × ℕ))
      → any (gives (opt ∷ opts)) ps ≡ (any (at_entry opt) (map as_flag ps) || any (gives opts) ps)
  unfolding as_flag
  at_flags opt opts [] = refl
  at_flags opt opts ((name, i) ∷ ps) =
      grind
        (arith, at_flags opt opts ps, bit-pow i k, bytes_beq_iff name opt, bytes_beq_iff opt name)

  any-flags :
      (ps : List (Bytes × ℕ)) (opts : List Bytes)
      → any (λ opt. any (at_entry opt) (map as_flag ps)) opts ≡ any (gives opts) ps
  any-flags ps [] = sym (any-nothing ps)
  any-flags ps (opt ∷ opts) =
      ap (λ b. any (at_entry opt) (map as_flag ps) || b) (any-flags ps opts)
      ∙ sym (at_flags opt opts ps)

-- The position of each flag's binary digit.
abbrev pub flag_positions : List (Bytes × ℕ)
flag_positions =
    (codes "ro", 0)
    ∷ (codes "nodev", 2)
    ∷ (codes "noexec", 3)
    ∷ (codes "nosuid", 1)
    ∷ (codes "noatime", 10)
    ∷ (codes "nodiratime", 11)
    ∷ (codes "relatime", 21)
    ∷ (codes "strictatime", 24)
    ∷ (codes "sync", 4)
    ∷ []

-- A binary digit of the flags that OptionsToFlags makes is set exactly if it stands for an option
-- that is in the list; options with no flag set nothing, and order and repetition do not matter.
pub options_to_flags-bit :
    (opts : List Bytes) (k : ℕ)
    → bit (options_to_flags opts) k ≡ any (λ p. (p.1 == k) && contains opts p.0) flag_positions
unfolding options_to_flags as_flag
options_to_flags-bit opts k =
    bit-add_flags k opts 0 ∙ rw (bit-zero k) (any-flags k flag_positions opts)
