-- ===== src/IdShift/Acl/RoundTrip.antt =====
-- Shifting an ACL by an offset and back.
use sysbox_libs.Prelude.{
  ℕ, ◌+◌, ◌-◌, ◌%◌, ◌^◌, ◌<◌, ◌≡◌, refl, ap, ◌∙◌, false, Option, none, some, [], ◌∷◌, arith, Bytes,
  All, ltb, if◌then◌else◌,
}
use sysbox_libs.Strings.Decimal.{
  parse_uint, format_uint, parse_uint-format_uint, parse_uint-format_uint_over,
}
use sysbox_libs.IdShift.Acl.{
  user, group, other, Acl, shift_entries, Tag, Entry, add32, to_uint64, shift_qualifier,
}
use sysbox_libs.IdShift.Acl.Spec.{shift_entry, shift_acl, shift_entries_lem, offset_of}

-- The pattern of the `int32` -x.
abbrev pub neg32 : ℕ → ℕ
neg32 x = (2 ^ 32 - x) % 2 ^ 32

-- The qualifier is the print of an id that, before and after the shift, is below 2^31.
abbrev pub FitsBy : Option ℕ → Bytes → Type 0
FitsBy none q = Unit
FitsBy (some offset) q =
    (id : ℕ) × (q ≡ format_uint id) × (id < 2 ^ 31) × (add32 id offset < 2 ^ 31)

abbrev pub Fits : ℕ → ℕ → Entry → Type 0
Fits u g e = FitsBy (offset_of u g e.tag) e.qualifier

shift_qualifier-fits :
    (offset id : ℕ)
    → id < 2 ^ 31
    → add32 id offset < 2 ^ 31
    → shift_qualifier offset (format_uint id) ≡ some (format_uint (add32 id offset))
unfolding shift_qualifier
shift_qualifier-fits offset id small fits = ground (arith, parse_uint-format_uint 32 id)

-- A 32-bit pattern, or the negative number that it stands for taken as 64 bits.
abbrev pub printed_id : ℕ → ℕ
printed_id n = if ltb n (2 ^ 31) then n else 2 ^ 64 - (2 ^ 32 - n)

to_uint64-printed_id : (n : ℕ) → n < 2 ^ 32 → to_uint64 n ≡ printed_id n
to_uint64-printed_id n h = ground (arith, h)

-- A qualifier that holds a 32-bit id is shifted to the print of the sum modulo 2^32 if that is
-- below 2^31, which is read back as the sum; if the sum is 2^31 or more, as a user id may be, the
-- new qualifier is the print of the negative number of that 32-bit pattern taken as 64 bits, which
-- is no 32-bit id any more.
pub shift_qualifier_lem :
    (offset id : ℕ) (q : Bytes)
    → parse_uint 32 q ≡ some id
    → (shift_qualifier offset q ≡ some (format_uint (printed_id ((id + offset) % 2 ^ 32))))
      × (parse_uint 32 (format_uint (printed_id ((id + offset) % 2 ^ 32)))
          ≡ (if ltb ((id + offset) % 2 ^ 32) (2 ^ 31) then some ((id + offset) % 2 ^ 32) else none))
unfolding shift_qualifier
shift_qualifier_lem offset id q h = (
  rw h (
      ap (λ (n : ℕ). some (format_uint n))
        (to_uint64-printed_id ((id + offset) % 2 ^ 32) (omega arith))),
  read_back,
)
  where
    read_back :
        parse_uint 32 (format_uint (printed_id ((id + offset) % 2 ^ 32)))
        ≡ (if ltb ((id + offset) % 2 ^ 32) (2 ^ 31) then some ((id + offset) % 2 ^ 32) else none)
    read_back = ground (
      arith,
      parse_uint-format_uint 32 ((id + offset) % 2 ^ 32),
      parse_uint-format_uint_over 32 (printed_id ((id + offset) % 2 ^ 32)),
    )

back : (id offset : ℕ) → id < 2 ^ 31 → offset < 2 ^ 32 → add32 (add32 id offset) (neg32 offset) ≡ id
back id offset h k = omega arith

shift_back :
    (offset id : ℕ)
    → id < 2 ^ 31
    → offset < 2 ^ 32
    → add32 id offset < 2 ^ 31
    → shift_qualifier (neg32 offset) (format_uint (add32 id offset)) ≡ some (format_uint id)
shift_back offset id small word fits =
    shift_qualifier-fits (neg32 offset) (add32 id offset) fits
      (rw (back id offset small word) small)
    ∙ ap (λ (x : ℕ). some (format_uint x)) (back id offset small word)

-- One entry, there and back.
record Returns (u g : ℕ) (e : Entry) : Type 0 where
  there : Entry
  shifted : shift_entry u g e ≡ some there
  back_again : shift_entry (neg32 u) (neg32 g) there ≡ some e

Returns-id :
    (u g offset id perms : ℕ) (t : Tag)
    → offset_of u g t ≡ some offset
    → offset_of (neg32 u) (neg32 g) t ≡ some (neg32 offset)
    → id < 2 ^ 31
    → offset < 2 ^ 32
    → add32 id offset < 2 ^ 31
    → Returns u g (record { tag = t; qualifier = format_uint id; perms = perms })
Returns-id u g offset id perms t o o' small word fits = record {
  there = record { tag = t; qualifier = format_uint (add32 id offset); perms = perms };
  shifted = rw (o, shift_qualifier-fits offset id small fits) refl;
  back_again = rw (o', shift_back offset id small word fits) refl;
}

entry-Returns :
    (u g : ℕ) (t : Tag) (q : Bytes) (perms : ℕ)
    → u < 2 ^ 32
    → g < 2 ^ 32
    → FitsBy (offset_of u g t) q
    → Returns u g (record { tag = t; qualifier = q; perms = perms })
entry-Returns u g user q perms hu hg (id, e, small, fits) =
    rw e (Returns-id u g u id perms user refl refl small hu fits)
entry-Returns u g group q perms hu hg (id, e, small, fits) =
    rw e (Returns-id u g g id perms group refl refl small hg fits)
entry-Returns u g (other t) q perms hu hg f = record {
  there = record { tag = other t; qualifier = q; perms = perms };
  shifted = refl;
  back_again = refl;
}

shift_acl-back :
    (u g : ℕ) (es : Acl)
    → u < 2 ^ 32
    → g < 2 ^ 32
    → All (Fits u g) es
    → shift_acl (neg32 u) (neg32 g) (shift_acl u g es) ≡ es
shift_acl-back u g [] hu hg f = refl
shift_acl-back u g (e ∷ es) hu hg (f, fs) =
    rw (r.shifted, r.back_again) (ap (λ (l : Acl). e ∷ l) (shift_acl-back u g es hu hg fs))
  where
    r : Returns u g e
    r = entry-Returns u g e.tag e.qualifier e.perms hu hg f

-- For an ACL whose user and group entries hold ids that are below 2^31 before and after the shift,
-- shifting by two offsets and then by their negatives gives the ACL back.
pub shift_entries-back :
    (u g : ℕ) (facl : Acl)
    → u < 2 ^ 32
    → g < 2 ^ 32
    → All (Fits u g) facl
    → (shift_entries (neg32 u) (neg32 g) (shift_entries u g facl [] false).0 [] false).0 ≡ facl
shift_entries-back u g facl hu hg f =
    rw (shift_entries_lem u g facl, shift_entries_lem (neg32 u) (neg32 g) (shift_acl u g facl))
      (shift_acl-back u g facl hu hg f)
