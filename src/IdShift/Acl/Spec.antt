-- ===== src/IdShift/Acl/Spec.antt =====
-- What the loop over the entries of an ACL makes of a list.
use mathlib.Core.List.{append-nil, append_assoc}
use sysbox_libs.Prelude.{
  ℕ, ◌≡◌, refl, ap, Bool, true, false, ◌||◌, ◌&&◌, Option, none, some, [], ◌∷◌, ◌++◌, arith, Bytes,
  is_some,
}
use sysbox_libs.IdShift.Acl.{
  Tag, user, group, other, Entry, Acl, shift_qualifier, shift_entries, shift_tagged,
}

-- The offset that applies to a tag, if ids of that tag are shifted.
abbrev pub offset_of : ℕ → ℕ → Tag → Option ℕ
offset_of u g user = some u
offset_of u g group = some g
offset_of u g (other t) = none

abbrev renamed : Entry → Option Bytes → Option Entry
renamed e none = none
renamed e (some q) = some (record e { qualifier = q })

abbrev shift_by : Option ℕ → Entry → Option Entry
shift_by none e = some e
shift_by (some offset) e = renamed e (shift_qualifier offset e.qualifier)

-- One entry, shifted; `none` if it is dropped.
abbrev pub shift_entry : ℕ → ℕ → Entry → Option Entry
shift_entry u g e = shift_by (offset_of u g e.tag) e

abbrev put : Option Entry → Acl → Acl
put none es = es
put (some e) es = e ∷ es

abbrev pub shift_acl : ℕ → ℕ → Acl → Acl
shift_acl u g [] = []
shift_acl u g (e ∷ es) = put (shift_entry u g e) (shift_acl u g es)

-- The entry carries an id, and the shift succeeds on it.
abbrev pub is_shifted : ℕ → ℕ → Entry → Bool
is_shifted u g e = is_some (offset_of u g e.tag) && is_some (shift_entry u g e)

abbrev pub any_shifted : ℕ → ℕ → Acl → Bool
any_shifted u g [] = false
any_shifted u g (e ∷ es) = is_shifted u g e || any_shifted u g es

shift_tagged_lem :
    (u g : ℕ) (t : Tag) (e : Entry) (acc : Acl) (b : Bool)
    → e.tag ≡ t
    → shift_tagged t u g e acc b ≡ (acc ++ put (shift_entry u g e) [], b || is_shifted u g e)
unfolding shift_tagged
shift_tagged_lem u g user e acc b h = ground (arith, append-nil acc)
shift_tagged_lem u g group e acc b h = ground (arith, append-nil acc)
shift_tagged_lem u g (other t) e acc b h = ground (arith, append-nil acc)

put-append : (o : Option Entry) (acc rest : Acl) → (acc ++ put o []) ++ rest ≡ acc ++ put o rest
put-append none acc rest = ap (λ es. es ++ rest) (append-nil acc)
put-append (some e) acc rest = append_assoc acc (e ∷ []) rest

or_assoc : (a b c : Bool) → ((a || b) || c) ≡ (a || (b || c))
or_assoc true b c = refl
or_assoc false b c = refl

shift_entries-acc :
    (u g : ℕ) (es acc : Acl) (b : Bool)
    → shift_entries u g es acc b ≡ (acc ++ shift_acl u g es, b || any_shifted u g es)
unfolding shift_entries
shift_entries-acc u g [] acc b = ground (arith, append-nil acc)
shift_entries-acc u g (e ∷ es) acc b = rw (shift_tagged_lem u g e.tag e acc b refl) (
    ground (
      arith,
      shift_entries-acc u g es (acc ++ put (shift_entry u g e) []) (b || is_shifted u g e),
      put-append (shift_entry u g e) acc (shift_acl u g es),
      or_assoc b (is_shifted u g e) (any_shifted u g es),
    ))

-- The loop of shiftAclType keeps the order of the entries: it copies an entry with no user or
-- group id, gives one with an id the shifted id, and drops one whose id is no 32-bit decimal
-- number; it marks the list as shifted exactly if some id was shifted.
pub shift_entries_lem :
    (u g : ℕ) (facl : Acl)
    → shift_entries u g facl [] false ≡ (shift_acl u g facl, any_shifted u g facl)
shift_entries_lem u g facl = shift_entries-acc u g facl [] false
