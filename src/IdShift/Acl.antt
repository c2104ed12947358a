-- ===== src/IdShift/Acl.antt =====
-- The shift of access control lists in idShiftUtils/idShiftUtils.go.
-- An `int32` or `uint32` is its 32-bit pattern, and so are the offsets.
pub mod Spec
pub mod Effect
pub mod RoundTrip
use sysbox_libs.Prelude.{
  ℕ, ◌+◌, ◌-◌, ◌%◌, ◌^◌, ◌≡◌, refl, Bool, true, false, Option, none, some, List, [], ◌∷◌, ◌++◌,
  Result, ok, err, Bytes, codes, ltb, if◌then◌else◌,
}
use sysbox_libs.Strings.Decimal.{parse_uint, format_uint}

-- The tags of the ACL library, as the program tells them apart.
pub data Tag : Type 0 where
  user group : Tag
  other : ℕ → Tag

pub record Entry : Type 0 where
  pub tag : Tag
  pub qualifier : Bytes
  pub perms : ℕ

abbrev pub Acl : Type 0
Acl = List Entry

pub data AclType : Type 0 where
  access default : AclType

-- `int32(id) + offset`
abbrev pub add32 : ℕ → ℕ → ℕ
add32 a b = (a + b) % 2 ^ 32

-- `uint64(x)` of an `int32`: the sign is extended.
abbrev pub to_uint64 : ℕ → ℕ
to_uint64 x = if ltb x (2 ^ 31) then x else x + (2 ^ 64 - 2 ^ 32)

shifted_qualifier : Option ℕ → ℕ → Option Bytes
shifted_qualifier none offset = none
shifted_qualifier (some id) offset = some (format_uint (to_uint64 (add32 id offset)))

-- `none` where the qualifier is no 32-bit number.
unfoldable pub shift_qualifier : ℕ → Bytes → Option Bytes
unfolding shifted_qualifier
shift_qualifier offset q = shifted_qualifier (parse_uint 32 q) offset

-- The body of the loop, from the point where the qualifier is shifted: the entry to append, if
-- any, and whether the list counts as shifted.
append_shifted : Option Bytes → Entry → Acl → Bool → Acl × Bool
append_shifted none e new_acl acl_shifted = (new_acl, acl_shifted)
append_shifted (some q) e new_acl acl_shifted = (new_acl ++ record e { qualifier = q } ∷ [], true)

shift_tagged : Tag → ℕ → ℕ → Entry → Acl → Bool → Acl × Bool
unfolding append_shifted
shift_tagged user uid_offset gid_offset e new_acl acl_shifted =
    append_shifted (shift_qualifier uid_offset e.qualifier) e new_acl acl_shifted
shift_tagged group uid_offset gid_offset e new_acl acl_shifted =
    append_shifted (shift_qualifier gid_offset e.qualifier) e new_acl acl_shifted
shift_tagged (other t) uid_offset gid_offset e new_acl acl_shifted =
    (new_acl ++ e ∷ [], acl_shifted)

-- The loop over the entries.
unfoldable pub shift_entries : ℕ → ℕ → Acl → Acl → Bool → Acl × Bool
unfolding shift_tagged
shift_entries uid_offset gid_offset [] new_acl acl_shifted = (new_acl, acl_shifted)
shift_entries uid_offset gid_offset (e ∷ facl) new_acl acl_shifted =
    let (acl', shifted') = shift_tagged e.tag uid_offset gid_offset e new_acl acl_shifted in
    shift_entries uid_offset gid_offset facl acl' shifted'

pub data Error : Type 0 where
  get_acl_failed set_acl_failed : Bytes → ℕ → Error

-- The ACL calls on a file system with states `S`, each with the error that it may report.
module _ {S : Type 0} (get : AclType → Bytes → S → Result ℕ Acl)
    (set : AclType → Bytes → Acl → S → S × Option ℕ) where
  written : Bytes → S × Option ℕ → S × Option Error
  written path (s, none) = (s, none)
  written path (s, some e) = (s, some (set_acl_failed path e))

  shift_got : Result ℕ Acl → AclType → Bytes → ℕ → ℕ → S → S × Option Error
  unfolding written
  shift_got (err e) acl_type path uid_offset gid_offset s = (s, some (get_acl_failed path e))
  shift_got (ok facl) acl_type path uid_offset gid_offset s =
      let (new_acl, acl_shifted) = shift_entries uid_offset gid_offset facl [] false in
      if acl_shifted then written path (set acl_type path new_acl s) else (s, none)

  unfoldable pub shift_acl_type : AclType → Bytes → ℕ → ℕ → S → S × Option Error
  unfolding shift_got
  shift_acl_type acl_type path uid_offset gid_offset s =
      shift_got (get acl_type path s) acl_type path uid_offset gid_offset s

  shift_default : S × Option Error → Bytes → Bool → ℕ → ℕ → S × Option Error
  shift_default (s, some e) path is_dir uid_offset gid_offset = (s, some e)
  shift_default (s, none) path is_dir uid_offset gid_offset =
      if is_dir then shift_acl_type default path uid_offset gid_offset s else (s, none)

  -- The access list, and for a directory the default list.
  unfoldable pub shift_acl_ids : Bytes → Bool → ℕ → ℕ → S → S × Option Error
  unfolding shift_default
  shift_acl_ids path is_dir uid_offset gid_offset s =
      shift_default (shift_acl_type access path uid_offset gid_offset s) path is_dir uid_offset
        gid_offset

shift_test :
    shift_entries 65536 65536
      (record { tag = user; qualifier = codes "1000"; perms = 7 }
        ∷ record { tag = user; qualifier = codes "x"; perms = 7 }
        ∷ record { tag = other 4; qualifier = []; perms = 5 }
        ∷ [])
      []
      false
    ≡ (
      record { tag = user; qualifier = codes "66536"; perms = 7 }
          ∷ record { tag = other 4; qualifier = []; perms = 5 }
          ∷ [],
      true,
    )
unfolding shift_entries shift_qualifier parse_uint format_uint
shift_test = refl
