-- ===== src/IdShift/Acl/Effect.antt =====
-- shiftAclType and shiftAclIds where no call of the ACL library fails.
use sysbox_libs.Prelude.{
  ℕ, ◌≡◌, refl, Bool, true, false, Option, none, some, Result, ok, Bytes, if◌then◌else◌, Bool-cases,
  inl, inr,
}
use sysbox_libs.IdShift.Acl.{Acl, AclType, access, default, shift_acl_type, shift_acl_ids, written}
use sysbox_libs.IdShift.Acl.Spec.{shift_acl, any_shifted, shift_entries_lem}

module _ {S : Type 0} (get : AclType → Bytes → S → Result ℕ Acl)
    (set : AclType → Bytes → Acl → S → S × Option ℕ) where
  written-ok : (path : Bytes) (r : S × Option ℕ) → r.1 ≡ none → written get set path r ≡ (r.0, none)
  unfolding written
  written-ok path (s, none) h = refl
  written-ok path (s, some e) h = cc

  -- What a shift of the list of one type makes of the state.
  abbrev pub shifted_state : AclType → Bytes → ℕ → ℕ → Acl → S → S
  shifted_state t path uo go facl s =
      if any_shifted uo go facl then (set t path (shift_acl uo go facl) s).0 else s

  pub shift_acl_type-ok :
      (t : AclType) (path : Bytes) (uo go : ℕ) (facl : Acl) (s : S)
      → get t path s ≡ ok facl
      → ((a : Acl) → (set t path a s).1 ≡ none)
      → shift_acl_type get set t path uo go s ≡ (shifted_state t path uo go facl s, none)
  unfolding shift_acl_type
  shift_acl_type-ok t path uo go facl s got works = elim (Bool-cases (any_shifted uo go facl)) [
    | inl h ↦
        rw (got, shift_entries_lem uo go facl, h)
          (written-ok path (set t path (shift_acl uo go facl) s) (works (shift_acl uo go facl)))
    | inr h ↦ rw (got, shift_entries_lem uo go facl, h) refl
  ]

  pub shift_acl_ids-ok :
      (path : Bytes) (is_dir : Bool) (uo go : ℕ) (acl : AclType → S → Acl) (s : S)
      → ((t : AclType) (s : S) → get t path s ≡ ok (acl t s))
      → ((t : AclType) (a : Acl) (s : S) → (set t path a s).1 ≡ none)
      → shift_acl_ids get set path is_dir uo go s ≡ (
        if is_dir
            then shifted_state default path uo go
                (acl default (shifted_state access path uo go (acl access s) s))
                (shifted_state access path uo go (acl access s) s)
            else shifted_state access path uo go (acl access s) s,
        none,
      )
  unfolding shift_acl_ids
  shift_acl_ids-ok path true uo go acl s got works =
      rw
        (shift_acl_type-ok access path uo go (acl access s) s (got access s)
          (λ a. works access a s))
        (shift_acl_type-ok default path uo go _ _ (got default _) (λ a. works default a _))
  shift_acl_ids-ok path false uo go acl s got works =
      rw
        (shift_acl_type-ok access path uo go (acl access s) s (got access s)
          (λ a. works access a s))
        refl
