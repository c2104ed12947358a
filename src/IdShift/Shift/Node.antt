-- ===== src/IdShift/Shift/Node.antt =====
-- One call of the callback of ShiftIdsWithChown, on a tree where no call fails.
use sysbox_libs.Prelude.{
  ℕ, ◌≡◌, ◌≢◌, refl, ◌∙◌, Bool, true, false, not, ◌&&◌, ◌||◌, Option, none, some, Bytes,
  if◌then◌else◌, ◌==◌, nat_comparable, Bool-cases, inl, inr,
}
use sysbox_libs.Prelude.Table.{Table}
use sysbox_libs.IdShift.Acl.{
  Acl, AclType, access, default, add32, shift_acl_ids, shift_acl_type, shift_entries,
}
use sysbox_libs.IdShift.Acl.Spec.{shift_acl, any_shifted}
use sysbox_libs.IdShift.Acl.Effect.{shifted_state, shift_acl_ids-ok}
use sysbox_libs.IdShift.Acl
use sysbox_libs.IdShift.Shift.{
  with_acl_error, Kernel, Fowner, FileMode, StatT, Walk, Error, target_owner, shift_node, acl_part,
  after_chmod, after_chown, error_at,
}
use sysbox_libs.IdShift.Shift.Laws.{Lawful, keep_id}

module _ {S : Type 0} (k : Kernel S) (law : Lawful k) where
  open law use {owner, ino_of, nlink_of}

  -- Behind a callback that succeeds there is no error.
  pub error_at-none :
      (path : Bytes) (r : Walk S × Option Error) → r.1 ≡ none → error_at k path r ≡ none
  unfolding error_at
  error_at-none path (w, e) h = rw (h, law.read_works path w.fs) refl

  abbrev SameOwners : S → S → Type 0
  SameOwners s t = (i : ℕ) → owner i t ≡ owner i s

  -- The call succeeds and no owner changes.
  abbrev Keeps {ℓ} : {E : Type ℓ} → S → S × Option E → Type ℓ
  Keeps s r = (r.1 ≡ none) × SameOwners s r.0

  shifted_state-Keeps :
      (t : AclType) (path : Bytes) (uo go : ℕ) (facl : Acl) (s : S)
      → SameOwners s (shifted_state k.get_acl k.set_acl t path uo go facl s)
  shifted_state-Keeps t path uo go facl s i = elim (Bool-cases (any_shifted uo go facl)) [
    | inl h ↦ rw h (law.set_acl_owner t path (shift_acl uo go facl) s i)
    | inr h ↦ rw h refl
  ]

  -- The state after the shift of the access list.
  abbrev first : Bytes → ℕ → ℕ → S → S
  first path uo go s =
      shifted_state k.get_acl k.set_acl access path uo go (law.acl access (ino_of path) s) s

  shift_acl_ids-Keeps :
      (path : Bytes) (is_dir : Bool) (uo go : ℕ) (s : S)
      → Keeps s (shift_acl_ids k.get_acl k.set_acl path is_dir uo go s)
  shift_acl_ids-Keeps path true uo go s =
      rw
        (shift_acl_ids-ok k.get_acl k.set_acl path true uo go (λ t. law.acl t (ino_of path)) s
          (λ t. law.get_acl_law t path) (λ t. law.set_acl_works t path))
        (
          refl,
          λ i.
              shifted_state-Keeps default path uo go
                (law.acl default (ino_of path) (first path uo go s)) (first path uo go s) i
              ∙ shifted_state-Keeps access path uo go (law.acl access (ino_of path) s) s i,
        )
  shift_acl_ids-Keeps path false uo go s =
      rw
        (shift_acl_ids-ok k.get_acl k.set_acl path false uo go (λ t. law.acl t (ino_of path)) s
          (λ t. law.get_acl_law t path) (λ t. law.set_acl_works t path))
        (refl, λ i. shifted_state-Keeps access path uo go (law.acl access (ino_of path) s) s i)

  -- A part of the callback succeeds, leaves the table as given and the owners as they are in `s`.
  record Ends (s : S) (links : Table ℕ Fowner) (r : Walk S × Option Error) : Type 0 where
    works : r.1 ≡ none
    links_are : r.0.hard_links ≡ links
    owners : SameOwners s r.0.fs

  with_acl_error-Ends :
      (path : Bytes) (links : Table ℕ Fowner) (s : S) (r : S × Option Acl.Error)
      → Keeps s r
      → Ends s links (with_acl_error k path links r)
  unfolding with_acl_error
  with_acl_error-Ends path links s (t, none) (e, same) = record {
    works = refl;
    links_are = refl;
    owners = same;
  }
  with_acl_error-Ends path links s (t, some x) (e, same) = cc

  acl_part-Ends :
      (sup : Bool) (path : Bytes) (mode : FileMode) (uo go : ℕ) (links : Table ℕ Fowner) (s : S)
      → Ends s links (acl_part k sup path mode uo go links s)
  unfolding acl_part
  acl_part-Ends sup path mode uo go links s = elim (Bool-cases (not mode.is_symlink && sup)) [
    | inl h ↦
        rw h (with_acl_error-Ends path links s _ (shift_acl_ids-Keeps path mode.is_dir uo go s))
    | inr h ↦ rw h (record { works = refl; links_are = refl; owners = λ i. refl })
  ]

  Ends-trans :
      (s t : S) (links : Table ℕ Fowner) (r : Walk S × Option Error)
      → SameOwners s t
      → Ends t links r
      → Ends s links r
  Ends-trans s t links r same e = record {
    works = e.works;
    links_are = e.links_are;
    owners = λ i. e.owners i ∙ same i;
  }

  after_chmod-Ends :
      (r : S × Option ℕ) (sup : Bool) (path : Bytes) (mode : FileMode) (uo go : ℕ)
      (links : Table ℕ Fowner) (s : S)
      → Keeps s r
      → Ends s links (after_chmod k r sup path mode uo go links)
  unfolding after_chmod
  after_chmod-Ends (t, none) sup path mode uo go links s (e, same) =
      Ends-trans s t links _ same (acl_part-Ends sup path mode uo go links t)
  after_chmod-Ends (t, some x) sup path mode uo go links s (e, same) = cc

  after_chown-Ends :
      (r : S × Option ℕ) (sup : Bool) (path : Bytes) (mode : FileMode) (uo go : ℕ)
      (links : Table ℕ Fowner)
      → r.1 ≡ none
      → Ends r.0 links (after_chown k r sup path mode uo go links)
  unfolding after_chown
  after_chown-Ends (t, none) sup path mode uo go links e =
      elim (Bool-cases (mode.is_regular && (mode.setuid || mode.setgid))) [
        | inl h ↦ rw h (
            after_chmod-Ends (k.chmod path mode t) sup path mode uo go links t
              (law.chmod_works path mode t, law.chmod_owner path mode t))
        | inr h ↦ rw h (acl_part-Ends sup path mode uo go links t)
      ]
  after_chown-Ends (t, some x) sup path mode uo go links e = cc

  abbrev pub stat_at : Bytes → S → StatT
  stat_at path s = record {
    uid = (owner (ino_of path) s).uid;
    gid = (owner (ino_of path) s).gid;
    nlink = nlink_of (ino_of path);
    ino = ino_of path;
  }

  -- One call of the callback: it succeeds and gives the inode its target owner, and no other.
  pub record Chowns (path : Bytes) (target : Fowner) (links : Table ℕ Fowner) (s : S)
      (r : Walk S × Option Error) : Type 0 where
    pub works : r.1 ≡ none
    pub links_are : r.0.hard_links ≡ links
    pub owners : (i : ℕ) → owner i r.0.fs ≡ (if ino_of path == i then target else owner i s)

  pub shift_node-Chowns :
      (sup : Bool) (uo go : ℕ) (path : Bytes) (w : Walk S) (target : Fowner)
      (links : Table ℕ Fowner)
      → target_owner k (stat_at path w.fs) uo go w.hard_links ≡ (target, links)
      → target.uid ≢ keep_id
      → target.gid ≢ keep_id
      → Chowns path target links w.fs (shift_node k sup uo go path w)
  unfolding shift_node
  shift_node-Chowns sup uo go path w target links e hu hg =
      rw (law.lstat_law path w.fs, e)
        (record {
          works = ends.works;
          links_are = ends.links_are;
          owners = λ i. ends.owners i ∙ law.lchown_owner path target.uid target.gid w.fs i hu hg;
        })
    where
      ends : Ends (k.lchown path target.uid target.gid w.fs).0 links (
          after_chown k
            (k.lchown path target.uid target.gid w.fs)
            sup
            path
            (law.mode_of path w.fs)
            uo
            go
            links)
      ends =
          after_chown-Ends _ sup path _ uo go links
            (law.lchown_works path target.uid target.gid w.fs)
