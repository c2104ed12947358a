-- ===== src/IdShift/Shift/HardLinks.antt =====
-- What the walk of ShiftIdsWithChown does to the access list of a file with several names.
use sysbox_libs.Prelude.{
  ℕ, zero, suc, ◌≡◌, refl, ap, ◌∙◌, true, false, ◌&&◌, ◌||◌, Option, none, some, List, [], ◌∷◌,
  arith, Bytes, if◌then◌else◌, ◌==◌, nat_comparable, Bool-cases, inl, inr, All, nat_beq_iff,
}
use sysbox_libs.Prelude.Table.{Table}
use sysbox_libs.IdShift.Acl.{Acl, access}
use sysbox_libs.IdShift.Acl.Spec.{shift_acl, any_shifted}
use sysbox_libs.IdShift.Acl.Effect.{shifted_state, shift_acl_ids-ok}
use sysbox_libs.IdShift.Shift.{
  Kernel, Fowner, FileMode, Walk, Error, target_owner, shift_node, walk, acl_part, with_acl_error,
  after_chmod, after_chown,
}
use sysbox_libs.IdShift.Shift.Laws.{Lawful, AclLawful}
use sysbox_libs.IdShift.Shift.Node.{error_at-none, stat_at}

-- One shift of a list, as it is written back; a list with nothing to shift is not written.
abbrev pub shift_once : ℕ → ℕ → Acl → Acl
shift_once uo go a = if any_shifted uo go a then shift_acl uo go a else a

abbrev pub repeat {ℓ} : {A : Type ℓ} → ℕ → (A → A) → A → A
repeat zero f a = a
repeat (suc n) f a = repeat n f (f a)

-- The number of names by which a walk meets an inode.
abbrev pub names : (Bytes → ℕ) → ℕ → List Bytes → ℕ
names ino_of i [] = 0
names ino_of i (path ∷ rest) =
    if ino_of path == i then suc (names ino_of i rest) else names ino_of i rest

module _ {S : Type 0} (k : Kernel S) (law : Lawful k) (acl_law : AclLawful k law) (uo go : ℕ) where
  open law use {ino_of}

  abbrev list : ℕ → S → Acl
  list i s = law.acl access i s

  abbrev IsFile : FileMode → Type 0
  IsFile mode = (mode.is_symlink ≡ false) × (mode.is_dir ≡ false)

  abbrev pub AlwaysFile : Bytes → Type 0
  AlwaysFile path = (s : S) → IsFile (law.mode_of path s)

  abbrev shift_at : Bytes → S → S
  shift_at path s = shifted_state k.get_acl k.set_acl access path uo go (list (ino_of path) s) s

  list-shift_at :
      (path : Bytes) (s : S) (i : ℕ)
      → list i (shift_at path s)
        ≡ (if ino_of path == i then shift_once uo go (list i s) else list i s)
  list-shift_at path s i = elim (Bool-cases (any_shifted uo go (list (ino_of path) s))) [
    | inl h ↦ ground (
      arith,
      acl_law.set_acl_acl path (shift_acl uo go (list (ino_of path) s)) s i,
      nat_beq_iff (ino_of path) i,
    )
    | inr h ↦ ground (arith, nat_beq_iff (ino_of path) i)
  ]

  -- The part of the callback behind a state `s` succeeds with the access list shifted once.
  record Shifts (path : Bytes) (s : S) (r : Walk S × Option Error) : Type 0 where
    works : r.1 ≡ none
    lists :
        (i : ℕ)
        → list i r.0.fs ≡ (if ino_of path == i then shift_once uo go (list i s) else list i s)

  acl_part-Shifts :
      (path : Bytes) (mode : FileMode) (links : Table ℕ Fowner) (s : S)
      → IsFile mode
      → Shifts path s (acl_part k true path mode uo go links s)
  unfolding acl_part with_acl_error
  acl_part-Shifts path mode links s (no_link, no_dir) =
      rw
        (
          no_link,
          no_dir,
          shift_acl_ids-ok k.get_acl k.set_acl path false uo go (λ t. law.acl t (ino_of path)) s
              (λ t. law.get_acl_law t path) (λ t. law.set_acl_works t path),
        )
        (record { works = refl; lists = list-shift_at path s })

  -- What a call before it does not do to the lists does not change the count.
  Shifts-from :
      (path : Bytes) (s t : S) (r : Walk S × Option Error)
      → ((i : ℕ) → list i t ≡ list i s)
      → Shifts path t r
      → Shifts path s r
  Shifts-from path s t r same h = record {
    works = h.works;
    lists = λ i.
        h.lists i ∙ ap (λ (a : Acl). if ino_of path == i then shift_once uo go a else a) (same i);
  }

  after_chmod-Shifts :
      (r : S × Option ℕ) (path : Bytes) (mode : FileMode) (links : Table ℕ Fowner)
      → r.1 ≡ none
      → IsFile mode
      → Shifts path r.0 (after_chmod k r true path mode uo go links)
  unfolding after_chmod
  after_chmod-Shifts (t, none) path mode links e file = acl_part-Shifts path mode links t file
  after_chmod-Shifts (t, some x) path mode links e file = cc

  after_chown-Shifts :
      (r : S × Option ℕ) (path : Bytes) (mode : FileMode) (links : Table ℕ Fowner)
      → r.1 ≡ none
      → IsFile mode
      → Shifts path r.0 (after_chown k r true path mode uo go links)
  unfolding after_chown
  after_chown-Shifts (t, none) path mode links e file =
      elim (Bool-cases (mode.is_regular && (mode.setuid || mode.setgid))) [
        | inl h ↦ rw h (
            Shifts-from path t (k.chmod path mode t).0 _ (acl_law.chmod_acl path mode t) (
              after_chmod-Shifts (k.chmod path mode t) path mode links (law.chmod_works path mode t)
                file))
        | inr h ↦ rw h (acl_part-Shifts path mode links t file)
      ]
  after_chown-Shifts (t, some x) path mode links e file = cc

  shift_node-Shifts :
      (path : Bytes) (w : Walk S)
      → AlwaysFile path
      → Shifts path w.fs (shift_node k true uo go path w)
  unfolding shift_node
  shift_node-Shifts path w file =
      let (target, links) = target_owner k (stat_at k law path w.fs) uo go w.hard_links in
      rw (law.lstat_law path w.fs) (
        Shifts-from path w.fs (k.lchown path target.uid target.gid w.fs).0 _
          (acl_law.lchown_acl path target.uid target.gid w.fs)
          (after_chown-Shifts (k.lchown path target.uid target.gid w.fs) path
            (law.mode_of path w.fs) links (law.lchown_works path target.uid target.gid w.fs)
            (file w.fs)))

  named :
      (path : Bytes) (rest : List Bytes) (i : ℕ) (a b : Acl)
      → a ≡ (if ino_of path == i then shift_once uo go b else b)
      → repeat (names ino_of i rest) (shift_once uo go) a
        ≡ repeat (names ino_of i (path ∷ rest)) (shift_once uo go) b
  named path rest i a b e = elim (Bool-cases (ino_of path == i)) [
    | inl h ↦ rw (e, h)
    | inr h ↦ rw (e, h)
  ]

  -- On a tree of plain files with ACL support, where no call fails: the walk succeeds, and the
  -- access list of each inode is shifted once for each name by which the walk meets it.
  pub walk-shift_once :
      (nodes : List Bytes) (w : Walk S)
      → All AlwaysFile nodes
      → ((walk k true uo go nodes w).1 ≡ none)
        × ((i : ℕ)
            → law.acl access i (walk k true uo go nodes w).0.fs
              ≡ repeat (names law.ino_of i nodes) (shift_once uo go) (law.acl access i w.fs))
  unfolding walk
  walk-shift_once [] w files = (refl, λ i. refl)
  walk-shift_once (path ∷ rest) w files =
      let h = shift_node-Shifts path w files.0 in
      let w' = (shift_node k true uo go path w).0 in
      let ih = walk-shift_once rest w' files.1 in
      rw (error_at-none k law path (shift_node k true uo go path w) h.works, walk)
        (ih.0, λ i. ih.1 i ∙ named path rest i (list i w'.fs) (list i w.fs) (h.lists i))
