-- ===== src/IdShift/Shift/Owners.antt =====
-- ShiftIdsWithChown shifts the owner of every file of the walk once, however many names it has.
use sysbox_libs.Prelude.{
  ℕ, ◌≡◌, ◌≢◌, refl, ap, ◌∙◌, Bool, true, not, ◌&&◌, ◌||◌, Option, none, some, List, [], ◌∷◌, arith,
  Bytes, ltb, if◌then◌else◌, nat_comparable, contains, map, Option-cases, inl, inr, nat_beq_iff,
}
use sysbox_libs.Prelude.Table.{Table, lookup, insert, lookup-insert}
use sysbox_libs.IdShift.Acl.{add32}
use sysbox_libs.IdShift.Shift.{
  Kernel, Fowner, Walk, Error, target_owner, shift_node, walk, shift_ids_with_chown,
  check_acl_support, is_supported,
}
use sysbox_libs.IdShift.Shift.Laws.{Lawful, keep_id}
use sysbox_libs.IdShift.Shift.Node.{Chowns, error_at-none, shift_node-Chowns, stat_at}

abbrev pub shifted : ℕ → ℕ → Fowner → Fowner
shifted uo go o = record { uid = add32 o.uid uo; gid = add32 o.gid go }

module _ {S : Type 0} (k : Kernel S) (law : Lawful k) where
  open law use {owner, ino_of, nlink_of}

  abbrev pub inodes : List Bytes → List ℕ
  inodes nodes = map ino_of nodes

  -- An inode that the walk meets again has more than one link.
  abbrev pub Linked : List ℕ → List Bytes → Type 0
  Linked seen [] = Unit
  Linked seen (path ∷ rest) =
      (contains seen (ino_of path) ≡ true → ltb 1 (nlink_of (ino_of path)) ≡ true)
      × Linked (ino_of path ∷ seen) rest

  module _ (uo go : ℕ) (s : S) where
    abbrev goal_of : ℕ → Fowner
    goal_of i = shifted uo go (owner i s)

    -- Half-way through the walk, with the inodes `seen` done.
    record Mid (seen : List ℕ) (w : Walk S) : Type 0 where
      owners : (i : ℕ) → owner i w.fs ≡ (if contains seen i then goal_of i else owner i s)
      noted :
          (i : ℕ)
          → lookup i w.hard_links
            ≡ (if contains seen i && ltb 1 (nlink_of i) then some (goal_of i) else none)

    abbrev noted_links : ℕ → List ℕ → Table ℕ Fowner → Table ℕ Fowner
    noted_links i seen links =
        if ltb 1 (nlink_of i) && not (contains seen i) then insert i (goal_of i) links else links

    target_owner-goal :
        (path : Bytes) (seen : List ℕ) (w : Walk S)
        → (contains seen (ino_of path) ≡ true → ltb 1 (nlink_of (ino_of path)) ≡ true)
        → Mid seen w
        → target_owner k (stat_at k law path w.fs) uo go w.hard_links
          ≡ (goal_of (ino_of path), noted_links (ino_of path) seen w.hard_links)
    unfolding target_owner
    target_owner-goal path seen w linked mid =
        ground (arith, linked, mid.owners (ino_of path), mid.noted (ino_of path))

    noted_links-Mid :
        (p i : ℕ) (seen : List ℕ) (links : Table ℕ Fowner)
        → ((i : ℕ)
            → lookup i links
              ≡ (if contains seen i && ltb 1 (nlink_of i) then some (goal_of i) else none))
        → lookup i (noted_links p seen links)
          ≡ (if contains (p ∷ seen) i && ltb 1 (nlink_of i) then some (goal_of i) else none)
    noted_links-Mid p i seen links noted =
        ground (arith, noted i, noted p, lookup-insert p i (goal_of p) links, nat_beq_iff p i)

    node-Mid :
        (path : Bytes) (seen : List ℕ) (w : Walk S) (r : Walk S × Option Error)
        → Mid seen w
        → Chowns k law path
            (goal_of (ino_of path))
            (noted_links (ino_of path) seen w.hard_links)
            w.fs
            r
        → Mid (ino_of path ∷ seen) r.0
    node-Mid path seen w r mid c = record {
      owners = λ i. ground (arith, c.owners i, mid.owners i, nat_beq_iff (ino_of path) i);
      noted = λ i.
          ap (lookup i) c.links_are ∙ noted_links-Mid (ino_of path) i seen w.hard_links mid.noted;
    }

    abbrev NoKeepId : Type 0
    NoKeepId = (i : ℕ) → ((goal_of i).uid ≢ keep_id) × ((goal_of i).gid ≢ keep_id)

    abbrev Done : List ℕ → Walk S × Option Error → Type 0
    Done seen r =
        (r.1 ≡ none)
        × ((i : ℕ) → owner i r.0.fs ≡ (if contains seen i then goal_of i else owner i s))

    -- The inodes that are done behind the walk of `nodes`.
    abbrev met : List ℕ → List Bytes → List ℕ
    met seen [] = seen
    met seen (path ∷ rest) = met (ino_of path ∷ seen) rest

    contains-met :
        (nodes : List Bytes) (seen : List ℕ) (i : ℕ)
        → contains (met seen nodes) i ≡ (contains seen i || contains (inodes nodes) i)
    contains-met [] seen i = ground arith
    contains-met (path ∷ rest) seen i = ground (arith, contains-met rest (ino_of path ∷ seen) i)

    walk-cons :
        (sup : Bool) (path : Bytes) (rest : List Bytes) (w : Walk S)
        → (shift_node k sup uo go path w).1 ≡ none
        → walk k sup uo go (path ∷ rest) w ≡ walk k sup uo go rest (shift_node k sup uo go path w).0
    unfolding walk
    walk-cons sup path rest w h =
        rw (error_at-none k law path (shift_node k sup uo go path w) h, walk) refl

    walk-Done :
        (sup : Bool) (nodes : List Bytes) (seen : List ℕ) (w : Walk S)
        → NoKeepId
        → Linked seen nodes
        → Mid seen w
        → Done (met seen nodes) (walk k sup uo go nodes w)
    walk-Done sup [] seen w ids linked mid = unfold walk in (refl, mid.owners)
    walk-Done sup (path ∷ rest) seen w ids linked mid =
        let c =
          shift_node-Chowns k law sup uo go path w (goal_of (ino_of path))
            (noted_links (ino_of path) seen w.hard_links)
            (target_owner-goal path seen w linked.0 mid) (ids (ino_of path)).0
            (ids (ino_of path)).1 in
        rw (walk-cons sup path rest w c.works) (
          walk-Done sup rest (ino_of path ∷ seen) (shift_node k sup uo go path w).0 ids linked.1
            (node-Mid path seen w (shift_node k sup uo go path w) mid c))

  is_supported-fs : (r : S × Option ℕ) → (is_supported k r).0 ≡ r.0
  unfolding is_supported
  is_supported-fs (s, none) = refl
  is_supported-fs (s, some e) = refl

  probe-owner : (base : Bytes) (s : S) (i : ℕ) → owner i (check_acl_support k base s).0 ≡ owner i s
  unfolding check_acl_support
  probe-owner base s i = elim (Option-cases (k.open_error base s)) [
    | inl e ↦
        rw (e, check_acl_support)
          (ap (owner i) (is_supported-fs (k.fsetxattr base s)) ∙ law.probe_owner base s i)
    | inr (x, e) ↦ rw (e, check_acl_support) refl
  ]

  -- On a tree where no call fails, where an inode that the walk meets under two names has more
  -- than one link, and where no shifted id is 2^32 - 1, which a chown takes for "leave it":
  -- ShiftIdsWithChown succeeds, adds the offsets modulo 2^32 to the ids of every inode of the
  -- walk, once for all its names, and leaves the owner of every other inode.
  pub shift_ids_with_chown-owner :
      (base : Bytes) (nodes : List Bytes) (uo go : ℕ) (s : S)
      → Linked [] nodes
      → ((i : ℕ) → (add32 (owner i s).uid uo ≢ keep_id) × (add32 (owner i s).gid go ≢ keep_id))
      → ((shift_ids_with_chown k base nodes uo go s).1 ≡ none)
        × ((i : ℕ)
            → owner i (shift_ids_with_chown k base nodes uo go s).0
              ≡ (if contains (inodes nodes) i then shifted uo go (owner i s) else owner i s))
  unfolding shift_ids_with_chown
  shift_ids_with_chown-owner base nodes uo go s linked ids =
      let s' = (check_acl_support k base s).0 in
      let done =
        walk-Done uo go s (check_acl_support k base s).1 nodes []
          (record { fs = s'; hard_links = [] }) ids linked
          (record { owners = probe-owner base s; noted = λ i. unfold lookup in refl }) in
      (
        done.0,
        λ i.
            done.1 i
            ∙ ap (λ (b : Bool). if b then shifted uo go (owner i s) else owner i s)
                (contains-met uo go s nodes [] i),
      )
