-- ===== src/IdShift/Shift.antt =====
-- ShiftIdsWithChown of idShiftUtils/idShiftUtils.go.
-- The kernel's file calls, the order of godirwalk's walk and its failures to read a directory are
-- parameters.
pub mod Laws
pub mod Node
pub mod Owners
pub mod HardLinks
use sysbox_libs.Prelude.{
  ℕ, suc, ◌≡◌, ◌<◌, refl, Bool, true, false, not, ◌&&◌, ◌||◌, Option, none, some, List, [], ◌∷◌,
  arith, Result, ok, err, Bytes, ltb, if◌then◌else◌, nat_comparable, nat_beq,
}
use sysbox_libs.Prelude.Table.{Table, lookup, insert}
use sysbox_libs.IdShift.Acl.{Acl, AclType, add32, shift_acl_ids}
use sysbox_libs.IdShift.Acl

-- `syscall.Stat_t`, as far as it is read.
pub record StatT : Type 0 where
  pub uid : ℕ
  pub gid : ℕ
  pub nlink : ℕ
  pub ino : ℕ

-- `os.FileMode`, as far as it is read.
pub record FileMode : Type 0 where
  pub is_symlink : Bool
  pub is_dir : Bool
  pub is_regular : Bool
  pub setuid : Bool
  pub setgid : Bool

-- `os.FileInfo`; `sys` is `none` if it holds something else than a `Stat_t`.
pub record FileInfo : Type 0 where
  pub mode : FileMode
  pub sys : Option StatT

-- The calls of the kernel and of the ACL library. A call that changes something returns the new
-- state, and its error if there is one. `read_error` is the failure of godirwalk to read a
-- directory, which it comes to behind the callback; another file has none.
pub record Kernel (S : Type 0) : Type 0 where
  pub lstat : Bytes → S → Result ℕ FileInfo
  pub lchown : Bytes → ℕ → ℕ → S → S × Option ℕ
  pub chmod : Bytes → FileMode → S → S × Option ℕ
  pub get_acl : AclType → Bytes → S → Result ℕ Acl
  pub set_acl : AclType → Bytes → Acl → S → S × Option ℕ
  pub open_error : Bytes → S → Option ℕ
  pub fsetxattr : Bytes → S → S × Option ℕ
  pub read_error : Bytes → S → Option ℕ

pub record Fowner : Type 0 where
  pub uid : ℕ
  pub gid : ℕ

pub data Error : Type 0 where
  lstat_failed : ℕ → Error
  no_stat : Error
  chown_failed chmod_failed read_failed : Bytes → ℕ → Error
  acl_failed : Bytes → Acl.Error → Error

abbrev pub enotsup : ℕ
enotsup = 95

-- What the walk keeps: the file system, and the owners of the hard links that it has met.
pub record Walk (S : Type 0) : Type 0 where
  pub fs : S
  pub hard_links : Table ℕ Fowner

module _ {S : Type 0} (k : Kernel S) where
  is_supported : S × Option ℕ → S × Bool
  is_supported (s, none) = (s, true)
  is_supported (s, some e) = (s, not (nat_beq e enotsup))

  -- `checkACLSupport`
  pub check_acl_support : Bytes → S → S × Bool
  unfolding is_supported
  check_acl_support path s = elim (k.open_error path s) [
    | some e ↦ (s, false)
    | none ↦ is_supported (k.fsetxattr path s)
  ]

  -- The owner to set, and the table with it noted, for a file with several links.
  linked_owner : Option Fowner → ℕ → Fowner → Table ℕ Fowner → Fowner × Table ℕ Fowner
  linked_owner (some owner) ino target links = (owner, links)
  linked_owner none ino target links = (target, insert ino target links)

  unfoldable pub target_owner : StatT → ℕ → ℕ → Table ℕ Fowner → Fowner × Table ℕ Fowner
  unfolding linked_owner
  target_owner st uid_offset gid_offset links =
      let target : Fowner = record {
        uid = add32 st.uid uid_offset;
        gid = add32 st.gid gid_offset;
      } in
      if ltb 1 st.nlink
      then linked_owner (lookup st.ino links) st.ino target links
      else (target, links)

  with_acl_error : Bytes → Table ℕ Fowner → S × Option Acl.Error → Walk S × Option Error
  with_acl_error path links (s, none) = (record { fs = s; hard_links = links }, none)
  with_acl_error path links (s, some e) =
      (record { fs = s; hard_links = links }, some (acl_failed path e))

  -- The shift of the ACLs, unless the file is a symbolic link or there is no ACL support.
  acl_part : Bool → Bytes → FileMode → ℕ → ℕ → Table ℕ Fowner → S → Walk S × Option Error
  unfolding with_acl_error
  acl_part acl_supported path mode uid_offset gid_offset links s =
      if not mode.is_symlink && acl_supported
      then with_acl_error path links
          (shift_acl_ids k.get_acl k.set_acl path mode.is_dir uid_offset gid_offset s)
      else (record { fs = s; hard_links = links }, none)

  after_chmod :
      S × Option ℕ → Bool → Bytes → FileMode → ℕ → ℕ → Table ℕ Fowner → Walk S × Option Error
  unfolding acl_part
  after_chmod (s, some e) acl_supported path mode uid_offset gid_offset links =
      (record { fs = s; hard_links = links }, some (chmod_failed path e))
  after_chmod (s, none) acl_supported path mode uid_offset gid_offset links =
      acl_part acl_supported path mode uid_offset gid_offset links s

  -- A chown clears the set-user-ID and set-group-ID bits of a file, so they are restored.
  after_chown :
      S × Option ℕ → Bool → Bytes → FileMode → ℕ → ℕ → Table ℕ Fowner → Walk S × Option Error
  unfolding after_chmod
  after_chown (s, some e) acl_supported path mode uid_offset gid_offset links =
      (record { fs = s; hard_links = links }, some (chown_failed path e))
  after_chown (s, none) acl_supported path mode uid_offset gid_offset links =
      if mode.is_regular && (mode.setuid || mode.setgid)
      then after_chmod (k.chmod path mode s) acl_supported path mode uid_offset gid_offset links
      else acl_part acl_supported path mode uid_offset gid_offset links s

  on_stat : Option StatT → FileMode → Bool → ℕ → ℕ → Bytes → Walk S → Walk S × Option Error
  unfolding after_chown target_owner
  on_stat none mode acl_supported uid_offset gid_offset path w = (w, some no_stat)
  on_stat (some st) mode acl_supported uid_offset gid_offset path w =
      let (target, links) = target_owner st uid_offset gid_offset w.hard_links in
      after_chown (k.lchown path target.uid target.gid w.fs) acl_supported path mode uid_offset
        gid_offset links

  on_info : Result ℕ FileInfo → Bool → ℕ → ℕ → Bytes → Walk S → Walk S × Option Error
  unfolding on_stat
  on_info (err e) acl_supported uid_offset gid_offset path w = (w, some (lstat_failed e))
  on_info (ok fi) acl_supported uid_offset gid_offset path w =
      on_stat fi.sys fi.mode acl_supported uid_offset gid_offset path w

  -- The callback of the walk.
  unfoldable pub shift_node : Bool → ℕ → ℕ → Bytes → Walk S → Walk S × Option Error
  unfolding on_info
  shift_node acl_supported uid_offset gid_offset path w =
      on_info (k.lstat path w.fs) acl_supported uid_offset gid_offset path w

  -- The error callback: only the error of a symbolic link is passed over.
  skips : Result ℕ FileInfo → Bool
  skips (err e) = false
  skips (ok fi) = fi.mode.is_symlink

  read_node : Bytes → Option ℕ → Option Error
  read_node path none = none
  read_node path (some e) = some (read_failed path e)

  -- The error at a node: that of the callback, or else of reading the directory.
  unfoldable pub error_at : Bytes → Walk S × Option Error → Option Error
  unfolding read_node
  error_at path (w, some e) = some e
  error_at path (w, none) = read_node path (k.read_error path w.fs)

  -- The walk over the nodes in the order in which godirwalk comes to them; it halts at the first
  -- error that is not passed over.
  pub walk : Bool → ℕ → ℕ → List Bytes → Walk S → Walk S × Option Error
  unfolding skips
  walk acl_supported uid_offset gid_offset [] w = (w, none)
  walk acl_supported uid_offset gid_offset (path ∷ rest) w =
      let r = shift_node acl_supported uid_offset gid_offset path w in
      let w' = r.0 in
      elim (error_at path r) [
        | none ↦ walk acl_supported uid_offset gid_offset rest w'
        | some e ↦
            let next = walk acl_supported uid_offset gid_offset rest w' in
            if skips (k.lstat path w'.fs) then next else (w', some e)
      ]

  pub shift_ids_with_chown : Bytes → List Bytes → ℕ → ℕ → S → S × Option Error
  unfolding walk check_acl_support
  shift_ids_with_chown base_dir nodes uid_offset gid_offset s =
      let (s', acl_supported) = check_acl_support base_dir s in
      let (w, er) =
        walk acl_supported uid_offset gid_offset nodes (record { fs = s'; hard_links = [] }) in
      (w.fs, er)
