-- ===== src/IdShift/Shift/Laws.antt =====
-- What the kernel documents of the file calls that idShiftUtils makes, for a tree on which no call
-- fails: the files are inodes with an owner, a number of links and two ACLs, and each call changes
-- what it is for.
use sysbox_libs.Prelude.{
  ℕ, ◌-◌, ◌^◌, ◌≡◌, ◌≢◌, none, some, ok, Bytes, if◌then◌else◌, ◌==◌, nat_comparable,
}
use sysbox_libs.IdShift.Acl.{Acl, AclType, access}
use sysbox_libs.IdShift.Shift.{Kernel, Fowner, FileMode}

-- The id that a chown takes for "leave it as it is".
abbrev pub keep_id : ℕ
keep_id = 2 ^ 32 - 1

pub record Lawful {S : Type 0} (k : Kernel S) : Type 0 where
  pub ino_of : Bytes → ℕ
  pub nlink_of : ℕ → ℕ
  pub owner : ℕ → S → Fowner
  pub mode_of : Bytes → S → FileMode
  pub lstat_law :
      (path : Bytes) (s : S)
      → k.lstat path s
        ≡ ok (record {
          mode = mode_of path s;
          sys = some (record {
            uid = (owner (ino_of path) s).uid;
            gid = (owner (ino_of path) s).gid;
            nlink = nlink_of (ino_of path);
            ino = ino_of path;
          });
        })
  pub lchown_works : (path : Bytes) (u g : ℕ) (s : S) → (k.lchown path u g s).1 ≡ none
  pub lchown_owner :
      (path : Bytes) (u g : ℕ) (s : S) (i : ℕ)
      → u ≢ keep_id
      → g ≢ keep_id
      → owner i (k.lchown path u g s).0
        ≡ (if ino_of path == i then record { uid = u; gid = g } else owner i s)
  pub chmod_works : (path : Bytes) (m : FileMode) (s : S) → (k.chmod path m s).1 ≡ none
  pub chmod_owner :
      (path : Bytes) (m : FileMode) (s : S) (i : ℕ) → owner i (k.chmod path m s).0 ≡ owner i s
  pub acl : AclType → ℕ → S → Acl
  pub get_acl_law :
      (t : AclType) (path : Bytes) (s : S) → k.get_acl t path s ≡ ok (acl t (ino_of path) s)
  pub set_acl_works :
      (t : AclType) (path : Bytes) (a : Acl) (s : S) → (k.set_acl t path a s).1 ≡ none
  pub set_acl_owner :
      (t : AclType) (path : Bytes) (a : Acl) (s : S) (i : ℕ)
      → owner i (k.set_acl t path a s).0 ≡ owner i s
  pub read_works : (path : Bytes) (s : S) → k.read_error path s ≡ none
  pub probe_owner : (path : Bytes) (s : S) (i : ℕ) → owner i (k.fsetxattr path s).0 ≡ owner i s

-- What the calls do to the access lists, where none fails.
pub record AclLawful {S : Type 0} (k : Kernel S) (law : Lawful k) : Type 0 where
  pub lchown_acl :
      (path : Bytes) (u g : ℕ) (s : S) (i : ℕ)
      → law.acl access i (k.lchown path u g s).0 ≡ law.acl access i s
  pub chmod_acl :
      (path : Bytes) (m : FileMode) (s : S) (i : ℕ)
      → law.acl access i (k.chmod path m s).0 ≡ law.acl access i s
  pub set_acl_acl :
      (path : Bytes) (a : Acl) (s : S) (i : ℕ)
      → law.acl access i (k.set_acl access path a s).0
        ≡ (if law.ino_of path == i then a else law.acl access i s)
