-- ===== src/IdShift/Examples.antt =====
-- A kernel with one file for each inode, in memory, and runs of idShiftUtils on it.
use sysbox_libs.IdShift.DirIds.{Sets, get_dir_ids, get_dir_ids_lem}
use sysbox_libs.Prelude.{
  Bytes, Distinct, List, [], any, arith, codes, contains, eq_ne, false, if◌then◌else◌, none, ok,
  refl, some, true, ℕ, ◌%◌, ◌+◌, ◌-◌, ◌==◌, ◌^◌, ◌∷◌, ◌≡◌, ◌≢◌, nat_comparable, bytes_comparable,
}
use sysbox_libs.Prelude.Sets.{Members, add_member, contains-add_member}
use sysbox_libs.Strings.Decimal.{format_uint, parse_uint}
use sysbox_libs.IdShift.Acl.{
  Acl, AclType, Entry, access, default, other, shift_entries, shift_qualifier, user,
}
use sysbox_libs.IdShift.Acl.RoundTrip.{neg32, shift_entries-back, shift_qualifier_lem}
use sysbox_libs.IdShift.Acl.Spec.{any_shifted, shift_acl, shift_entries_lem}
use sysbox_libs.IdShift.Shift.{FileMode, Fowner, Kernel, shift_ids_with_chown, walk}
use sysbox_libs.IdShift.Shift.Laws.{AclLawful, Lawful, keep_id}
use sysbox_libs.IdShift.Shift.Owners.{shift_ids_with_chown-owner}
use sysbox_libs.IdShift.Shift.HardLinks.{names, repeat, shift_once, walk-shift_once}

abbrev named_user : Bytes → Entry
named_user q = record { tag = user; qualifier = q; perms = 7 }

record Disk : Type 0 where
  owners : ℕ → Fowner
  lists : AclType → ℕ → Acl

-- Two inodes, by the parity of a name's first letter; both have two links.
abbrev inode : Bytes → ℕ
inode [] = 0
inode (c ∷ rest) = c % 2

abbrev plain : FileMode
plain = record {
  is_symlink = false;
  is_dir = false;
  is_regular = true;
  setuid = false;
  setgid = false;
}

abbrev new_id : ℕ → ℕ → ℕ
new_id old id = if id == keep_id then old else id

abbrev set_list : AclType → AclType → Acl → Acl → Acl
set_list access access new old = new
set_list default default new old = new
set_list _ _ new old = old

abbrev disk_kernel : Kernel Disk
disk_kernel = record {
  lstat = λ path d. ok (record {
    mode = plain;
    sys = some (record {
      uid = (d.owners (inode path)).uid;
      gid = (d.owners (inode path)).gid;
      nlink = 2;
      ino = inode path;
    });
  });
  lchown = λ path u g d. (
    record d {
      owners = λ i.
          if inode path == i
          then record { uid = new_id (d.owners i).uid u; gid = new_id (d.owners i).gid g }
          else d.owners i;
    },
    none,
  );
  chmod = λ path m d. (d, none);
  get_acl = λ t path d. ok (d.lists t (inode path));
  set_acl = λ t path a d. (
    record d {
      lists = λ t' i. if inode path == i then set_list t t' a (d.lists t' i) else d.lists t' i;
    },
    none,
  );
  open_error = λ path d. none;
  fsetxattr = λ path d. (d, none);
  read_error = λ path d. none;
}

chown_owner :
    (d : Disk) (path : Bytes) (u g i : ℕ)
    → u ≢ keep_id
    → g ≢ keep_id
    → (disk_kernel.lchown path u g d).0.owners i
      ≡ (if inode path == i then record { uid = u; gid = g } else d.owners i)
chown_owner d path u g i hu hg = ground (arith, eq_ne u keep_id hu, eq_ne g keep_id hg)

abbrev disk_law : Lawful disk_kernel
disk_law = record {
  ino_of = inode;
  nlink_of = λ i. 2;
  owner = λ i d. d.owners i;
  mode_of = λ path d. plain;
  lstat_law = λ path d. refl;
  lchown_works = λ path u g d. refl;
  lchown_owner = λ path u g d i. chown_owner d path u g i;
  chmod_works = λ path m d. refl;
  chmod_owner = λ path m d i. refl;
  acl = λ t i d. d.lists t i;
  get_acl_law = λ t path d. refl;
  set_acl_works = λ t path a d. refl;
  set_acl_owner = λ t path a d i. refl;
  read_works = λ path d. refl;
  probe_owner = λ path d i. refl;
}

abbrev disk_acl_law : AclLawful disk_kernel disk_law
disk_acl_law = record {
  lchown_acl = λ path u g d i. refl;
  chmod_acl = λ path m d i. refl;
  set_acl_acl = λ path a d i. refl;
}

abbrev disk : Disk
disk = record {
  owners = λ i. record { uid = 1000; gid = 1000 };
  lists = λ t i. named_user (codes "5") ∷ [];
}

-- "a" and "c" are two names of one file.
abbrev nodes : List Bytes
nodes = codes "a" ∷ codes "b" ∷ codes "c" ∷ []

shift_ids_with_chown-owner_example :
    ((shift_ids_with_chown disk_kernel (codes "a") nodes 65536 65536 disk).1 ≡ none)
    × ((i : ℕ)
        → (shift_ids_with_chown disk_kernel (codes "a") nodes 65536 65536 disk).0.owners i ≡ (
            if contains (1 ∷ 0 ∷ 1 ∷ []) i
            then record { uid = 66536; gid = 66536 }
            else disk.owners i))
shift_ids_with_chown-owner_example =
    shift_ids_with_chown-owner disk_kernel disk_law (codes "a") nodes 65536 65536 disk
      ((λ e. refl), ((λ e. refl), ((λ e. refl), tt))) (λ i. (omega arith, omega arith))

walk-shift_once_example :
    ((walk disk_kernel true 65536 65536 nodes (record { fs = disk; hard_links = [] })).1 ≡ none)
    × ((i : ℕ)
        → (walk disk_kernel true 65536 65536 nodes
              (record { fs = disk; hard_links = [] })).0.fs.lists
            access i
          ≡ repeat (names inode i nodes) (shift_once 65536 65536) (named_user (codes "5") ∷ []))
walk-shift_once_example =
    walk-shift_once disk_kernel disk_law disk_acl_law 65536 65536 nodes
      (record { fs = disk; hard_links = [] })
      ((λ s. (refl, refl)), ((λ s. (refl, refl)), ((λ s. (refl, refl)), tt)))

-- The file with two names has its user 5 shifted twice, to 131077.
twice_shifted :
    shift_once 65536 65536 (shift_once 65536 65536 (named_user (codes "5") ∷ []))
    ≡ named_user (codes "131077") ∷ []
unfolding shift_qualifier parse_uint format_uint
twice_shifted = refl

shift_entries-back_example :
    (shift_entries
      (neg32 65536)
      (neg32 65536)
      (shift_entries 65536 65536
        (named_user (format_uint 1000) ∷ record { tag = other 4; qualifier = []; perms = 5 } ∷ [])
        []
        false).0
      []
      false).0
    ≡ named_user (format_uint 1000) ∷ record { tag = other 4; qualifier = []; perms = 5 } ∷ []
shift_entries-back_example =
    shift_entries-back 65536 65536
      (named_user (format_uint 1000) ∷ record { tag = other 4; qualifier = []; perms = 5 } ∷ [])
      (omega arith) (omega arith) ((1000, refl, omega arith, omega arith), (tt, tt))

shift_qualifier_lem_example :
    (shift_qualifier 65536 (codes "2147483647")
      ≡ some (format_uint (2 ^ 64 - (2 ^ 32 - (2 ^ 31 + 65535)))))
    × (parse_uint 32 (format_uint (2 ^ 64 - (2 ^ 32 - (2 ^ 31 + 65535)))) ≡ none)
unfolding parse_uint
shift_qualifier_lem_example = shift_qualifier_lem 65536 2147483647 (codes "2147483647") refl

shift_entries_lem_example : shift_entries 65536 65536 (named_user (codes "x") ∷ []) [] false ≡ (
  shift_acl 65536 65536 (named_user (codes "x") ∷ []),
  any_shifted 65536 65536 (named_user (codes "x") ∷ []),
)
shift_entries_lem_example = shift_entries_lem 65536 65536 (named_user (codes "x") ∷ [])

-- Sets as lists.
abbrev list_sets : Sets
list_sets = record {
  IdSet = Members ℕ;
  empty = ([], tt);
  add = add_member;
  to_slice = λ s. s.0;
  to_slice-empty = refl;
  to_slice-add = contains-add_member;
  to_slice-Distinct = λ s. s.1;
}

get_dir_ids_lem_example :
    (uids : List ℕ) × (gids : List ℕ) × (get_dir_ids list_sets disk_kernel nodes disk
      ≡ ok (uids, gids))
    × Distinct uids
    × Distinct gids
    × ((id : ℕ) → contains uids id ≡ any (λ p. 1000 == id) nodes)
    × ((id : ℕ) → contains gids id ≡ any (λ p. 1000 == id) nodes)
get_dir_ids_lem_example = get_dir_ids_lem list_sets disk_kernel disk_law nodes disk
