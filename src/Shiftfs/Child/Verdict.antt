-- ===== src/Shiftfs/Child/Verdict.antt =====
-- What the check of shiftfs/shiftfs.go concludes from the end of its child, and the files that the
-- child makes.
use sysbox_libs.Prelude.{
  is_some, nat_beq, ◌<◌, Bool, Bytes, List, Option, [], arith, bytes_beq_iff, codes, false,
  if◌then◌else◌, none, not, refl, some, true, ℕ, ◌&&◌, ◌==◌, ◌||◌, ◌∷◌, ◌≡◌, nat_comparable,
  bytes_comparable,
}
use sysbox_libs.Prelude.Table.{Table}
use sysbox_libs.Host.{Call, Host, create_file, mount, remove_file, rename, set_resgid, set_resuid}
use sysbox_libs.LinuxUtils.Child.{End, exits, returns, Exec, become_root, exit_with, or_else_run}
use sysbox_libs.LinuxUtils.Child.Exit.{or_else_run_rule}
use sysbox_libs.Strings.Path.{join_path}
use sysbox_libs.Shiftfs.Child.{exec_func, mount_or, try_files, try_rename}

-- Whether a file is there: a call that succeeds changes it.
abbrev pub file_after : Option ℕ → Call → Bytes → Bool → Bool
file_after (some e) c f was = was
file_after none (create_file path) f was = (path == f) || was
file_after none (rename old new) f was = if new == f then true else (not (old == f) && was)
file_after none (remove_file path) f was = not (path == f) && was
file_after none _ f was = was

abbrev pub is_there : Host → Bytes → List Call → Bool
is_there host f [] = false
is_there host f (c ∷ calls) = file_after (host.failure calls c) c f (is_there host f calls)

-- Whether the calls all succeed, made one after the other.
abbrev pub all_succeed : Host → List Call → List Call → Bool
all_succeed host [] calls = true
all_succeed host (c ∷ cs) calls =
    not (is_some (host.failure calls c)) && all_succeed host cs (c ∷ calls)

-- What the host has to allow: to be root in the user namespace, to mount shiftfs on the marked
-- directory, and to create and rename a file there.
abbrev pub trial : Bytes → List Call
trial test_dir =
    set_resuid 0
    ∷ set_resgid 0
    ∷ mount test_dir test_dir (codes "shiftfs") []
    ∷ create_file (join_path (test_dir ∷ codes "testfile" ∷ []))
    ∷ rename (join_path (test_dir ∷ codes "testfile" ∷ []))
        (join_path (test_dir ∷ codes "testfile2" ∷ []))
    ∷ []

-- The process exits, with 0 exactly if the calls all succeed.
abbrev Says : Host → List Call → List Call → End → Type 0
Says host cs calls (exits code) = (nat_beq code 0 ≡ all_succeed host cs calls) × (code < 256)
Says host cs calls returns = ⊥

module _ (host : Host) where
  module _ (f : Bytes)
      (removes : (calls : List Call) (path : Bytes)
        → host.failure calls (remove_file path) ≡ none) where
    abbrev Gone : List Call × End → Type 0
    Gone ran = is_there host f ran.0 ≡ false

    exit-Gone :
        (c : Call) (calls : List Call) (code : ℕ) (e : ℕ)
        → is_there host f calls ≡ false
        → host.failure calls c ≡ some e
        → Gone (exit_with code (c ∷ calls))
    exit-Gone c calls code e h bad = rw bad h

    try_rename-Gone :
        (a b : Bytes) (calls : List Call)
        → is_there host f calls ≡ false
        → host.failure calls (create_file a) ≡ none
        → Gone (try_rename host a b (create_file a ∷ calls))
    unfolding try_rename
    try_rename-Gone a b calls h made =
        or_else_run_rule host Gone (rename a b) _ _ (create_file a ∷ calls)
          (λ good. ground (
            arith,
            removes (rename a b ∷ create_file a ∷ calls) b,
            good,
            made,
            h,
            bytes_beq_iff a f,
            bytes_beq_iff b f,
          ))
          (λ e bad. ground (arith, removes (rename a b ∷ create_file a ∷ calls) a, bad, made, h))

    try_files-Gone :
        (a b : Bytes) (calls : List Call)
        → is_there host f calls ≡ false
        → Gone (try_files host a b calls)
    unfolding try_files
    try_files-Gone a b calls h =
        or_else_run_rule host Gone (create_file a) _ _ calls (try_rename-Gone a b calls h)
          (λ e. exit-Gone (create_file a) calls 3 e h)

    quiet-Gone :
        (c : Call) (code : ℕ) (next : Exec) (calls : List Call)
        → is_there host f calls ≡ false
        → ((o : Option ℕ) → file_after o c f false ≡ false)
        → (is_there host f (c ∷ calls) ≡ false → Gone (next (c ∷ calls)))
        → Gone (or_else_run host c (exit_with code) next calls)
    quiet-Gone c code next calls h q k =
        or_else_run_rule host Gone c (exit_with code) next calls
          (λ good. k (rw h (q (host.failure calls c)))) (λ e. exit-Gone c calls code e h)

-- The child leaves no file behind, wherever it fails, if what it removes goes.
pub exec_func-is_there :
    (host : Host) (test_dir f : Bytes)
    → ((calls : List Call) (path : Bytes) → host.failure calls (remove_file path) ≡ none)
    → is_there host f (exec_func host test_dir []).0 ≡ false
unfolding exec_func become_root mount_or
exec_func-is_there host test_dir f removes =
    quiet-Gone host f removes (set_resuid 0) 1 _ [] refl quiet_uid (λ h1.
      quiet-Gone host f removes (set_resgid 0) 1 _ _ h1 quiet_gid (λ h2.
        quiet-Gone host f removes (mount test_dir test_dir (codes "shiftfs") []) 2 _ _ h2
          quiet_mount (λ h3. try_files-Gone host f removes _ _ _ h3)))
  where
    quiet_uid : (o : Option ℕ) → file_after o (set_resuid 0) f false ≡ false
    quiet_uid none = refl
    quiet_uid (some e) = refl

    quiet_gid : (o : Option ℕ) → file_after o (set_resgid 0) f false ≡ false
    quiet_gid none = refl
    quiet_gid (some e) = refl

    quiet_mount :
        (o : Option ℕ) → file_after o (mount test_dir test_dir (codes "shiftfs") []) f false ≡ false
    quiet_mount none = refl
    quiet_mount (some e) = refl
