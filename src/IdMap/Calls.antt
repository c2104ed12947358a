-- ===== src/IdMap/Calls.antt =====
-- The descriptors that IDMapMount of idMap/idMapMount.go opens and closes.
use sysbox_libs.Prelude.{
  Bool, Bool-cases, Bytes, List, Option, Result, [], arith, codes, err, false, if◌then◌else◌, inl,
  inr, none, ok, refl, some, true, ℕ, ◌+◌, ◌∷◌, ◌≡◌,
}
use sysbox_libs.Host.{
  Call, Error, Host, Program, close_fd, eval_symlinks, failed, get_number, move_mount, open_file,
  open_tree, read_link, refused, return, set_attr, unmount, ◌>>=◌,
}
use sysbox_libs.Host.Rules.{Runs, bind_rule, defer_rule, number_rule, perform_rule, text_rule}
use sysbox_libs.IdMap.Mount.{attach, id_map_mount, resolve, unmount_if}
use sysbox_libs.Strings.Affix.{has_prefix}

succeeds : Option ℕ → ℕ
succeeds none = 1
succeeds (some e) = 0

-- The call opens a descriptor if it succeeds.
opens : Call → Bool
opens (open_file path) = true
opens (open_tree path) = true
opens _ = false

closes : Call → ℕ
closes (close_fd fd) = 1
closes _ = 0

-- The descriptors opened, and closed, by the calls.
unfoldable pub opened : Host → List Call → ℕ
unfolding opens succeeds
opened host [] = 0
opened host (c ∷ calls) =
    let rest = opened host calls in if opens c then succeeds (host.failure calls c) + rest else rest

unfoldable pub closed : List Call → ℕ
unfolding closes
closed [] = 0
closed (c ∷ calls) = closes c + closed calls

-- The calls whose failure leaves the clone of the mount open.
unfoldable pub leaked : Result Error (Unit {0}) → ℕ
leaked (ok _) = 0
leaked (err (failed (set_attr fd userns) e)) = 1
leaked (err (failed (unmount path) e)) = 1
leaked (err (failed (move_mount fd path) e)) = 1
leaked (err (failed _ e)) = 0
leaked (err (refused why)) = 0

module _ (host : Host) where
  -- The descriptor of the user namespace is still open.
  Open : List Call → Result Error (Unit {0}) → Type 0
  Open calls r = opened host calls ≡ 1 + closed calls + leaked r

  Both : List Call → Type 0
  Both calls = opened host calls ≡ closed calls + 2

  attach-Open :
      (userns_fd fd_tree : ℕ) (path : Bytes) (unmount_first : Bool) (calls : List Call)
      → Both calls
      → Runs Open (attach host userns_fd path unmount_first fd_tree) calls
  unfolding attach Open Both opened closed leaked unmount_if
  attach-Open userns_fd fd_tree path true calls h =
      perform_rule host Open (set_attr fd_tree userns_fd) calls (λ e bad. omega (arith, h)) _
        (λ _.
          perform_rule host Open (unmount path) _ (λ e bad. omega (arith, h)) _
            (λ _.
              perform_rule host Open (move_mount fd_tree path) _ (λ e bad. omega (arith, h)) _
                (λ _. omega (arith, h))))
  attach-Open userns_fd fd_tree path false calls h =
      perform_rule host Open (set_attr fd_tree userns_fd) calls (λ e bad. omega (arith, h)) _
        (λ _. bind_rule Open (return tt) _ _ (
          perform_rule host Open (move_mount fd_tree path) _ (λ e bad. omega (arith, h)) _
            (λ _. omega (arith, h))))

  One : List Call → Type 0
  One calls = opened host calls ≡ closed calls + 1

  from_path :
      (userns_fd : ℕ) (unmount_first : Bool) (path : Bytes) (calls : List Call)
      → One calls
      → Runs Open
          (get_number host (open_tree path) >>= λ fd_tree.
            attach host userns_fd path unmount_first fd_tree)
          calls
  unfolding One Open opened closed leaked
  from_path userns_fd unmount_first path calls h =
      number_rule host Open (open_tree path) calls (λ e bad. rw bad (omega (arith, h))) _
        (λ good.
          attach-Open userns_fd _ path unmount_first (open_tree path ∷ calls)
            (unfold Both in rw good (omega (arith, h))))

  resolve-Open :
      (f : Bytes → Program (Unit {0})) (mount_path : Bytes) (calls : List Call)
      → One calls
      → ((path : Bytes) (calls' : List Call) → One calls' → Runs Open (f path) calls')
      → Runs Open (resolve host mount_path >>= f) calls
  unfolding resolve One Open opened closed leaked
  resolve-Open f mount_path calls h next =
      elim (Bool-cases (has_prefix mount_path (codes "/proc/self/fd/"))) [
        | inl link ↦ rw link (
            text_rule host Open (read_link mount_path) calls (λ e bad. omega (arith, h)) f
              (λ _. next _ (read_link mount_path ∷ calls) (omega (arith, h))))
        | inr plain ↦ rw plain (
            text_rule host Open (eval_symlinks mount_path) calls (λ e bad. omega (arith, h)) f
              (λ _. next _ (eval_symlinks mount_path ∷ calls) (omega (arith, h))))
      ]

  Final : List Call → Result Error (Unit {0}) → Type 0
  Final calls r = opened host calls ≡ closed calls + leaked r

  -- Whatever the host answers: IDMapMount closes as many descriptors as it opens if it succeeds,
  -- or fails before the mount is cloned; if a call between the clone of the mount and its
  -- attachment fails, one descriptor is left open.
  pub id_map_mount-opened :
      (userns_path mount_path : Bytes) (unmount_first : Bool)
      → opened host (id_map_mount host userns_path mount_path unmount_first []).0
        ≡ closed (id_map_mount host userns_path mount_path unmount_first []).0
          + leaked (id_map_mount host userns_path mount_path unmount_first []).1
  unfolding id_map_mount Final One Open opened closed leaked
  id_map_mount-opened userns_path mount_path unmount_first =
      number_rule host Final (open_file userns_path) [] (λ e bad. rw bad refl) _
        (λ good.
          defer_rule Final _ _ _
            (resolve-Open _ mount_path _ (rw good refl) (from_path _ unmount_first)))
