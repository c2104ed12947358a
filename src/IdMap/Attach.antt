-- ===== src/IdMap/Attach.antt =====
-- IDMapMount of idMap/idMapMount.go, and the mounts that it leaves.
use sysbox_libs.Prelude.{Bool-cases, Bytes, List, Result, codes, false, inl, inr, refl, suc, ℕ, ◌∷◌}
use sysbox_libs.Host.{
  Call, Error, Host, Program, close_fd, eval_symlinks, get_number, move_mount, open_file, open_tree,
  read_link, return, set_attr, ◌>>=◌,
}
use sysbox_libs.Host.Rules.{Runs, bind_rule, defer_rule, number_rule, perform_rule, text_rule}
use sysbox_libs.IdMap.Levels.{
  Adds, Adds-quiet, Kind, Level, attach-Level, holding, level-cons, level-failed,
}
use sysbox_libs.IdMap.Mount.{attach, id_map_mount, resolve, unmount_if}
use sysbox_libs.Strings.Affix.{has_prefix}

module _ (host : Host) (d p m : ℕ) where
  abbrev level : Kind → ℕ
  level = holding d p m

  abbrev Mounts : List Call → Result Error (Unit {0}) → Type 0
  Mounts = Adds host (holding d p m) (holding d p (suc m))

  attach-Mounts :
      (userns_fd fd_tree : ℕ) (path : Bytes) (calls : List Call)
      → Level host level calls
      → Runs Mounts (attach host userns_fd path false fd_tree) calls
  unfolding attach unmount_if
  attach-Mounts userns_fd fd_tree path calls h =
      let c1 = set_attr fd_tree userns_fd in
      let c2 = move_mount fd_tree path in
      let h1 = level-cons host level level c1 calls h (λ kind. refl) in
      perform_rule host Mounts c1 calls (λ e bad. h1) _
        (λ _. bind_rule Mounts (return tt) _ _ (
          perform_rule host Mounts c2 _
            (λ e bad. level-failed host level c2 _ e bad (λ kind. refl) h1) _
            (λ good.
              level-cons host (holding d p (suc m)) (holding d p (suc m)) (close_fd fd_tree)
                (c2 ∷ c1 ∷ calls) (attach-Level host d p m (c1 ∷ calls) c2 refl refl good h1)
                (λ kind. refl))))

  from_path :
      (userns_fd : ℕ) (path : Bytes) (calls : List Call)
      → Level host level calls
      → Runs Mounts
          (get_number host (open_tree path) >>= λ fd_tree. attach host userns_fd path false fd_tree)
          calls
  from_path userns_fd path calls h =
      let h1 = level-cons host level level (open_tree path) calls h (λ kind. refl) in
      number_rule host Mounts (open_tree path) calls (λ e bad. h1) _
        (λ _. attach-Mounts userns_fd _ path _ h1)

  resolved :
      (f : Bytes → Program (Unit {0})) (path : Bytes) (calls : List Call)
      → Level host level calls
      → ((path' : Bytes) (calls' : List Call)
          → Level host level calls'
          → Runs Mounts (f path') calls')
      → Runs Mounts (resolve host path >>= f) calls
  unfolding resolve
  resolved f path calls h next = elim (Bool-cases (has_prefix path (codes "/proc/self/fd/"))) [
    | inl link ↦
        let h1 = level-cons host level level (read_link path) calls h (λ kind. refl) in
        rw link (text_rule host Mounts (read_link path) calls (λ e bad. h1) f (λ _. next _ _ h1))
    | inr plain ↦
        let h1 = level-cons host level level (eval_symlinks path) calls h (λ kind. refl) in
        rw plain
          (text_rule host Mounts (eval_symlinks path) calls (λ e bad. h1) f (λ _. next _ _ h1))
  ]

  pub id_map_mount-Mounts :
      (userns_path path : Bytes) (calls : List Call)
      → Level host level calls
      → Runs Mounts (id_map_mount host userns_path path false) calls
  unfolding id_map_mount
  id_map_mount-Mounts userns_path path calls h =
      let c = open_file userns_path in
      let h1 = level-cons host level level c calls h (λ kind. refl) in
      number_rule host Mounts c calls (λ e bad. h1) _
        (λ _. defer_rule Mounts _ _ _ (
          Adds-quiet host level (holding d p (suc m)) (close_fd _) _ _ (λ kind. refl) (λ kind. refl)
            (resolved _ path (c ∷ calls) h1 (from_path _))))
