-- ===== src/IdMap/Mount.antt =====
-- IDMapMount of idMap/idMapMount.go, as the calls that it makes.
use sysbox_libs.Prelude.{Bool, Bytes, [], codes, false, if◌then◌else◌, true, ℕ, ◌∷◌}
use sysbox_libs.Host.{
  Host, Program, close_fd, defer, eval_symlinks, get_number, get_text, ignore, move_mount,
  open_file, open_tree, perform, read_link, return, set_attr, unmount, ◌>>=◌,
}
use sysbox_libs.Strings.Affix.{has_prefix}

module _ (host : Host) where
  -- A path below `/proc/self/fd` is a link that is read; others have their links followed.
  unfoldable pub resolve : Bytes → Program Bytes
  resolve mount_path =
      if has_prefix mount_path (codes "/proc/self/fd/")
      then get_text host (read_link mount_path)
      else get_text host (eval_symlinks mount_path)

  unfoldable pub unmount_if : Bool → Bytes → Program (Unit {0})
  unmount_if true mount_path = perform host (unmount mount_path)
  unmount_if false mount_path = return tt

  -- Behind the clone: its descriptor is closed at the end of the body only.
  unfoldable pub attach : ℕ → Bytes → Bool → ℕ → Program (Unit {0})
  attach userns_fd mount_path unmount_first fd_tree = do
    _ ← perform host (set_attr fd_tree userns_fd)
    _ ← unmount_if unmount_first mount_path
    _ ← perform host (move_mount fd_tree mount_path)
    ignore (close_fd fd_tree)

  unfoldable pub id_map_mount : Bytes → Bytes → Bool → Program (Unit {0})
  id_map_mount userns_path mount_path unmount_first = do
    userns_fd ← get_number host (open_file userns_path)
    defer (close_fd userns_fd ∷ []) (do
      path ← resolve mount_path
      fd_tree ← get_number host (open_tree path)
      attach userns_fd path unmount_first fd_tree)
