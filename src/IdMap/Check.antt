-- ===== src/IdMap/Check.antt =====
-- runIDMapMountCheckOnHost of idMap/idMapMount.go, as the calls that it makes.
use sysbox_libs.Prelude.{Bool, Bytes, List, [], codes, false, if◌then◌else◌, true, ℕ, ◌++◌, ◌∷◌}
use sysbox_libs.Host.{
  Host, Program, defer, get_text, ignore, kill, mkdir, mkdir_temp, mount, perform, remove_all,
  return, unmount, wait, ◌>>=◌,
}
use sysbox_libs.Strings.Path.{join_path}
use sysbox_libs.Strings.Decimal.{format_uint}
use sysbox_libs.LinuxUtils.Userns.{IdMapping, create_userns_process}
use sysbox_libs.IdMap.Mount.{id_map_mount}

abbrev pub under : Bytes → Bytes → Bytes
under dir name = join_path (dir ∷ name ∷ [])

abbrev pub one_id : IdMapping
one_id = record { container_id = 0; host_id = 0; size = 1 }

module _ (host : Host) where
  unfoldable pub make_dirs : List Bytes → Program (Unit {0})
  make_dirs [] = return tt
  make_dirs (dir ∷ dirs) = do _ ← perform host (mkdir dir 0x1c0); make_dirs dirs

  unfoldable pub layer_dirs : Bytes → Bool → Program (Unit {0})
  layer_dirs tmp_dir true = make_dirs (
      under tmp_dir (codes "lower")
      ∷ under tmp_dir (codes "upper")
      ∷ under tmp_dir (codes "work")
      ∷ [])
  layer_dirs tmp_dir false = return tt

  unfoldable pub overlay_opts : Bytes → Bytes
  overlay_opts tmp_dir =
      codes "lowerdir="
      ++ (under tmp_dir (codes "lower")
          ++ (codes ",upperdir="
              ++ (under tmp_dir (codes "upper")
                  ++ (codes ",workdir=" ++ under tmp_dir (codes "work")))))

  -- Behind the ID-mapped mount.
  unfoldable pub try_overlay : Bytes → Bytes → Bool → Program Bool
  try_overlay tmp_dir test_dir false = return true
  try_overlay tmp_dir test_dir true = do
    _ ← perform host (mount (codes "overlay") test_dir (codes "overlay") (overlay_opts tmp_dir))
    _ ← ignore (unmount test_dir)
    return true

  -- Behind the start of the child process.
  unfoldable pub with_child : Bytes → Bytes → Bool → ℕ → Program Bool
  with_child tmp_dir test_dir on_overlayfs pid =
      let id_map_dir = if on_overlayfs then under tmp_dir (codes "lower") else test_dir in
      defer (wait pid ∷ kill pid ∷ []) (do
        _ ←
            id_map_mount host (codes "/proc/" ++ (format_uint pid ++ codes "/ns/user")) id_map_dir
              false
        defer (unmount id_map_dir ∷ []) (try_overlay tmp_dir test_dir on_overlayfs))

  unfoldable pub in_dir : Bytes → Bool → Program Bool
  in_dir tmp_dir on_overlayfs = do
    _ ← perform host (mkdir (under tmp_dir (codes "merged")) 0x1c0)
    _ ← layer_dirs tmp_dir on_overlayfs
    pid ← create_userns_process host one_id (under tmp_dir (codes "merged")) false false
    with_child tmp_dir (under tmp_dir (codes "merged")) on_overlayfs pid

  unfoldable pub run_id_map_mount_check_on_host : Bytes → Bool → Program Bool
  run_id_map_mount_check_on_host dir on_overlayfs = do
    tmp_dir ← get_text host (mkdir_temp dir (codes "sysbox-ovfs-check"))
    defer (remove_all tmp_dir ∷ []) (in_dir tmp_dir on_overlayfs)
