-- ===== src/Shiftfs/Check.antt =====
-- runShiftfsCheckOnHost of shiftfs/shiftfs.go, with KernelModSupported of linuxUtils/linux.go and
-- GetFsName of utils/fs.go, as the calls that they make.
use sysbox_libs.Prelude.{
  Bool, Bytes, List, Option, [], codes, false, if◌then◌else◌, nat_beq, none, not, ok, some, true, ℕ,
  ◌++◌, ◌==◌, ◌||◌, ◌∷◌, nat_comparable, bytes_comparable,
}
use sysbox_libs.Prelude.Table.{Table, lookup}
use sysbox_libs.Host.{
  Host, Program, answer, chmod, close_fd, defer, eval_symlinks, exit_status, exited, get_number,
  get_text, ignore, mkdir, mkdir_temp, modprobe, mount, open_file, perform, read_file, refuse,
  remove_all, return, statfs, unmount, wait, ◌>>=◌,
}
use sysbox_libs.Strings.Affix.{has_part}
use sysbox_libs.Strings.Split.{split}
use sysbox_libs.Strings.Lines.{scan_lines, stops_early}
use sysbox_libs.Strings.Path.{join_path}
use sysbox_libs.LinuxUtils.Userns.{IdMapping, create_userns_process}
use sysbox_libs.Mount.Search.{Info, mounted_with_fs}

unfoldable pub names_module : Bytes → List Bytes → Bool
names_module name [] = false
names_module name (line ∷ ls) =
    let later = names_module name ls in if has_part line name then true else later

abbrev pub in_tmp : Bytes → Bytes → Bytes
in_tmp dir name = join_path (dir ∷ name ∷ [])

abbrev pub userns_ids : IdMapping
userns_ids = record { container_id = 0; host_id = 165536; size = 65536 }

-- The file system names, whose keys are constants of the unix library.
module _ (host : Host) (unix_fs_name_table : Table ℕ Bytes) where
  -- `scanner.Err` behind the loop: a line that does not fit, or the failure of the reading.
  unfoldable pub scan_end : Bool → ℕ → Program Bool
  scan_end stopped f calls =
      if stopped
      then refuse (codes "token too long") (read_file f ∷ calls)
      else (read_file f ∷ calls, answer (read_file f) (host.failure calls (read_file f)) false)

  -- The lines that were read before a failure count.
  unfoldable pub scan_modules : Bytes → ℕ → Program Bool
  scan_modules name f calls =
      let lines = split b'\n' (host.text calls (read_file f)) in
      if names_module name (scan_lines lines)
      then (read_file f ∷ calls, ok true)
      else scan_end (stops_early lines) f calls

  unfoldable pub kernel_mod_supported : Bytes → Program Bool
  kernel_mod_supported name = do
    _ ← ignore (modprobe name)
    f ← get_number host (open_file (codes "/proc/modules"))
    defer (close_fd f ∷ []) (scan_modules name f)

  unfoldable pub fs_name_of : Option Bytes → Program Bytes
  fs_name_of none = refuse (codes "unknown fs")
  fs_name_of (some name) = return name

  unfoldable pub get_fs_name : Bytes → Program Bytes
  get_fs_name path = do
    type ← get_number host (statfs path)
    fs_name_of (lookup type unix_fs_name_table)

  unfoldable pub mark : Bytes → Bytes → Program (Unit {0})
  mark path mark_path = perform host (mount path mark_path (codes "shiftfs") (codes "mark"))

  -- `Mounted`: a mark or a mount.
  unfoldable pub is_mounted : Bytes → List Info → Program Bool
  is_mounted path mounts = do
    real_path ← get_text host (eval_symlinks path)
    return (mounted_with_fs real_path (codes "shiftfs") mounts)

  unfoldable pub judge : ℕ → Program Bool
  judge status =
      if not (exited status)
      then refuse (codes "child process did not exit normally")
      else return (nat_beq (exit_status status) 0)

  -- Behind the mark; what the child does is its own.
  unfoldable pub run_child : Bytes → Program Bool
  run_child test_dir = do
    pid ← create_userns_process host userns_ids test_dir true false
    status ← get_number host (wait pid)
    judge status

  unfoldable pub marked : Bytes → Program Bool
  marked test_dir = do
    _ ← mark test_dir test_dir
    defer (unmount test_dir ∷ []) (run_child test_dir)

  unfoldable pub make_all : List Bytes → Program (Unit {0})
  make_all [] = return tt
  make_all (dir ∷ dirs) = do _ ← perform host (mkdir dir 0x1ed); make_all dirs

  unfoldable pub mount_data : Bytes → Bytes
  mount_data tmp_dir =
      codes "lowerdir="
      ++ (in_tmp tmp_dir (codes "lower")
          ++ (codes ",upperdir="
              ++ (in_tmp tmp_dir (codes "upper")
                  ++ (codes ",workdir=" ++ in_tmp tmp_dir (codes "work")))))

  unfoldable pub on_layers : Bytes → Bytes → Bool → Program Bool
  on_layers tmp_dir test_dir false = marked test_dir
  on_layers tmp_dir test_dir true = do
    _ ← make_all (
        in_tmp tmp_dir (codes "lower")
        ∷ in_tmp tmp_dir (codes "upper")
        ∷ in_tmp tmp_dir (codes "work")
        ∷ [])
    _ ← perform host (mount (codes "overlay") test_dir (codes "overlay") (mount_data tmp_dir))
    defer (unmount test_dir ∷ []) (marked test_dir)

  unfoldable pub in_tmp_dir : Bytes → Bool → Program Bool
  in_tmp_dir tmp_dir on_overlayfs = do
    _ ← perform host (chmod tmp_dir 0x1ed)
    _ ← perform host (mkdir (in_tmp tmp_dir (codes "test")) 0x1ed)
    on_layers tmp_dir (in_tmp tmp_dir (codes "test")) on_overlayfs

  unfoldable pub on_fs_name : Bytes → Bool → Bytes → Program Bool
  on_fs_name dir on_overlayfs fs_name =
      if fs_name == codes "overlayfs" || fs_name == codes "tmpfs"
      then refuse (codes "test dir must not be on overlayfs or tmpfs")
      else (do
        tmp_dir ← get_text host (mkdir_temp dir (codes "sysbox-shiftfs-check"))
        defer (remove_all tmp_dir ∷ []) (in_tmp_dir tmp_dir on_overlayfs))

  unfoldable pub with_module : Bytes → Bool → Bool → Program Bool
  with_module dir on_overlayfs false = return false
  with_module dir on_overlayfs true = do
    fs_name ← get_fs_name dir
    on_fs_name dir on_overlayfs fs_name

  unfoldable pub run_shiftfs_check_on_host : Bytes → Bool → Program Bool
  run_shiftfs_check_on_host dir on_overlayfs = do
    present ← kernel_mod_supported (codes "shiftfs")
    with_module dir on_overlayfs present
