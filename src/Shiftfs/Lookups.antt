-- ===== src/Shiftfs/Lookups.antt =====
-- The lookups of a kernel module and of a file system in the check of shiftfs/shiftfs.go.
use sysbox_libs.Prelude.{
  Bool, Bool-cases, Bytes, List, Option, codes, false, inl, inr, none, refl, some, true, ℕ, ◌∷◌,
}
use sysbox_libs.Prelude.Table.{Table}
use sysbox_libs.Host.{Call, Host, answer, close_fd, ignore, modprobe, open_file, read_file, statfs}
use sysbox_libs.Host.Rules.{Runs, bind_rule, defer_rule, number_rule}
use sysbox_libs.IdMap.Levels.{Adds, Adds-quiet, Kind, Level, level-cons}
use sysbox_libs.Shiftfs.Check.{
  fs_name_of, get_fs_name, kernel_mod_supported, names_module, scan_end, scan_modules,
}
use sysbox_libs.Strings.Split.{split}
use sysbox_libs.Strings.Lines.{scan_lines, stops_early}

module _ (host : Host) (names : Table ℕ Bytes) where
  fs_name_of-Adds :
      (held : Kind → ℕ) (o : Option Bytes) (calls : List Call)
      → Level host held calls
      → Runs (Adds host held held) (fs_name_of host names o) calls
  unfolding fs_name_of
  fs_name_of-Adds held none calls h = h
  fs_name_of-Adds held (some name) calls h = h

  pub get_fs_name-Adds :
      (held : Kind → ℕ) (path : Bytes) (calls : List Call)
      → Level host held calls
      → Runs (Adds host held held) (get_fs_name host names path) calls
  unfolding get_fs_name
  get_fs_name-Adds held path calls h =
      let h1 = level-cons host held held (statfs path) calls h (λ kind. refl) in
      number_rule host (Adds host held held) (statfs path) calls (λ e bad. h1) _
        (λ _. fs_name_of-Adds held _ _ h1)

  scan_modules-Adds :
      (held : Kind → ℕ) (name : Bytes) (f : ℕ) (calls : List Call)
      → Level host held calls
      → Runs (Adds host held held) (scan_modules host names name f) calls
  unfolding scan_modules
  scan_modules-Adds held name f calls h =
      let c = read_file f in
      let ls = split b'\n' (host.text calls c) in
      let h1 = level-cons host held held c calls h (λ kind. refl) in
      elim (Bool-cases (names_module name (scan_lines ls))) [
        | inl there ↦ rw there h1
        | inr missing ↦ rw missing (ended (stops_early ls) h1)
      ]
    where
      answered :
          (calls : List Call) (c : Call) (o : Option ℕ)
          → Level host held calls
          → Adds host held held calls (answer c o false)
      answered calls c none h = unfold answer in h
      answered calls c (some e) h = unfold answer in h

      ended :
          (stopped : Bool)
          → Level host held (read_file f ∷ calls)
          → Runs (Adds host held held) (scan_end host names stopped f) calls
      ended true h1 = unfold scan_end in h1
      ended false h1 =
          unfold scan_end in
          answered (read_file f ∷ calls) (read_file f) (host.failure calls (read_file f)) h1

  pub kernel_mod_supported-Adds :
      (held : Kind → ℕ) (name : Bytes) (calls : List Call)
      → Level host held calls
      → Runs (Adds host held held) (kernel_mod_supported host names name) calls
  unfolding kernel_mod_supported
  kernel_mod_supported-Adds held name calls h =
      let Q = Adds {A = Bool} host held held in
      let c1 = modprobe name in
      let c2 = open_file (codes "/proc/modules") in
      let h1 = level-cons host held held c1 calls h (λ kind. refl) in
      let h2 = level-cons host held held c2 (c1 ∷ calls) h1 (λ kind. refl) in
      bind_rule Q (ignore c1) _ calls (
        number_rule host Q c2 (c1 ∷ calls) (λ e bad. h2) _
          (λ _. defer_rule Q _ _ (c2 ∷ c1 ∷ calls) (
            Adds-quiet host held held (close_fd _) _ _ (λ kind. refl) (λ kind. refl)
              (scan_modules-Adds held name _ (c2 ∷ c1 ∷ calls) h2))))
