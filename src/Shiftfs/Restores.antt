-- ===== src/Shiftfs/Restores.antt =====
-- The check of shiftfs/shiftfs.go, and what it holds when it ends.
use sysbox_libs.Prelude.{
  Bool, Bool-cases, Bytes, List, Result, [], arith, codes, false, inl, inr, refl, suc, true, ℕ,
  ◌==◌, ◌||◌, ◌∷◌, ◌≡◌, nat_comparable, bytes_comparable,
}
use sysbox_libs.Prelude.Table.{Table}
use sysbox_libs.Host.{
  Call, Error, Host, Program, chmod, defer, exited, get_number, get_text, mkdir, mkdir_temp, mount,
  perform, remove_all, unmount, wait, ◌>>=◌,
}
use sysbox_libs.Host.Rules.{Runs, defer_rule, number_rule, perform_rule, text_rule}
use sysbox_libs.LinuxUtils.Userns.{create_userns_process}
use sysbox_libs.IdMap.Levels.{
  Adds, Adds-bind, Kind, Level, attach-Level, given_back, holding, level-cons, level-failed,
  mkdir_temp-Level, mounted, process, remove_all-Level, taken, temp_dir, unmount-Level,
}
use sysbox_libs.IdMap.Cleanup.{create-Adds}
use sysbox_libs.Shiftfs.Check.{
  get_fs_name, in_tmp, in_tmp_dir, judge, kernel_mod_supported, make_all, mark, marked, mount_data,
  on_fs_name, on_layers, run_child, run_shiftfs_check_on_host, userns_ids, with_module,
}
use sysbox_libs.Shiftfs.Lookups.{get_fs_name-Adds, kernel_mod_supported-Adds}

module _ (host : Host) (names : Table ℕ Bytes) where
  -- The level at the end, whatever the result; the child process is waited for, and not killed.
  abbrev Settles : ℕ → ℕ → List Call → Result Error Bool → Type 0
  Settles d m calls r = (p : ℕ) × Level host (holding d p m) calls

  module _ (d p m : ℕ) where
    judge-Settles :
        (status : ℕ) (calls : List Call)
        → Level host (holding d p m) calls
        → Runs (Settles d m) (judge host names status) calls
    unfolding judge
    judge-Settles status calls h = elim (Bool-cases (exited status)) [
      | inl ended ↦ rw ended (p, h)
      | inr odd ↦ rw odd (p, h)
    ]

  module _ (d p m : ℕ) where
    run_child-Settles :
        (test_dir : Bytes) (calls : List Call)
        → Level host (holding d p m) calls
        → Runs (Settles d m) (run_child host names test_dir) calls
    unfolding run_child
    run_child-Settles test_dir calls h =
        let more = holding d (suc p) m in
        Adds-bind host (holding d p m) more (Settles d m)
          (create_userns_process host userns_ids test_dir true false)
          (λ pid. get_number host (wait pid) >>= judge host names) calls
          (create-Adds host d p m userns_ids test_dir true false calls h) (λ e calls' h'. (p, h'))
          (λ pid calls' h'.
            let h1 = level-cons host more more (wait pid) calls' h' (λ kind. refl) in
            number_rule host (Settles d m) (wait pid) calls' (λ e bad. (suc p, h1)) _
              (λ _. judge-Settles d (suc p) m _ _ h1))

    -- A mount at the test directory that is there for the rest of the check.
    unmounted :
        (test_dir : Bytes) (rest : Program Bool) (calls : List Call)
        → Runs (Settles d (suc m)) rest calls
        → Runs (Settles d m) (defer (unmount test_dir ∷ []) rest) calls
    unmounted test_dir rest calls (p', h) =
        defer_rule (Settles d m) (unmount test_dir ∷ []) rest calls
          (p', unmount-Level host d p' m (rest calls).0 test_dir h)

  marked-Settles :
      (d p m : ℕ) (test_dir : Bytes) (calls : List Call)
      → Level host (holding d p m) calls
      → Runs (Settles d m) (marked host names test_dir) calls
  unfolding marked mark
  marked-Settles d p m test_dir calls h =
      let c = mount test_dir test_dir (codes "shiftfs") (codes "mark") in
      perform_rule host (Settles d m) c calls
        (λ e bad. (p, level-failed host (holding d p m) c calls e bad (λ kind. refl) h)) _
        (λ good. unmounted d p m test_dir (run_child host names test_dir) (c ∷ calls) (
          run_child-Settles d p (suc m) test_dir _
            (attach-Level host d p m calls c refl refl good h)))

  make_all-Adds :
      (held : Kind → ℕ) (dirs : List Bytes) (calls : List Call)
      → Level host held calls
      → Runs (Adds host held held) (make_all host names dirs) calls
  unfolding make_all
  make_all-Adds held [] calls h = h
  make_all-Adds held (dir ∷ dirs) calls h =
      let h1 = level-cons host held held (mkdir dir 0x1ed) calls h (λ kind. refl) in
      perform_rule host (Adds host held held) (mkdir dir 0x1ed) calls (λ e bad. h1) _
        (λ _. make_all-Adds held dirs _ h1)

  on_layers-Settles :
      (d p m : ℕ) (tmp_dir test_dir : Bytes) (on_overlayfs : Bool) (calls : List Call)
      → Level host (holding d p m) calls
      → Runs (Settles d m) (on_layers host names tmp_dir test_dir on_overlayfs) calls
  unfolding on_layers
  on_layers-Settles d p m tmp_dir test_dir false calls h = marked-Settles d p m test_dir calls h
  on_layers-Settles d p m tmp_dir test_dir true calls h =
      let here = holding d p m in
      let c = mount (codes "overlay") test_dir (codes "overlay") (mount_data host names tmp_dir) in
      let rest = marked host names test_dir in
      let dirs =
        in_tmp tmp_dir (codes "lower")
        ∷ in_tmp tmp_dir (codes "upper")
        ∷ in_tmp tmp_dir (codes "work")
        ∷ [] in
      Adds-bind host here here (Settles d m) (make_all host names dirs)
        (λ _. perform host c >>= λ _. defer (unmount test_dir ∷ []) rest) calls
        (make_all-Adds here dirs calls h) (λ e calls' h'. (p, h'))
        (λ _ calls' h'.
          perform_rule host (Settles d m) c calls'
            (λ e bad. (p, level-failed host here c calls' e bad (λ kind. refl) h')) _
            (λ good. unmounted d p m test_dir rest (c ∷ calls') (
              marked-Settles d p (suc m) test_dir _
                (attach-Level host d p m calls' c refl refl good h'))))

  in_tmp_dir-Settles :
      (d p m : ℕ) (tmp_dir : Bytes) (on_overlayfs : Bool) (calls : List Call)
      → Level host (holding d p m) calls
      → Runs (Settles d m) (in_tmp_dir host names tmp_dir on_overlayfs) calls
  unfolding in_tmp_dir
  in_tmp_dir-Settles d p m tmp_dir on_overlayfs calls h =
      let here = holding d p m in
      let c1 = chmod tmp_dir 0x1ed in
      let c2 = mkdir (in_tmp tmp_dir (codes "test")) 0x1ed in
      let h1 = level-cons host here here c1 calls h (λ kind. refl) in
      let h2 = level-cons host here here c2 (c1 ∷ calls) h1 (λ kind. refl) in
      perform_rule host (Settles d m) c1 calls (λ e bad. (p, h1)) _
        (λ _.
          perform_rule host (Settles d m) c2 (c1 ∷ calls) (λ e bad. (p, h2)) _
            (λ _. on_layers-Settles d p m tmp_dir _ on_overlayfs _ h2))

  on_fs_name-Settles :
      (d p m : ℕ) (dir : Bytes) (on_overlayfs : Bool) (fs_name : Bytes) (calls : List Call)
      → Level host (holding d p m) calls
      → Runs (Settles d m) (on_fs_name host names dir on_overlayfs fs_name) calls
  unfolding on_fs_name
  on_fs_name-Settles d p m dir on_overlayfs fs_name calls h =
      elim (Bool-cases (fs_name == codes "overlayfs" || fs_name == codes "tmpfs")) [
        | inl bad_fs ↦ rw bad_fs (p, h)
        | inr good_fs ↦ rw good_fs in_made
      ]
    where
      in_made :
          Runs
            (Settles d m)
            (get_text host (mkdir_temp dir (codes "sysbox-shiftfs-check")) >>= λ tmp_dir.
              defer (remove_all tmp_dir ∷ []) (in_tmp_dir host names tmp_dir on_overlayfs))
            calls
      in_made =
          let c = mkdir_temp dir (codes "sysbox-shiftfs-check") in
          let tmp_dir = host.text calls c in
          text_rule host (Settles d m) c calls
            (λ e bad. (p, level-failed host (holding d p m) c calls e bad (λ kind. refl) h)) _
            (λ good.
              let made = mkdir_temp-Level host d p m calls dir _ good h in
              let (p', ends) =
                in_tmp_dir-Settles (suc d) p m tmp_dir on_overlayfs (c ∷ calls) made in
              defer_rule (Settles d m) (remove_all tmp_dir ∷ [])
                (in_tmp_dir host names tmp_dir on_overlayfs) (c ∷ calls)
                (p', remove_all-Level host d p' m _ tmp_dir ends))

  with_module-Settles :
      (d p m : ℕ) (dir : Bytes) (on_overlayfs present : Bool) (calls : List Call)
      → Level host (holding d p m) calls
      → Runs (Settles d m) (with_module host names dir on_overlayfs present) calls
  unfolding with_module
  with_module-Settles d p m dir on_overlayfs false calls h = (p, h)
  with_module-Settles d p m dir on_overlayfs true calls h =
      let here = holding d p m in
      Adds-bind host here here (Settles d m) (get_fs_name host names dir)
        (on_fs_name host names dir on_overlayfs) calls
        (get_fs_name-Adds host names here dir calls h) (λ e calls' h'. (p, h'))
        (λ fs_name calls' h'. on_fs_name-Settles d p m dir on_overlayfs fs_name calls' h')

  -- Whatever the host answers, and whether the check succeeds or fails at any call:
  -- runShiftfsCheckOnHost has removed as many temporary directories as it made, and unmounted as
  -- often as it mounted.
  pub run_shiftfs_check_on_host-restores :
      (dir : Bytes) (on_overlayfs : Bool)
      → (taken host (run_shiftfs_check_on_host host names dir on_overlayfs []).0 temp_dir
          ≡ given_back (run_shiftfs_check_on_host host names dir on_overlayfs []).0 temp_dir)
        × (taken host (run_shiftfs_check_on_host host names dir on_overlayfs []).0 mounted
            ≡ given_back (run_shiftfs_check_on_host host names dir on_overlayfs []).0 mounted)
  run_shiftfs_check_on_host-restores dir on_overlayfs =
      let (p, ends) = check-Settles in (omega (arith, ends temp_dir), omega (arith, ends mounted))
    where
      start : Level host (holding 0 0 0) []
      start temp_dir = unfold taken given_back in refl
      start process = unfold taken given_back in refl
      start mounted = unfold taken given_back in refl

      check-Settles :
          Settles 0 0
            (run_shiftfs_check_on_host host names dir on_overlayfs []).0
            (run_shiftfs_check_on_host host names dir on_overlayfs []).1
      check-Settles =
          let here = holding 0 0 0 in
          unfold run_shiftfs_check_on_host in
          Adds-bind host here here (Settles 0 0) (kernel_mod_supported host names (codes "shiftfs"))
            (with_module host names dir on_overlayfs) []
            (kernel_mod_supported-Adds host names here (codes "shiftfs") [] start)
            (λ e calls' h'. (0, h'))
            (λ present calls' h'. with_module-Settles 0 0 0 dir on_overlayfs present calls' h')
