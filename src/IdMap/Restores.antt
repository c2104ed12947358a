-- ===== src/IdMap/Restores.antt =====
-- The check of idMap/idMapMount.go, and what it holds when it ends.
use sysbox_libs.Prelude.{
  Bool, Bytes, List, Result, [], arith, codes, false, if◌then◌else◌, refl, suc, true, ℕ, ◌++◌, ◌+◌,
  ◌∷◌, ◌≡◌,
}
use sysbox_libs.Host.{
  Call, Error, Host, defer, ignore, kill, mkdir, mkdir_temp, mount, unmount, wait, ◌>>=◌,
}
use sysbox_libs.Host.Rules.{Runs, bind_rule, defer_rule, perform_rule, text_rule}
use sysbox_libs.IdMap.Levels.{
  Adds, Adds-bind, Kind, Level, attach-Level, given_back, holding, kill-Level, level-cons,
  level-failed, mkdir_temp-Level, mounted, process, remove_all-Level, taken, temp_dir,
  unmount-Level,
}
use sysbox_libs.IdMap.Check.{
  in_dir, layer_dirs, make_dirs, one_id, overlay_opts, run_id_map_mount_check_on_host, try_overlay,
  under, with_child,
}
use sysbox_libs.IdMap.Cleanup.{create-Adds}
use sysbox_libs.IdMap.Attach.{id_map_mount-Mounts}
use sysbox_libs.LinuxUtils.Userns.{create_userns_process}
use sysbox_libs.IdMap.Mount.{id_map_mount}
use sysbox_libs.Strings.Decimal.{format_uint}

module _ (host : Host) where
  -- The level at the end, whatever the result.
  abbrev Ends : {A : Type 0} → (Kind → ℕ) → List Call → Result Error A → Type 0
  Ends held calls r = Level host held calls

  try_overlay-Ends :
      (d p m : ℕ) (tmp_dir test_dir : Bytes) (on_overlayfs : Bool) (calls : List Call)
      → Level host (holding d p m) calls
      → Runs (Ends (holding d p m)) (try_overlay host tmp_dir test_dir on_overlayfs) calls
  unfolding try_overlay
  try_overlay-Ends d p m tmp_dir test_dir false calls h = h
  try_overlay-Ends d p m tmp_dir test_dir true calls h =
      let c = mount (codes "overlay") test_dir (codes "overlay") (overlay_opts host tmp_dir) in
      perform_rule host (Ends (holding d p m)) c calls
        (λ e bad. level-failed host (holding d p m) c calls e bad (λ kind. refl) h) _
        (λ good.
          bind_rule (Ends (holding d p m)) (ignore (unmount test_dir)) _ _ (
            unmount-Level host d p m _ test_dir (attach-Level host d p m calls c refl refl good h)))

  module _ (d p m : ℕ) where
    make_dirs-Ends :
        (dirs : List Bytes) (calls : List Call)
        → Level host (holding d p m) calls
        → Runs (Adds host (holding d p m) (holding d p m)) (make_dirs host dirs) calls
    unfolding make_dirs
    make_dirs-Ends [] calls h = h
    make_dirs-Ends (dir ∷ dirs) calls h =
        let here = holding d p m in
        let h1 = level-cons host here here (mkdir dir 0x1c0) calls h (λ kind. refl) in
        perform_rule host (Adds host here here) (mkdir dir 0x1c0) calls (λ e bad. h1) _
          (λ _. make_dirs-Ends dirs _ h1)

    layer_dirs-Ends :
        (tmp_dir : Bytes) (on_overlayfs : Bool) (calls : List Call)
        → Level host (holding d p m) calls
        → Runs
            (Adds host (holding d p m) (holding d p m))
            (layer_dirs host tmp_dir on_overlayfs)
            calls
    unfolding layer_dirs
    layer_dirs-Ends tmp_dir true calls h = make_dirs-Ends _ calls h
    layer_dirs-Ends tmp_dir false calls h = h

    reaped-Level :
        (pid : ℕ) (calls : List Call)
        → Level host (holding d (suc p) m) calls
        → Level host (holding d p m) (wait pid ∷ kill pid ∷ calls)
    reaped-Level pid calls h =
        level-cons host (holding d p m) (holding d p m) (wait pid) (kill pid ∷ calls)
          (kill-Level host d p m calls pid h) (λ kind. refl)

    Reaped : ℕ → List Call → Result Error Bool → Type 0
    Reaped pid calls r = Level host (holding d p m) (wait pid ∷ kill pid ∷ calls)

    in_overlay :
        (tmp_dir test_dir : Bytes) (on_overlayfs : Bool) (calls : List Call)
        → Level host (holding d (suc p) (suc m)) calls
        → Level host
            (holding d (suc p) (suc m))
            (try_overlay host tmp_dir test_dir on_overlayfs calls).0
    in_overlay tmp_dir test_dir on_overlayfs calls h =
        try_overlay-Ends d (suc p) (suc m) tmp_dir test_dir on_overlayfs calls h

    with_child-Ends :
        (tmp_dir test_dir : Bytes) (on_overlayfs : Bool) (pid : ℕ) (calls : List Call)
        → Level host (holding d (suc p) m) calls
        → Runs (Ends (holding d p m)) (with_child host tmp_dir test_dir on_overlayfs pid) calls
    unfolding with_child Reaped
    with_child-Ends tmp_dir test_dir on_overlayfs pid calls h =
        let id_map_dir = if on_overlayfs then under tmp_dir (codes "lower") else test_dir in
        let mounting =
          id_map_mount host (codes "/proc/" ++ (format_uint pid ++ codes "/ns/user")) id_map_dir
            false in
        let overlay = try_overlay host tmp_dir test_dir on_overlayfs in
        defer_rule (Ends (holding d p m)) (wait pid ∷ kill pid ∷ []) _ calls (
          Adds-bind host (holding d (suc p) m) (holding d (suc p) (suc m)) (Reaped pid) mounting
            (λ _. defer (unmount id_map_dir ∷ []) overlay) calls
            (id_map_mount-Mounts host d (suc p) m _ id_map_dir calls h)
            (λ e calls' h'. reaped-Level pid calls' h')
            (λ _ calls' h'. defer_rule (Reaped pid) (unmount id_map_dir ∷ []) overlay calls' (
              reaped-Level pid _ (
                unmount-Level host d (suc p) m _ id_map_dir
                  (in_overlay tmp_dir test_dir on_overlayfs calls' h')))))

    in_dir-Ends :
        (tmp_dir : Bytes) (on_overlayfs : Bool) (calls : List Call)
        → Level host (holding d p m) calls
        → Runs (Ends (holding d p m)) (in_dir host tmp_dir on_overlayfs) calls
    unfolding in_dir
    in_dir-Ends tmp_dir on_overlayfs calls h =
        let here = holding d p m in
        let Q = Ends {A = Bool} here in
        let merged = under tmp_dir (codes "merged") in
        let h1 = level-cons host here here (mkdir merged 0x1c0) calls h (λ kind. refl) in
        let child = create_userns_process host one_id merged false false in
        let rest = with_child host tmp_dir merged on_overlayfs in
        perform_rule host Q (mkdir merged 0x1c0) calls (λ e bad. h1) _
          (λ _.
            Adds-bind host here here Q (layer_dirs host tmp_dir on_overlayfs) (λ _. child >>= rest)
              _ (layer_dirs-Ends tmp_dir on_overlayfs _ h1) (λ e calls' h'. h')
              (λ _ calls' h'.
                Adds-bind host here (holding d (suc p) m) Q child rest calls'
                  (create-Adds host d p m one_id merged false false calls' h')
                  (λ e calls'' h''. h'')
                  (λ pid calls'' h''. with_child-Ends tmp_dir merged on_overlayfs pid calls'' h'')))

  start : Level host (holding 0 0 0) []
  unfolding taken given_back
  start temp_dir = refl
  start process = refl
  start mounted = refl

  check-Ends :
      (dir : Bytes) (on_overlayfs : Bool)
      → Level host (holding 0 0 0) (run_id_map_mount_check_on_host host dir on_overlayfs []).0
  unfolding run_id_map_mount_check_on_host
  check-Ends dir on_overlayfs =
      let c = mkdir_temp dir (codes "sysbox-ovfs-check") in
      text_rule host (Ends (holding 0 0 0)) c []
        (λ e bad. level-failed host (holding 0 0 0) c [] e bad (λ k. refl) start) _
        (λ good. defer_rule (Ends (holding 0 0 0)) _ _ _ (
          remove_all-Level host 0 0 0 _ _
            (in_dir-Ends 1 0 0 _ on_overlayfs _ (mkdir_temp-Level host 0 0 0 [] dir _ good start))))

  settled : (a b : ℕ) (kind : Kind) → a ≡ b + holding 0 0 0 kind → a ≡ b
  settled a b temp_dir h = omega (arith, h)
  settled a b process h = omega (arith, h)
  settled a b mounted h = omega (arith, h)

  -- Whatever the host answers, and whether the check succeeds or fails at any call: of the
  -- temporary directories, the child processes and the mounts that it made,
  -- runIDMapMountCheckOnHost has given back as many as it made, by removing, killing and
  -- unmounting.
  pub run_id_map_mount_check_on_host-restores :
      (dir : Bytes) (on_overlayfs : Bool) (kind : Kind)
      → taken host (run_id_map_mount_check_on_host host dir on_overlayfs []).0 kind
        ≡ given_back (run_id_map_mount_check_on_host host dir on_overlayfs []).0 kind
  run_id_map_mount_check_on_host-restores dir on_overlayfs kind =
      settled _ _ kind (check-Ends dir on_overlayfs kind)
