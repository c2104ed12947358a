-- ===== src/IdMap/Pause.antt =====
-- The child process of runIDMapMountCheckOnHost in idMap/idMapMount.go, which pauses until it is
-- killed, and what follows if it is not.
use sysbox_libs.Prelude.{List, [], refl, some, suc, true, zero, ℕ, ◌∙◌, ◌∷◌, ◌≡◌}
use sysbox_libs.Host.{
  Call, Host, answer, kill, perform, set_death_signal, sleep, then_run, write_map, ◌>>=◌,
}
use sysbox_libs.IdMap.Check.{one_id}
use sysbox_libs.LinuxUtils.Userns.{IdMapping, killed, mapping_text, or_kill, write_mappings}
use sysbox_libs.LinuxUtils.Child.{Exec, go_on, returns, run_userns_child}
use sysbox_libs.LinuxUtils.Child.Wait.{after_wait, gid_map, run_userns_child-after_wait, uid_map}

-- `n` rounds of the loop are left.
unfoldable pub pauses : ℕ → List Call → List Call
pauses zero calls = calls
pauses (suc n) calls = pauses n (sleep 1000 ∷ calls)

-- `execFunc`
unfoldable pub pause_func : Exec
pause_func calls = (pauses 3600 calls, returns)

written_to_none :
    (host : Host) (m : IdMapping) (calls : List Call) (e : ℕ)
    → host.failure calls (write_map 0 uid_map (mapping_text m)) ≡ some e
    → go_on host m (calls, returns)
      ≡ (kill 0 ∷ write_map 0 uid_map (mapping_text m) ∷ calls, returns)
unfolding go_on write_mappings ◌>>=◌ or_kill perform answer then_run killed
written_to_none host m calls e h = rw h refl

-- A child of the check of ID-mapped mounts that has seen its mapping and is not killed within the
-- 3600 pauses goes on as its parent would: where the maps of process 0 cannot be written, it kills
-- process 0, which stands for its process group.
pub run_userns_child-pause_func :
    (host : Host)
    → (after_wait host one_id uid_map (set_death_signal 9 ∷ [])).1 ≡ true
    → ((calls : List Call)
        → (e : ℕ) × (host.failure calls (write_map 0 uid_map (mapping_text one_id)) ≡ some e))
    → run_userns_child host one_id pause_func [] ≡ (
        let waited =
          after_wait host one_id gid_map
            (after_wait host one_id uid_map (set_death_signal 9 ∷ [])).0 in
        (kill 0 ∷ write_map 0 uid_map (mapping_text one_id) ∷ pauses 3600 waited.0, returns))
run_userns_child-pause_func host seen fails =
    let waited =
      after_wait host one_id gid_map (after_wait host one_id uid_map (set_death_signal 9 ∷ [])).0 in
    run_userns_child-after_wait host one_id pause_func []
    ∙ rw seen (
        unfold pause_func in
        written_to_none host one_id (pauses 3600 waited.0) (fails (pauses 3600 waited.0)).0
          (fails (pauses 3600 waited.0)).1)
