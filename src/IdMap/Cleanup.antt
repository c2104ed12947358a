-- ===== src/IdMap/Cleanup.antt =====
-- The start of a child process in linuxUtils/linux.go, and the processes that it leaves.
use sysbox_libs.Prelude.{
  Bool, Bytes, List, Option, Result, [], codes, err, none, refl, some, suc, ℕ, ◌∷◌, ◌≡◌,
}
use sysbox_libs.Host.{
  Call, Error, Host, Program, answer, chdir, clone, failed, getwd, kill, perform, write_map, ◌>>=◌,
}
use sysbox_libs.Host.Rules.{
  Continues, Runs, bind_rule, defer_rule, number_rule, perform_rule, text_rule,
}
use sysbox_libs.IdMap.Levels.{
  Adds, Adds-quiet, Level, clone-Level, holding, kill-Level, level-cons, level-failed,
}
use sysbox_libs.LinuxUtils.Userns.{
  IdMapping, clone_flags, create_userns_process, killed, mapping_text, or_kill, write_mappings,
}

module _ (host : Host) {B : Type 0} (Q : List Call → Result Error B → Type 0) (pid : ℕ) (c : Call)
    (calls : List Call) where
  kill_rule :
      (f : Unit {0} → Program B)
      → ((e : ℕ) → host.failure calls c ≡ some e → Q (kill pid ∷ c ∷ calls) (err (failed c e)))
      → (host.failure calls c ≡ none → Runs Q (f tt) (c ∷ calls))
      → Runs Q (or_kill pid (perform host c) >>= f) calls
  unfolding or_kill perform
  kill_rule f bad good =
      bind_rule Q (or_kill pid (perform host c)) f calls (at_answer (host.failure calls c) refl)
    where
      at_answer :
          (o : Option ℕ)
          → host.failure calls c ≡ o
          → Continues Q f
              (killed pid (c ∷ calls, answer c o tt)).0
              (killed pid (c ∷ calls, answer c o tt)).1
      at_answer none e = unfold killed answer in good e
      at_answer (some n) e = unfold killed answer in bad n e

module _ (host : Host) (d p m : ℕ) where
  -- The mappings are written for a child that runs; if that fails it is killed.
  mappings-Adds :
      (id_map : IdMapping) (pid : ℕ) (calls : List Call)
      → Level host (holding d (suc p) m) calls
      → Runs
          (Adds host (holding d p m) (holding d (suc p) m))
          (write_mappings host id_map pid)
          calls
  unfolding write_mappings
  mappings-Adds id_map pid calls h =
      step (codes "uid_map") calls h _
        (λ calls' h'. step (codes "gid_map") calls' h' _ (λ calls'' h''. h''))
    where
      step :
          (file : Bytes) (calls : List Call)
          → Level host (holding d (suc p) m) calls
          → (f : Unit {0} → Program ℕ)
          → ((calls' : List Call)
              → Level host (holding d (suc p) m) calls'
              → Runs (Adds host (holding d p m) (holding d (suc p) m)) (f tt) calls')
          → Runs
              (Adds host (holding d p m) (holding d (suc p) m))
              (or_kill pid (perform host (write_map pid file (mapping_text id_map))) >>= f)
              calls
      step file calls h f next =
          let c = write_map pid file (mapping_text id_map) in
          let h' =
            level-cons host (holding d (suc p) m) (holding d (suc p) m) c calls h (λ kind. refl) in
          kill_rule host (Adds host (holding d p m) (holding d (suc p) m)) pid c calls f
            (λ e bad. kill-Level host d p m (c ∷ calls) pid h') (λ good. next (c ∷ calls) h')

  pub create-Adds :
      (id_map : IdMapping) (cwd : Bytes) (ns ipc : Bool) (calls : List Call)
      → Level host (holding d p m) calls
      → Runs
          (Adds host (holding d p m) (holding d (suc p) m))
          (create_userns_process host id_map cwd ns ipc)
          calls
  unfolding create_userns_process
  create-Adds id_map cwd ns ipc calls h =
      let before = holding d p m in
      let Q = Adds {A = ℕ} host before (holding d (suc p) m) in
      let h1 = level-cons host before before getwd calls h (λ kind. refl) in
      text_rule host Q getwd calls (λ e bad. h1) _
        (λ good.
          let h2 = level-cons host before before (chdir cwd) (getwd ∷ calls) h1 (λ kind. refl) in
          perform_rule host Q (chdir cwd) (getwd ∷ calls) (λ e bad. h2) _
            (λ good'.
              let c = clone (clone_flags ns ipc) in
              let calls' = chdir cwd ∷ getwd ∷ calls in
              defer_rule Q (chdir _ ∷ []) _ calls' (
                Adds-quiet host before (holding d (suc p) m) (chdir _) _ _ (λ kind. refl)
                  (λ kind. refl)
                  (number_rule host Q c calls'
                    (λ e bad. level-failed host before c calls' e bad (λ kind. refl) h2) _
                    (λ good''.
                      mappings-Adds id_map _ (c ∷ calls')
                        (clone-Level host d p m calls' _ good'' h2))))))
