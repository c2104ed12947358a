-- ===== src/Utils/Cmd.antt =====
-- CmdExists of utils/env.go: the name becomes part of the text that the shell runs.
use sysbox_libs.Prelude.{Bool, Bytes, List, [], codes, is_some, not, ◌++◌, ◌∷◌}
use sysbox_libs.Host.{Call, Host, run_command}

module _ (host : Host) where
  unfoldable pub cmd_exists : Bytes → List Call → List Call × Bool
  cmd_exists name calls =
      let c = run_command (codes "/bin/sh" ∷ codes "-c" ∷ (codes "command -v " ++ name) ∷ []) in
      (c ∷ calls, not (is_some (host.failure calls c)))
