-- ===== src/LinuxUtils/Child.antt =====
-- CreateUsernsProcess of linuxUtils/linux.go, as its child process runs it.
pub mod Mapping
pub mod Wait
pub mod Shows
pub mod Exit
mod Examples
use sysbox_libs.Prelude.{
  Bool, Bytes, List, Option, [], codes, false, if◌then◌else◌, nat_beq, none, some, suc, true, zero,
  ℕ, ◌%◌, ◌&&◌, ◌++◌, ◌-◌, ◌^◌, ◌||◌, ◌∷◌,
}
use sysbox_libs.Prelude.Int.{negsuc, pos, ℤ}
use sysbox_libs.Host.{Call, Host, read_whole, set_death_signal, set_resgid, set_resuid, sleep}
use sysbox_libs.Strings.Fields.{fields}
use sysbox_libs.Strings.Atoi.{atoi_value}
use sysbox_libs.LinuxUtils.Userns.{IdMapping, write_mappings}

-- How a function that a process executes ends: the process exits, or the function returns.
pub data End : Type 0 where
  exits : ℕ → End
  returns : End

abbrev pub Exec : Type 0
Exec = List Call → List Call × End

-- `os.Exit`.
abbrev pub exit_with : ℕ → Exec
exit_with code calls = (calls, exits code)

unfoldable pub checked : Option ℕ → Exec → Exec → Exec
checked none next broken = next
checked (some e) next broken = broken

module _ (host : Host) where
  -- A call, and where the process goes on behind it if it fails.
  unfoldable pub or_else_run : Call → Exec → Exec → Exec
  unfolding checked
  or_else_run c broken next calls = checked (host.failure calls c) next broken (c ∷ calls)

  unfoldable pub or_else_number : Call → Exec → (ℕ → Exec) → Exec
  unfolding checked
  or_else_number c broken next calls =
      checked (host.failure calls c) (next (host.number calls c)) broken (c ∷ calls)

  -- The process makes itself root of its user namespace, or exits.
  unfoldable pub become_root : Exec → Exec
  become_root next =
      or_else_run (set_resuid 0) (exit_with 1) (or_else_run (set_resgid 0) (exit_with 1) next)

-- `uint32(n)` of an `int`.
abbrev pub uint32 : ℤ → ℕ
uint32 (pos n) = n % 2 ^ 32
uint32 (negsuc n) = 2 ^ 32 - 1 - n % 2 ^ 32

unfoldable pub mapping_of : List Bytes → Option IdMapping
mapping_of (c ∷ h ∷ s ∷ rest) = some (record {
  container_id = uint32 (atoi_value c);
  host_id = uint32 (atoi_value h);
  size = uint32 (atoi_value s);
})
mapping_of _ = none

unfoldable pub same_mapping : IdMapping → IdMapping → Bool
same_mapping m id_map =
    nat_beq m.container_id id_map.container_id
    && nat_beq m.host_id id_map.host_id
    && nat_beq m.size id_map.size

abbrev pub map_path : Bytes → Bytes
map_path f = codes "/proc/self/" ++ f

unfoldable pub parsed : Option ℕ → Bytes → Option IdMapping
parsed (some e) text = none
parsed none text = mapping_of (fields text)

module _ (host : Host) where
  -- What `readIDMapFile` gives: no mapping where it fails.
  unfoldable pub read_id_map_file : Bytes → List Call → Option IdMapping
  read_id_map_file fname calls =
      parsed (host.failure calls (read_whole fname)) (host.text calls (read_whole fname))

  module _ (id_map : IdMapping) where
    -- The calls of one round that did not find the mapping: after a failure there is no pause.
    unfoldable pub pause : Option IdMapping → List Call → List Call
    pause none calls = calls
    pause (some m) calls = sleep 100 ∷ calls

    unfoldable pub is_found : Option IdMapping → Bool
    is_found none = false
    is_found (some m) = same_mapping m id_map

    -- `n` rounds are left.
    unfoldable pub wait_for_mapping : Bytes → ℕ → List Call → List Call × Bool
    wait_for_mapping f zero calls = (calls, false)
    wait_for_mapping f (suc n) calls =
        let m = read_id_map_file (map_path f) calls in
        let calls' = read_whole (map_path f) ∷ calls in
        let rest = wait_for_mapping f n (pause m calls') in
        if is_found m then (calls', true) else rest

    -- The loop over the files: `found` stays set from one file to the next.
    unfoldable pub wait_for_mappings : List Bytes → Bool → Exec → Exec
    wait_for_mappings [] found exec calls = exec calls
    wait_for_mappings (f ∷ files) found exec calls =
        let round = wait_for_mapping f 30 calls in
        let rest = wait_for_mappings files (found || round.1) exec round.0 in
        if found || round.1 then rest else (round.0, exits 1)

    -- A child whose function has returned goes on as its parent does, with 0 for the process; the
    -- deferred change of directory is left out.
    unfoldable pub go_on : List Call × End → List Call × End
    go_on (calls, exits code) = (calls, exits code)
    go_on (calls, returns) = ((write_mappings host id_map 0 calls).0, returns)

    unfoldable pub run_userns_child : Exec → Exec
    run_userns_child exec calls = go_on (
        wait_for_mappings (codes "uid_map" ∷ codes "gid_map" ∷ []) false exec
          (set_death_signal 9 ∷ calls))
