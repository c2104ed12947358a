-- ===== src/LinuxUtils/Child/Wait.antt =====
-- The wait of the child for its mappings, in CreateUsernsProcess of linuxUtils/linux.go.
use sysbox_libs.Prelude.{
  Bool, Bool-cases, Bytes, List, Option, [], arith, codes, eq_refl, false, if◌then◌else◌, inl, inr,
  none, refl, some, suc, true, zero, ℕ, ◌+◌, ◌<◌, ◌==◌, ◌∙◌, ◌∷◌, ◌≡◌, ◌≤◌, nat_comparable,
  bytes_comparable,
}
use sysbox_libs.LinuxUtils.Child.{
  Exec, exits, go_on, is_found, map_path, pause, read_id_map_file, run_userns_child, same_mapping,
  wait_for_mapping, wait_for_mappings,
}
use sysbox_libs.LinuxUtils.Userns.{IdMapping}
use sysbox_libs.Host.{Call, Host, read_whole, set_death_signal}

abbrev pub uid_map : Bytes
uid_map = codes "uid_map"

abbrev pub gid_map : Bytes
gid_map = codes "gid_map"

abbrev pub is_read_of : Bytes → Call → Bool
is_read_of f (read_whole path) = path == f
is_read_of f _ = false

-- How often a file has been read.
abbrev pub reads : Bytes → List Call → ℕ
reads f [] = 0
reads f (c ∷ calls) = (if is_read_of f c then 1 else 0) + reads f calls

same_mapping_refl : (m : IdMapping) → same_mapping m m ≡ true
unfolding same_mapping
same_mapping_refl m = ground arith

module _ (host : Host) (id_map : IdMapping) where
  -- Whether the mapping shows in one of the 30 reads of the file, and the calls behind them.
  abbrev pub after_wait : Bytes → List Call → List Call × Bool
  after_wait f calls = wait_for_mapping host id_map f 30 calls

  -- The two files in turn, where only what the first one shows counts.
  pub run_userns_child-after_wait :
      (exec : Exec) (calls : List Call)
      → run_userns_child host id_map exec calls ≡ (
          let uid = after_wait uid_map (set_death_signal 9 ∷ calls) in
          if uid.1 then go_on host id_map (exec (after_wait gid_map uid.0).0) else (uid.0, exits 1))
  unfolding run_userns_child wait_for_mappings go_on
  run_userns_child-after_wait exec calls =
      elim (Bool-cases (after_wait uid_map (set_death_signal 9 ∷ calls)).1) [
        | inl seen ↦ rw seen refl
        | inr unseen ↦ rw unseen refl
      ]

  reads-pause :
      (path : Bytes) (m : Option IdMapping) (calls : List Call)
      → reads path (pause host id_map m (read_whole path ∷ calls)) ≡ 1 + reads path calls
  unfolding pause
  reads-pause path none calls = rw (eq_refl path) (omega arith)
  reads-pause path (some m) calls = rw (eq_refl path) (omega arith)

  is_found-some : (o : Option IdMapping) → o ≡ some id_map → is_found host id_map o ≡ true
  unfolding is_found
  is_found-some o h = rw h (same_mapping_refl id_map)

  module _ (f : Bytes) (k : ℕ)
      (shown : (calls : List Call)
        → k ≤ reads (map_path f) calls
        → read_id_map_file host (map_path f) calls ≡ some id_map) where
    wait_for_mapping-shown :
        (n : ℕ) (calls : List Call)
        → reads (map_path f) calls ≤ k
        → k < reads (map_path f) calls + n
        → (wait_for_mapping host id_map f n calls).1 ≡ true
    unfolding wait_for_mapping
    wait_for_mapping-shown zero calls low high = absurd (omega (arith, low, high))
    wait_for_mapping-shown (suc n) calls low high =
        let m = read_id_map_file host (map_path f) calls in
        elim (Bool-cases (is_found host id_map m)) [
          | inl seen ↦ rw seen refl
          | inr unseen ↦ rw unseen (
              wait_for_mapping-shown n (pause host id_map m (read_whole (map_path f) ∷ calls))
                (ground (arith, reads-pause (map_path f) m calls, not_yet unseen, low))
                (omega (arith, reads-pause (map_path f) m calls, high)))
        ]
      where
        not_yet :
            is_found host id_map (read_id_map_file host (map_path f) calls) ≡ false
            → reads (map_path f) calls < k
        not_yet e =
            ground
              (arith, low, e, shown calls, is_found-some (read_id_map_file host (map_path f) calls))

-- The child executes its function if, from one of the first 30 reads on, each read of its uid_map
-- shows the mapping: where the function exits, that is how the child ends.
pub run_userns_child-shown :
    (host : Host) (id_map : IdMapping) (exec : List Call → List Call × ℕ) (k : ℕ)
    → k < 30
    → ((calls : List Call)
        → k ≤ reads (map_path uid_map) calls
        → read_id_map_file host (map_path uid_map) calls ≡ some id_map)
    → (calls : List Call) × (run_userns_child host id_map
          (λ calls. ((exec calls).0, exits (exec calls).1))
          []
        ≡ ((exec calls).0, exits (exec calls).1))
run_userns_child-shown host id_map exec k h shown = (
  (after_wait host id_map gid_map (after_wait host id_map uid_map (set_death_signal 9 ∷ [])).0).0,
  run_userns_child-after_wait host id_map (λ calls. ((exec calls).0, exits (exec calls).1)) []
      ∙ rw
          (wait_for_mapping-shown host id_map uid_map k shown 30 (set_death_signal 9 ∷ [])
            (omega arith) (omega (arith, h)))
          (unfold go_on in refl),
)
