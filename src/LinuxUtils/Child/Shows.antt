-- ===== src/LinuxUtils/Child/Shows.antt =====
-- What the child of CreateUsernsProcess, in linuxUtils/linux.go, has to read to go on.
use sysbox_libs.Prelude.{
  Bool-cases, Bytes, List, Option, arith, false, inl, inr, if◌then◌else◌, is_some, none, refl, some,
  suc, true, zero, ℕ, ◌∙◌, ◌∷◌, ◌≡◌, ◌⊎◌,
}
use sysbox_libs.LinuxUtils.Child.{
  Exec, exits, go_on, is_found, map_path, pause, read_id_map_file, run_userns_child, same_mapping,
  wait_for_mapping,
}
use sysbox_libs.LinuxUtils.Userns.{IdMapping}
use sysbox_libs.LinuxUtils.Child.Wait.{after_wait, gid_map, run_userns_child-after_wait, uid_map}
use sysbox_libs.Host.{Call, Host, read_whole, set_death_signal, sleep}

same_mapping-eq : (m n : IdMapping) → same_mapping m n ≡ true → m ≡ n
unfolding same_mapping
same_mapping-eq m n h = same_parts m n (ground (arith, h)) (ground (arith, h)) (ground (arith, h))
  where
    same_parts :
        (m n : IdMapping)
        → m.container_id ≡ n.container_id
        → m.host_id ≡ n.host_id
        → m.size ≡ n.size
        → m ≡ n
    same_parts m n c h s = rw (c, h, s) refl

module _ (host : Host) (id_map : IdMapping) (f : Bytes) where
  -- A read of the file, after the calls, that gives the mapping.
  abbrev pub IsShown : List Call → Type 0
  IsShown calls = read_id_map_file host (map_path f) calls ≡ some id_map

  -- The calls behind a read that does not give it: there is a pause if it gives another one.
  abbrev behind_read : List Call → List Call
  behind_read calls =
      if is_some (read_id_map_file host (map_path f) calls)
      then sleep 100 ∷ read_whole (map_path f) ∷ calls
      else read_whole (map_path f) ∷ calls

  -- One of `n` reads is the first that gives the mapping, and `after` are the calls up to it.
  abbrev pub Shows : ℕ → List Call → List Call → Type 0
  Shows zero calls after = ⊥
  Shows (suc n) calls after =
      (IsShown calls × (after ≡ read_whole (map_path f) ∷ calls))
      ⊎ (¬ IsShown calls × Shows n (behind_read calls) after)

  -- None of `n` reads gives it, and `after` are the calls up to their end.
  abbrev pub Hides : ℕ → List Call → List Call → Type 0
  Hides zero calls after = after ≡ calls
  Hides (suc n) calls after = ¬ IsShown calls × Hides n (behind_read calls) after

  found-IsShown : (o : Option IdMapping) → is_found host id_map o ≡ true → o ≡ some id_map
  unfolding is_found
  found-IsShown none h = absurd (ground (arith, h))
  found-IsShown (some m) h = rw (same_mapping-eq m id_map h) refl

  shown-found : (o : Option IdMapping) → o ≡ some id_map → is_found host id_map o ≡ true
  unfolding is_found same_mapping
  shown-found o h = rw h (ground arith)

  hidden-missed : (o : Option IdMapping) → ¬ (o ≡ some id_map) → is_found host id_map o ≡ false
  hidden-missed o h = elim (Bool-cases (is_found host id_map o)) [
    | inl found ↦ absurd (h (found-IsShown o found))
    | inr missed ↦ missed
  ]

  pause-is_some :
      (o : Option IdMapping) (calls : List Call)
      → pause host id_map o calls ≡ (if is_some o then sleep 100 ∷ calls else calls)
  unfolding pause
  pause-is_some none calls = refl
  pause-is_some (some m) calls = refl

  pause-behind_read :
      (calls : List Call)
      → pause host id_map
          (read_id_map_file host (map_path f) calls)
          (read_whole (map_path f) ∷ calls)
        ≡ behind_read calls
  pause-behind_read calls =
      pause-is_some (read_id_map_file host (map_path f) calls) (read_whole (map_path f) ∷ calls)

  wait_for_mapping-Shows :
      (n : ℕ) (calls after : List Call)
      → Shows n calls after
      → wait_for_mapping host id_map f n calls ≡ (after, true)
  unfolding wait_for_mapping
  wait_for_mapping-Shows zero calls after h = absurd h
  wait_for_mapping-Shows (suc n) calls after (inl (shown, e)) =
      rw (shown-found (read_id_map_file host (map_path f) calls) shown, e) refl
  wait_for_mapping-Shows (suc n) calls after (inr (hidden, h)) =
      rw (hidden-missed (read_id_map_file host (map_path f) calls) hidden, pause-behind_read calls)
        (wait_for_mapping-Shows n (behind_read calls) after h)

  wait_for_mapping-Hides :
      (n : ℕ) (calls after : List Call)
      → Hides n calls after
      → wait_for_mapping host id_map f n calls ≡ (after, false)
  unfolding wait_for_mapping
  wait_for_mapping-Hides zero calls after h = rw h refl
  wait_for_mapping-Hides (suc n) calls after (hidden, h) =
      rw (hidden-missed (read_id_map_file host (map_path f) calls) hidden, pause-behind_read calls)
        (wait_for_mapping-Hides n (behind_read calls) after h)

  Shows-or_Hides :
      (n : ℕ) (calls : List Call)
      → (after : List Call) × (Shows n calls after ⊎ Hides n calls after)
  Shows-or_Hides zero calls = (calls, inr refl)
  Shows-or_Hides (suc n) calls =
      let o = read_id_map_file host (map_path f) calls in
      elim (Bool-cases (is_found host id_map o)) [
        | inl found ↦ (read_whole (map_path f) ∷ calls, inl (inl (found-IsShown o found, refl)))
        | inr missed ↦
            let (after, later) = Shows-or_Hides n (behind_read calls) in
            elim later [
              | inl h ↦ (after, inl (inr (not_shown o missed, h)))
              | inr h ↦ (after, inr (not_shown o missed, h))
            ]
      ]
    where
      not_shown : (o : Option IdMapping) → is_found host id_map o ≡ false → ¬ (o ≡ some id_map)
      not_shown o missed shown = ground (arith, missed, shown-found o shown)

-- One of two things is the case: one of 30 reads of its uid_map gives the child exactly its
-- mapping, and then it executes its function behind the reads of its gid_map, whatever these give;
-- or none of them does, and then it exits with status 1. There is a
-- pause of 100 ms behind a read that gives another mapping, and none behind one that fails.
pub run_userns_child-uid_map :
    (host : Host) (id_map : IdMapping) (exec : Exec) (calls : List Call)
    → (after : List Call) × ((Shows host id_map uid_map 30 (set_death_signal 9 ∷ calls) after
          × (run_userns_child host id_map exec calls
              ≡ go_on host id_map (exec (after_wait host id_map gid_map after).0)))
        ⊎ (Hides host id_map uid_map 30 (set_death_signal 9 ∷ calls) after
            × (run_userns_child host id_map exec calls ≡ (after, exits 1))))
run_userns_child-uid_map host id_map exec calls =
    let start = set_death_signal 9 ∷ calls in
    let (after, either) = Shows-or_Hides host id_map uid_map 30 start in
    let ran = run_userns_child-after_wait host id_map exec calls in
    (
      after,
      elim either [
        | inl h ↦
            inl (h, ran ∙ rw (wait_for_mapping-Shows host id_map uid_map 30 start after h) refl)
        | inr h ↦
            inr (h, ran ∙ rw (wait_for_mapping-Hides host id_map uid_map 30 start after h) refl)
      ],
    )
