-- ===== src/LinuxUtils/Child/Examples.antt =====
-- Concrete runs of the child of CreateUsernsProcess.
use sysbox_libs.LinuxUtils.Child.{
  Exec, exits, go_on, is_found, map_path, mapping_of, parsed, read_id_map_file, returns,
  run_userns_child, same_mapping, wait_for_mapping, wait_for_mappings,
}
use sysbox_libs.Strings.Decimal.{format_uint, parse_uint}
use sysbox_libs.Strings.Atoi.{atoi, atoi_value}
use sysbox_libs.Prelude.{◌⊎◌, List, [], arith, codes, if◌then◌else◌, none, refl, some, ◌∷◌, ◌≡◌}
use sysbox_libs.Host.{
  Call, Host, answer, kill, perform, set_death_signal, then_run, write_map, ◌>>=◌,
}
use sysbox_libs.Strings.Fields.{fields}
use sysbox_libs.Strings.Utf8.{plain_spaces}
use sysbox_libs.LinuxUtils.Userns.{IdMapping, killed, mapping_text, or_kill, write_mappings}
use sysbox_libs.LinuxUtils.Child.Mapping.{map_line, mapping_of-mapping_text}
use sysbox_libs.LinuxUtils.Child.Shows.{Hides, Shows, run_userns_child-uid_map}
use sysbox_libs.LinuxUtils.Child.Wait.{
  after_wait, gid_map, is_read_of, run_userns_child-shown, uid_map,
}

abbrev id_map : IdMapping
id_map = record { container_id = 0; host_id = 165536; size = 65536 }

mapping_of-mapping_text_example :
    (mapping_of (fields (mapping_text id_map)) ≡ some id_map)
    × (mapping_of (fields (map_line id_map 9 4 5 [])) ≡ some id_map)
mapping_of-mapping_text_example =
    mapping_of-mapping_text id_map 9 4 5 [] (omega arith, omega arith, omega arith)

-- The uid_map shows the mapping at each read, and the gid_map cannot be read.
abbrev uid_only : Host
uid_only = record {
  failure = λ calls c. if is_read_of (map_path gid_map) c then some 13 else none;
  number = λ calls c. 0;
  text = λ calls c. codes "0 165536 65536\n";
}

abbrev done : Exec
done calls = (calls, exits 0)

run_userns_child-uid_map_example :
    (after : List Call) × ((Shows uid_only id_map uid_map 30 (set_death_signal 9 ∷ []) after
        × (run_userns_child uid_only id_map done []
            ≡ go_on uid_only id_map (done (after_wait uid_only id_map gid_map after).0)))
      ⊎ (Hides uid_only id_map uid_map 30 (set_death_signal 9 ∷ []) after
          × (run_userns_child uid_only id_map done [] ≡ (after, exits 1))))
run_userns_child-uid_map_example = run_userns_child-uid_map uid_only id_map done []

shows : (calls : List Call) → read_id_map_file uid_only (map_path uid_map) calls ≡ some id_map
unfolding plain_spaces read_id_map_file parsed mapping_of fields atoi_value atoi parse_uint
shows calls = refl

run_userns_child-shown_example :
    (calls : List Call) × (run_userns_child uid_only id_map (λ calls. (calls, exits 0)) []
      ≡ (calls, exits 0))
run_userns_child-shown_example =
    run_userns_child-shown uid_only id_map (λ calls. (calls, 0)) 0 (omega arith)
      (λ calls h. shows calls)

-- The function runs although the gid_map is never read.
gid_map_test : (run_userns_child uid_only id_map done []).1 ≡ exits 0
unfolding run_userns_child go_on wait_for_mappings wait_for_mapping is_found read_id_map_file parsed
    plain_spaces mapping_of fields same_mapping atoi_value atoi parse_uint
gid_map_test = refl

-- Where the function returns and the maps of process 0 cannot be written, process 0 is killed:
-- the whole process group.
abbrev no_maps : Host
no_maps = record { failure = λ calls c. some 2; number = λ calls c. 0; text = λ calls c. [] }

group_killed_test :
    go_on no_maps id_map ([], returns)
    ≡ (kill 0 ∷ write_map 0 uid_map (codes "0 165536 65536\n") ∷ [], returns)
unfolding go_on write_mappings ◌>>=◌ or_kill perform answer then_run killed mapping_text format_uint
group_killed_test = refl
