-- ===== src/Nsid/Tests.antt =====
-- Identifiers parsed and matched, and the theorems at concrete inputs.
use subspace_transceiver.Prelude.{◌≡◌, refl, false, [], ◌∷◌, none, some}
use subspace_transceiver.Prelude.Dict
use subspace_transceiver.Prelude.Text.{Text, codes, text_eq, starts_with, split, join}
use subspace_transceiver.Nsid.{
  ParsedNsid, is_valid_segment, is_valid_nsid, parse_nsid, ends_with, nsid_matches,
  memory_type_to_nsid, find_type, nsid_to_memory_type,
}

nsids : Unit {0}
unfolding text_eq starts_with split join is_valid_segment is_valid_nsid parse_nsid ends_with
    nsid_matches memory_type_to_nsid find_type nsid_to_memory_type Dict.get
nsids = tt

abbrev task : Text
task = codes "com.example.task.item"

task_parsed :
    parse_nsid task
    ≡ some (record {
      nsid = task;
      authority = codes "example.com";
      name = codes "task.item";
      segments = codes "com" ∷ codes "example" ∷ codes "task" ∷ codes "item" ∷ [];
    })
unfolding nsids
task_parsed = refl

two_segments : parse_nsid (codes "com.example") ≡ none
unfolding nsids
two_segments = refl

inside_segment : nsid_matches (codes "net.subspaces.x") (codes "net.subspace.*") ≡ false
unfolding nsids
inside_segment = refl

abbrev parsed : ParsedNsid
parsed = record {
  nsid = task;
  authority = codes "example.com";
  name = codes "task.item";
  segments = codes "com" ∷ codes "example" ∷ codes "task" ∷ codes "item" ∷ [];
}
