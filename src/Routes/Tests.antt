-- ===== src/Routes/Tests.antt =====
-- Two sessions, a walk through their chunks, and the theorems at concrete inputs.
use subspace_transceiver.Prelude.{
  ℕ, ◌≤◌, ◌≡◌, ◌↔◌, refl, true, List, [], ◌∷◌, none, some, Elem, map,
}
use subspace_transceiver.Prelude.Dict
use subspace_transceiver.Prelude.Sets.{includes, add}
use subspace_transceiver.Prelude.Text.{Text, codes, text_eq, to_lower_case, starts_with, contains}
use subspace_transceiver.Schema.{MemoryChunk}
use subspace_transceiver.Samples.{first, second, other_second, any_query}
use subspace_transceiver.Query.{
  resolve_heads, head_chunks, superseded_ids, group_heads, winner, pick_winners,
}
use subspace_transceiver.Discovery.{new_manager}
use subspace_transceiver.Routes.{
  Reads, Session, stores_of, all_queried, keep_new, ask_all, query_memory,
}
use subspace_transceiver.Routes.Merged.{IsMerged, query_memory-IsMerged}
use subspace_transceiver.Routes.Search.{
  SearchSession, SendQuery, local_results, answers, network_results, merged_results, search_memory,
}
use subspace_transceiver.Routes.Searched.{IsFound, search_memory-IsFound}
use subspace_transceiver.Routes.Graph.{Walk, collect, capped, graph}
use subspace_transceiver.Routes.Graph.Walks.{Steps}
use subspace_transceiver.Routes.Graph.Reach.{graph_lem}

abbrev reads_of : List MemoryChunk → Reads
reads_of cs = record { get = λ id. none; list = cs; query = λ q. cs }

abbrev one_session : Session
one_session = record {
  skill = reads_of (first ∷ second ∷ []);
  project = reads_of (other_second ∷ second ∷ []);
  backlinks = [];
}

merged :
    map (λ c. c.id) (query_memory any_query (one_session ∷ []))
    ≡ codes "a" ∷ codes "b" ∷ codes "c" ∷ []
unfolding query_memory ask_all all_queried keep_new includes add text_eq
merged = refl

query_memory-IsMerged_example :
    IsMerged any_query
      (all_queried any_query.namespace (one_session ∷ []))
      (query_memory any_query (one_session ∷ []))
query_memory-IsMerged_example = query_memory-IsMerged any_query (one_session ∷ [])

-- From the second chunk its `supersedes` leads to the first.
graph_lem_example :
    (t : Walk) × (graph (codes "b") none (some 2) (one_session ∷ []) ≡ some t)
    × ((c : MemoryChunk)
        → Elem c t.nodes ↔ (
            (k : ℕ) × (v : Text) × (k ≤ capped (some 2))
            × Steps (collect (stores_of (one_session ∷ [])) []) none (codes "b") k v
            × (Dict.get v (collect (stores_of (one_session ∷ [])) []) ≡ some c)))
graph_lem_example = graph_lem (codes "b") none (some 2) (one_session ∷ [])

-- A store lists a chunk whose time is over and one that the peer's is newer than.
abbrev search_session : SearchSession
search_session = record {
  id = codes "net";
  skill = reads_of (record first { ttl = some 9 } ∷ second ∷ []);
  project = reads_of [];
  peers = codes "ann" ∷ [];
  discovery = new_manager none;
}

abbrev sends : SendQuery
sends id peer q pow = some (other_second ∷ record second { tombstone = true } ∷ [])

searched :
    map (λ c. c.id) (search_memory sends 9 (some (codes "EX")) any_query none (search_session ∷ []))
    ≡ codes "c" ∷ []
unfolding search_memory merged_results local_results network_results answers contains starts_with
    to_lower_case resolve_heads head_chunks superseded_ids group_heads winner pick_winners keep_new
    includes add text_eq Dict.get Dict.set
searched = refl

search_memory-IsFound_example :
    IsFound sends 9
      (codes "ex")
      any_query
      none
      (search_session ∷ [])
      (merged_results sends 9 (some (codes "EX")) any_query none (search_session ∷ []))
      (search_memory sends 9 (some (codes "EX")) any_query none (search_session ∷ []))
unfolding to_lower_case
search_memory-IsFound_example =
    search_memory-IsFound sends 9 (some (codes "EX")) any_query none (search_session ∷ [])
