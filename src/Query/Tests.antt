-- ===== src/Query/Tests.antt =====
-- Runs of the query, and its theorems at concrete inputs.
use subspace_transceiver.Prelude.{◌≤◌, ◌≡◌, refl, List, [], ◌∷◌, some, inl, inr, ◌↔◌, Elem, true}
use subspace_transceiver.Prelude.Dict
use subspace_transceiver.Prelude.Sets.{includes, add}
use subspace_transceiver.Prelude.Sort.{sort_by}
use subspace_transceiver.Prelude.Text.{codes, text_eq, to_lower_case}
use subspace_transceiver.Samples.{chunk_at, any_query, first, second, other_second}
use subspace_transceiver.Schema.{MemoryChunk, MemoryQuery}
use subspace_transceiver.Query.{
  build_orbit_filter, topics_match, head_chunks, group_key, group_heads, winner, pick_winners,
  resolve_heads, apply_query,
}
use subspace_transceiver.Query.Heads.{
  IsHead, head_chunks_iff, resolve_heads_sound, resolve_heads_complete,
}
use subspace_transceiver.Query.Matching.{Matches, build_orbit_filter_iff}
use subspace_transceiver.Query.Results.{IsNewestFirst, selected, apply_query_sound}

query : Unit {0}
unfolding apply_query sort_by resolve_heads pick_winners winner group_heads head_chunks
    build_orbit_filter topics_match includes add Dict.get Dict.set text_eq to_lower_case
query = tt

-- A fork of two updates: the newer one wins.
abbrev fork : List MemoryChunk
fork = first ∷ second ∷ other_second ∷ []

fork_heads : resolve_heads fork ≡ other_second ∷ []
unfolding query
fork_heads = refl

abbrev by_topic : MemoryQuery
by_topic = record any_query { topics = some (codes "ASYNC" ∷ []); limit = some 1 }

fork_query : apply_query 5 fork by_topic ≡ other_second ∷ []
unfolding query
fork_query = refl

other_second-IsHead : IsHead fork other_second
unfolding query
other_second-IsHead = (head_chunks_iff fork other_second).0 (inr (inl refl))

resolve_heads_sound_example :
    IsHead fork other_second
    × ((h : MemoryChunk)
        → IsHead fork h
        → group_key h ≡ group_key other_second
        → h.source.timestamp ≤ other_second.source.timestamp)
unfolding query
resolve_heads_sound_example = resolve_heads_sound fork other_second (inl refl)

resolve_heads_complete_example :
    (c : MemoryChunk) × Elem c (resolve_heads fork)
    × (group_key c ≡ group_key other_second)
    × (other_second.source.timestamp ≤ c.source.timestamp)
resolve_heads_complete_example = resolve_heads_complete fork other_second other_second-IsHead

build_orbit_filter_iff_example :
    (build_orbit_filter 5 by_topic first ≡ true) ↔ Matches 5 by_topic first
build_orbit_filter_iff_example = build_orbit_filter_iff 5 by_topic first

apply_query_sound_example :
    IsNewestFirst (apply_query 5 fork by_topic)
    × ((c : MemoryChunk)
        → Elem c (apply_query 5 fork by_topic)
        → Elem c fork × Matches 5 by_topic c × IsHead (selected 5 fork by_topic) c)
apply_query_sound_example = apply_query_sound 5 fork by_topic

-- An update of low confidence, and a query for confident chunks.
abbrev doubtful : MemoryChunk
doubtful = record second { confidence = 10 }

abbrev confident : MemoryQuery
confident = record any_query { min_confidence = some 50 }

first-Matches : Matches 5 confident first
unfolding query
first-Matches = (build_orbit_filter_iff 5 confident first).0 refl

-- Two updates made at the same instant.
abbrev twin : MemoryChunk
twin = chunk_at (codes "d") 20 (some (codes "a"))

second-IsHead : IsHead (second ∷ twin ∷ []) second
unfolding query
second-IsHead = (head_chunks_iff (second ∷ twin ∷ []) second).0 (inl refl)

twin-IsHead : IsHead (second ∷ twin ∷ []) twin
unfolding query
twin-IsHead = (head_chunks_iff (second ∷ twin ∷ []) twin).0 (inr (inl refl))
