-- ===== src/Query.antt =====
-- packages/core/src/query.ts: the filter of a query, the heads of supersedes chains, and the query.
-- `Date.now()` is the argument `now`.
pub mod Groups
pub mod Heads
pub mod Matching
pub mod Results
pub mod Surprises
mod Tests
use subspace_transceiver.Prelude.{
  ℕ, Bool, true, false, not, ◌&&◌, ◌||◌, List, [], ◌∷◌, ◌++◌, map, Option, none, some, ltb, leb,
  if◌then◌else◌, unless_given, or_else, filter, all, take, ◌==◌,
}
use mathlib.Core.Bool.{decide}
use subspace_transceiver.Prelude.Dict
use subspace_transceiver.Prelude.Sets.{includes, add}
use subspace_transceiver.Prelude.Sort.{sort_by}
use subspace_transceiver.Prelude.Text.{Text, text_eq, to_lower_case, truthy}
use subspace_transceiver.Schema.{
  MemoryChunk, MemoryQuery, ContentEnvelope, ContentFormat, MemoryType-discrete,
  MemoryNamespace-discrete, ContentFormat-discrete,
}

-- `a === b` for a value that may be undefined and a text.
abbrev pub given_is : Option Text → Text → Bool
given_is none b = false
given_is (some a) b = text_eq a b

-- `doc.ttl !== undefined && doc.ttl < now`
abbrev pub is_expired : ℕ → MemoryChunk → Bool
is_expired now doc = not (unless_given doc.ttl (λ t. leb now t))

-- `if (chunk.supersedes) supersededIds.add(chunk.supersedes)`
abbrev pub add_target : Option Text → List Text → List Text
add_target none ids = ids
add_target (some t) ids = if truthy t then add t ids else ids

-- Every requested topic is one of the chunk's, letters compared in lower case.
unfoldable pub topics_match : MemoryChunk → List Text → Bool
topics_match doc topics = all (λ t. includes (map to_lower_case doc.topic) (to_lower_case t)) topics

-- `doc.contentEnvelope?.format === f`
abbrev pub format_is : Option ContentEnvelope → ContentFormat → Bool
format_is none f = false
format_is (some e) f = decide (ContentFormat-discrete e.format f)

unfoldable pub build_orbit_filter : ℕ → MemoryQuery → MemoryChunk → Bool
build_orbit_filter now q doc =
    not doc.tombstone
    && not (is_expired now doc)
    && unless_given q.kind (λ t. decide (MemoryType-discrete doc.kind t))
    && unless_given q.namespace (λ n. decide (MemoryNamespace-discrete doc.namespace n))
    && unless_given q.project (given_is doc.source.project)
    && unless_given q.peer_id (text_eq doc.source.peer_id)
    && unless_given q.collection (given_is doc.collection)
    && unless_given q.content_format (format_is doc.content_envelope)
    && unless_given q.min_confidence (λ c. leb c doc.confidence)
    && unless_given q.since (λ t. leb t doc.source.timestamp)
    && unless_given q.until (λ t. leb doc.source.timestamp t)
    && unless_given q.topics (topics_match doc)

-- The loop that collects the superseded ids; an empty string is not truthy.
unfoldable pub superseded_ids : List MemoryChunk → List Text → List Text
superseded_ids [] ids = ids
superseded_ids (c ∷ cs) ids = superseded_ids cs (add_target c.supersedes ids)

-- `chunks.filter(c => !supersededIds.has(c.id) && !c._tombstone)`
unfoldable pub head_chunks : List MemoryChunk → List MemoryChunk
unfolding superseded_ids
head_chunks chunks =
    let ids = superseded_ids chunks [] in
    filter (λ c. not (includes ids c.id) && not c.tombstone) chunks

-- `head.supersedes ?? head.id`
abbrev pub group_key : MemoryChunk → Text
group_key head = or_else head.supersedes head.id

-- The loop that groups the heads.
unfoldable pub group_heads :
    List MemoryChunk → List (Text × List MemoryChunk) → List (Text × List MemoryChunk)
group_heads [] groups = groups
group_heads (h ∷ hs) groups =
    group_heads hs
      (Dict.set (group_key h) (or_else (Dict.get (group_key h) groups) [] ++ h ∷ []) groups)

-- The `reduce` of a fork: a later chunk wins only with a greater timestamp.
unfoldable pub winner : MemoryChunk → List MemoryChunk → MemoryChunk
winner best [] = best
winner best (c ∷ cs) = winner (if ltb best.source.timestamp c.source.timestamp then c else best) cs

-- The last loop. No group is empty.
unfoldable pub pick_winners : List (Text × List MemoryChunk) → List MemoryChunk
pick_winners [] = []
pick_winners ((k, []) ∷ groups) = pick_winners groups
pick_winners ((k, c ∷ cs) ∷ groups) = winner c cs ∷ pick_winners groups

unfoldable pub resolve_heads : List MemoryChunk → List MemoryChunk
resolve_heads chunks = pick_winners (group_heads (head_chunks chunks) [])

-- The comparator `b.source.timestamp - a.source.timestamp` of the sort: whether `c` may precede `d`.
abbrev pub is_newer : MemoryChunk → MemoryChunk → Bool
is_newer c d = leb d.source.timestamp c.source.timestamp

-- `q.limit !== undefined && q.limit > 0 ? sorted.slice(0, q.limit) : sorted`
abbrev pub limited : Option ℕ → List MemoryChunk → List MemoryChunk
limited none sorted = sorted
limited (some n) sorted = if ltb 0 n then take n sorted else sorted

unfoldable pub apply_query : ℕ → List MemoryChunk → MemoryQuery → List MemoryChunk
apply_query now chunks q =
    limited q.limit (sort_by is_newer (resolve_heads (filter (build_orbit_filter now q) chunks)))
