-- ===== src/Routes/Graph.antt =====
-- packages/daemon/src/api.ts: `POST /memory/graph`, a breadth-first walk along the links. A depth in the
-- request is a natural number.
pub mod Walks
mod Ends
mod Rounds
pub mod Reach
use subspace_transceiver.Prelude.{
  ℕ, zero, suc, ◌+◌, Bool, true, false, not, ◌&&◌, List, [], ◌∷◌, ◌++◌, Option, none, some, ltb,
  leb, if◌then◌else◌, or_else, unless_given, length,
}
use subspace_transceiver.Prelude.Dict
use subspace_transceiver.Prelude.Sets.{includes, add}
use subspace_transceiver.Prelude.Text.{Text}
use subspace_transceiver.Schema.{MemoryChunk, ContentLink}
use subspace_transceiver.Backlinks.{get_links}
use subspace_transceiver.Uri.{is_agent_uri}
use subspace_transceiver.Routes.{Reads, Session, stores_of}

pub record Edge : Type 0 where
  pub source : Text
  pub target : Text
  pub rel : Text
  pub label : Option Text

-- The variables of the walk; an entry of the queue is an id and its depth.
pub record Walk : Type 0 where
  pub visited : List Text
  pub nodes : List MemoryChunk
  pub edges : List Edge
  pub queue : List (Text × ℕ)

-- `Math.min(body.maxDepth ?? 3, 5)`
abbrev pub capped : Option ℕ → ℕ
capped depth = let d = or_else depth 3 in if leb d 5 then d else 5

-- The map of all chunks by their ids; of two with one id the later is kept.
unfoldable pub put_chunks : List MemoryChunk → List (Text × MemoryChunk) → List (Text × MemoryChunk)
put_chunks [] chunks = chunks
put_chunks (c ∷ cs) chunks = put_chunks cs (Dict.set c.id c chunks)

unfoldable pub collect : List Reads → List (Text × MemoryChunk) → List (Text × MemoryChunk)
unfolding put_chunks
collect [] chunks = chunks
collect (s ∷ stores) chunks = collect stores (put_chunks s.list chunks)

-- `relFilter && !relFilter.has(link.rel)` lets a link pass, and so does `!isAgentURI(link.target)`.
unfoldable pub is_followed : Option (List Text) → ContentLink → Bool
is_followed rels link =
    unless_given rels (λ rs. includes rs link.rel) && not (is_agent_uri link.target)

-- The loop over the links of a chunk.
unfoldable pub follow : Option (List Text) → Text → ℕ → List ContentLink → Walk → Walk
unfolding is_followed
follow rels id depth [] w = w
follow rels id depth (link ∷ links) w = follow rels id depth links (
    if is_followed rels link && not (includes w.visited link.target)
    then record w {
      edges =
          w.edges
          ++ record { source = id; target = link.target; rel = link.rel; label = link.label } ∷ [];
      queue = w.queue ++ (link.target, suc depth) ∷ [];
    }
    else w)

module _ (chunks : List (Text × MemoryChunk)) (rels : Option (List Text)) (max_depth : ℕ) where
  -- The body of the loop for a chunk that is known.
  unfoldable pub expand : Text → ℕ → MemoryChunk → Walk → Walk
  unfolding follow
  expand id depth c w =
      let grown = record w { nodes = w.nodes ++ c ∷ [] } in
      if leb max_depth depth then grown else follow rels id depth (get_links c) grown

  -- The body of the loop, after an entry left the queue.
  unfoldable pub visit : Text → ℕ → Walk → Walk
  unfolding expand
  visit id depth w =
      if includes w.visited id
      then w
      else let seen = record w { visited = add id w.visited } in
        elim (Dict.get id chunks) [ none ↦ seen | some c ↦ expand id depth c seen ]

  -- The `while` loop; `none` where the fuel runs out.
  unfoldable pub traverse : ℕ → Walk → Option Walk
  unfolding visit
  traverse zero w = elim w.queue [ [] ↦ some w | entry ∷ queue ↦ none ]
  traverse (suc fuel) w = elim w.queue [
    | [] ↦ some w
    | (id, depth) ∷ queue ↦ traverse fuel (visit id depth (record w { queue = queue }))
  ]

-- One round for the start, and one for each link of a chunk.
unfoldable pub rounds : List (Text × MemoryChunk) → ℕ
rounds [] = 0
rounds ((id, c) ∷ chunks) = length (get_links c) + rounds chunks

unfoldable pub graph : Text → Option (List Text) → Option ℕ → List Session → Option Walk
unfolding traverse rounds collect stores_of
graph start rels depth sessions =
    let chunks = collect (stores_of sessions) [] in
    traverse chunks rels (capped depth) (suc (rounds chunks))
      (record { visited = []; nodes = []; edges = []; queue = (start, 0) ∷ [] })
