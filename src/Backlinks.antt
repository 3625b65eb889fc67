-- ===== src/Backlinks.antt =====
-- packages/core/src/backlink-index.ts: the reverse index of links, from a target to the ids of the chunks
-- that point at it. A method returns the new index.
pub mod Edges
pub mod Mirror
mod Tests
use subspace_transceiver.Prelude.{
  ℕ, Bool, true, false, not, ◌&&◌, ◌||◌, List, [], ◌∷◌, ◌++◌, Option, none, some, any, length,
  if◌then◌else◌, or_else,
}
use subspace_transceiver.Prelude.Dict
use subspace_transceiver.Prelude.Sets.{add, remove}
use subspace_transceiver.Prelude.Text.{Text, codes, text_eq, truthy}
use subspace_transceiver.Schema.{MemoryChunk, ContentLink}

-- The private map `index`.
abbrev pub Index : Type 0
Index = List (Text × List Text)

-- `getBacklinks`
unfoldable pub get_backlinks : Index → Text → List Text
get_backlinks i target = or_else (Dict.get target i) []

unfoldable pub add_edge : Text → Text → Index → Index
unfolding get_backlinks
add_edge target source i = Dict.set target (add source (get_backlinks i target)) i

-- Each link of the chunk as an edge.
unfoldable pub add_links : List ContentLink → Text → Index → Index
add_links [] source i = i
add_links (l ∷ links) source i = add_links links source (add_edge l.target source i)

-- `if (chunk.supersedes)`
abbrev pub given : Option Text → Bool
given none = false
given (some t) = truthy t

unfoldable pub index_chunk : MemoryChunk → Index → Index
index_chunk c i =
    if c.tombstone
    then i
    else let linked = add_links (or_else c.links []) c.id i in
      if given c.supersedes then add_edge (or_else c.supersedes []) c.id linked else linked

-- The set that a removal left, or nothing in place of an empty set.
unfoldable pub keep_sources : Text → List Text → Index → Index
keep_sources target [] i = Dict.delete target i
keep_sources target (source ∷ sources) i = Dict.set target (source ∷ sources) i

-- What `removeChunk` does for one target.
unfoldable pub remove_edge : Text → Text → Index → Index
remove_edge target source i = elim (Dict.get target i) [
  | none ↦ i
  | some sources ↦ keep_sources target (remove source sources) i
]

unfoldable pub remove_links : List ContentLink → Text → Index → Index
remove_links [] source i = i
remove_links (l ∷ links) source i = remove_links links source (remove_edge l.target source i)

unfoldable pub remove_chunk : MemoryChunk → Index → Index
remove_chunk c i =
    let unlinked = remove_links (or_else c.links []) c.id i in
    if given c.supersedes then remove_edge (or_else c.supersedes []) c.id unlinked else unlinked

-- `build` indexes the chunks of the store, one after the other.
unfoldable pub build : List MemoryChunk → Index → Index
build [] i = i
build (c ∷ chunks) i = build chunks (index_chunk c i)

-- The static `getLinks`: the chunk's links, and its `supersedes` unless a link says the same.
unfoldable pub get_links : MemoryChunk → List ContentLink
get_links c =
    let links = or_else c.links [] in
    let superseded = or_else c.supersedes [] in
    if given c.supersedes
      && not (any (λ l. text_eq l.target superseded && text_eq l.rel (codes "supersedes")) links)
    then links ++ record { target = superseded; rel = codes "supersedes"; label = none } ∷ []
    else links

-- The getter `size`.
unfoldable pub size : Index → ℕ
size = length
