-- ===== src/Routes.antt =====
-- packages/daemon/src/api.ts: the routes that read the memory. A route is a function of the sessions to
-- what it sends; what a store answers is the record `Reads`, with nothing for a read that fails.
pub mod Graph
pub mod Merged
pub mod Search
pub mod Hits
pub mod Searched
pub mod Sites
pub mod Outcomes
pub mod Resolved
pub mod Listed
pub mod Peers
pub mod Reachable
pub mod Introduce
pub mod Introduced
mod Tests
use subspace_transceiver.Prelude.{
  ℕ, Bool, true, false, List, [], ◌∷◌, ◌++◌, Option, none, some, if◌then◌else◌,
}
use subspace_transceiver.Prelude.Dict
use subspace_transceiver.Prelude.Sets.{includes, add}
use subspace_transceiver.Prelude.Text.{Text}
use subspace_transceiver.Schema.{MemoryChunk, MemoryQuery, MemoryNamespace, ContentLink}
use subspace_transceiver.Backlinks.{Index, get_backlinks, get_links}

-- The reads of an IMemoryStore.
pub record Reads : Type 0 where
  pub get : Text → Option MemoryChunk
  pub list : List MemoryChunk
  pub query : MemoryQuery → List MemoryChunk

-- What the routes use of a NetworkSession.
pub record Session : Type 0 where
  pub skill : Reads
  pub project : Reads
  pub backlinks : Index

-- `[session.stores.skill, session.stores.project]`, of every session.
unfoldable pub stores_of : List Session → List Reads
stores_of [] = []
stores_of (s ∷ sessions) = s.skill ∷ s.project ∷ stores_of sessions

-- The loops that look an id up, and stop at the first chunk.
unfoldable pub find_chunk : Text → List Reads → Option MemoryChunk
find_chunk id [] = none
find_chunk id (s ∷ stores) = elim (s.get id) [ none ↦ find_chunk id stores | some c ↦ some c ]

-- `GET /memory/:id`; `none` is the answer 404.
unfoldable pub get_memory : Text → List Session → Option MemoryChunk
unfolding find_chunk stores_of
get_memory id sessions = find_chunk id (stores_of sessions)

-- `GET /memory/:id/links`
unfoldable pub get_memory_links : Text → List Session → Option (List ContentLink)
unfolding find_chunk stores_of
get_memory_links id sessions = elim (find_chunk id (stores_of sessions)) [
  | none ↦ none
  | some c ↦ some (get_links c)
]

-- The chunks of one session that its index names as linking to the id.
unfoldable pub linked_chunks : List Text → List Reads → List MemoryChunk
unfolding find_chunk
linked_chunks [] stores = []
linked_chunks (id ∷ ids) stores =
    elim (find_chunk id stores) [ none ↦ [] | some c ↦ c ∷ [] ] ++ linked_chunks ids stores

-- `GET /memory/:id/backlinks`
unfoldable pub get_memory_backlinks : Text → List Session → List MemoryChunk
unfolding linked_chunks
get_memory_backlinks id [] = []
get_memory_backlinks id (s ∷ sessions) =
    linked_chunks (get_backlinks s.backlinks id) (s.skill ∷ s.project ∷ [])
    ++ get_memory_backlinks id sessions

-- The stores that a query asks.
abbrev pub queried : Option MemoryNamespace → Session → List Reads
queried none s = s.skill ∷ s.project ∷ []
queried (some MemoryNamespace.skill) s = s.skill ∷ []
queried (some MemoryNamespace.project) s = s.project ∷ []

unfoldable pub all_queried : Option MemoryNamespace → List Session → List Reads
all_queried namespace [] = []
all_queried namespace (s ∷ sessions) = queried namespace s ++ all_queried namespace sessions

-- `if (!seen.has(c.id)) { seen.add(c.id); results.push(c) }`, for each chunk.
unfoldable pub keep_new :
    List MemoryChunk → List Text × List MemoryChunk → List Text × List MemoryChunk
keep_new [] (seen, results) = (seen, results)
keep_new (c ∷ cs) (seen, results) =
    keep_new cs (if includes seen c.id then (seen, results) else (add c.id seen, results ++ c ∷ []))

unfoldable pub ask_all :
    MemoryQuery → List Reads → List Text × List MemoryChunk → List Text × List MemoryChunk
unfolding keep_new
ask_all q [] acc = acc
ask_all q (s ∷ stores) acc = ask_all q stores (keep_new (s.query q) acc)

-- `POST /memory/query`
unfoldable pub query_memory : MemoryQuery → List Session → List MemoryChunk
unfolding ask_all all_queried
query_memory q sessions = (ask_all q (all_queried q.namespace sessions) ([], [])).1
