-- ===== src/Routes/Sites.antt =====
-- The routes of addresses and of the chunks of one peer: `GET /resolve/*`, `GET /site/:peerId` and
-- `GET /site/:peerId/:collection`.
mod Tests
use subspace_transceiver.Prelude.{
  ℕ, ◌+◌, Bool, true, false, not, ◌&&◌, ◌||◌, ltb, ◌==◌, List, [], ◌∷◌, ◌++◌, Option, none, some,
  or_else, if◌then◌else◌,
}
use mathlib.Core.Bool.{decide}
use subspace_transceiver.Prelude.Sort.{sort_by}
use subspace_transceiver.Prelude.Text.{Text, text_eq, truthy}
use subspace_transceiver.Schema.{MemoryChunk, MemoryQuery, MemoryType, MemoryType-discrete}
use subspace_transceiver.Query.{given_is, is_newer, add_target}
use subspace_transceiver.Uri.{AgentUri, agent_scheme, parse_agent_uri, build_agent_uri}
use subspace_transceiver.Routes.{Reads, keep_new}
use subspace_transceiver.Routes.Search.{SearchSession, SendQuery}

unfoldable pub stores_in : List SearchSession → List Reads
stores_in [] = []
stores_in (s ∷ sessions) = s.skill ∷ s.project ∷ stores_in sessions

-- `chunks.find(p)`
unfoldable pub first_in : (MemoryChunk → Bool) → List MemoryChunk → Option MemoryChunk
first_in p [] = none
first_in p (c ∷ cs) = if p c then some c else first_in p cs

unfoldable pub first_listed : (MemoryChunk → Bool) → List Reads → Option MemoryChunk
unfolding first_in
first_listed p [] = none
first_listed p (s ∷ stores) = elim (first_in p s.list) [
  | none ↦ first_listed p stores
  | some c ↦ some c
]

-- `findLocalChunk`, and the loop of `GET /resolve/*` through the stores.
abbrev pub find_local : (MemoryChunk → Bool) → List SearchSession → Option MemoryChunk
find_local p sessions = first_listed (λ c. not c.tombstone && p c) (stores_in sessions)

-- A part of the address that is given is that of the chunk.
abbrev pub part_is : Option Text → Option Text → Bool
part_is none b = true
part_is (some part) b = not (truthy part) || given_is b part

abbrev pub names : AgentUri → MemoryChunk → Bool
names u c =
    (text_eq c.source.peer_id u.peer_id && part_is u.collection c.collection)
    && part_is u.slug c.slug

-- The test of a chunk that a peer sends.
abbrev pub is_addressed : Text → Text → Text → MemoryChunk → Bool
is_addressed peer collection slug c =
    (text_eq c.source.peer_id peer && given_is c.collection collection) && given_is c.slug slug

-- The first match in what the peers of a session send, one after the other.
unfoldable pub first_sent :
    (MemoryChunk → Bool) → (Text → Option (List MemoryChunk)) → List Text → Option MemoryChunk
unfolding first_in
first_sent p sent [] = none
first_sent p sent (peer ∷ peers) = elim (first_in p (or_else (sent peer) [])) [
  | none ↦ first_sent p sent peers
  | some c ↦ some c
]

unfoldable pub first_answer :
    (MemoryChunk → Bool) → SendQuery → MemoryQuery → List SearchSession → Option MemoryChunk
unfolding first_sent
first_answer p send q [] = none
first_answer p send q (s ∷ sessions) = elim (first_sent p (λ peer. send s.id peer q none) s.peers) [
  | none ↦ first_answer p send q sessions
  | some c ↦ some c
]

abbrev pub peer_query : Text → Text → MemoryQuery
peer_query peer collection = record {
  topics = none;
  kind = none;
  namespace = none;
  project = none;
  peer_id = some peer;
  collection = some collection;
  content_format = none;
  min_confidence = none;
  since = none;
  until = none;
  limit = none;
}

unfoldable pub ask_network :
    SendQuery → Text → Option Text → Option Text → List SearchSession → Option MemoryChunk
unfolding first_answer
ask_network send peer none slug sessions = none
ask_network send peer (some collection) none sessions = none
ask_network send peer (some collection) (some slug) sessions =
    if truthy collection && truthy slug
    then first_answer (is_addressed peer collection slug) send (peer_query peer collection) sessions
    else none

-- What `GET /resolve/*` replies: 400, 404, or a chunk.
pub data Resolution : Type 0 where
  malformed unresolved : Resolution
  resolved : MemoryChunk → Resolution

-- The chunk of a store, or else the one that a peer sends.
abbrev pub resolution : Option MemoryChunk → Option MemoryChunk → Resolution
resolution (some c) sent = Resolution.resolved c
resolution none (some c) = Resolution.resolved c
resolution none none = Resolution.unresolved

unfoldable pub resolve_parsed : SendQuery → Option AgentUri → List SearchSession → Resolution
unfolding first_listed stores_in ask_network
resolve_parsed send none sessions = Resolution.malformed
resolve_parsed send (some u) sessions =
    resolution (find_local (names u) sessions)
      (ask_network send u.peer_id u.collection u.slug sessions)

unfoldable pub resolve : SendQuery → Text → List SearchSession → Resolution
unfolding resolve_parsed
resolve send raw sessions = resolve_parsed send (parse_agent_uri (agent_scheme ++ raw)) sessions

-- The loop of `GET /site/:peerId` over one list: the collections and the count.
unfoldable pub tally_site : Text → List MemoryChunk → List Text × ℕ → List Text × ℕ
tally_site peer [] acc = acc
tally_site peer (c ∷ cs) (collections, count) = tally_site peer cs (
    if c.tombstone || not (text_eq c.source.peer_id peer)
    then (collections, count)
    else (add_target c.collection collections, count + 1))

unfoldable pub tally_sites : Text → List Reads → List Text × ℕ → List Text × ℕ
unfolding tally_site
tally_sites peer [] acc = acc
tally_sites peer (s ∷ stores) acc = tally_sites peer stores (tally_site peer s.list acc)

-- The order of texts by code units, as `sort()` has it.
unfoldable pub text_le : Text → Text → Bool
text_le [] b = true
text_le (x ∷ xs) [] = false
text_le (x ∷ xs) (y ∷ ys) = ltb x y || (x == y && text_le xs ys)

pub record Site : Type 0 where
  pub peer_id : Text
  pub profile : Option MemoryChunk
  pub collections : List Text
  pub chunk_count : ℕ
  pub agent_uri : Text

unfoldable pub get_site : Text → List SearchSession → Site
unfolding first_listed stores_in tally_sites text_le
get_site peer sessions =
    let (collections, count) = tally_sites peer (stores_in sessions) ([], 0) in
    record {
      peer_id = peer;
      profile =
          find_local
            (λ c.
              text_eq c.source.peer_id peer
              && decide (MemoryType-discrete c.kind MemoryType.profile))
            sessions;
      collections = sort_by text_le collections;
      chunk_count = count;
      agent_uri = build_agent_uri peer none none;
    }

-- `GET /site/:peerId/:collection`, where `since` and `limit` are what the query string parses to.
unfoldable pub asked_of : MemoryQuery → List Reads → List MemoryChunk
asked_of q [] = []
asked_of q (s ∷ stores) = s.query q ++ asked_of q stores

unfoldable pub get_collection : Text → Text → Option ℕ → ℕ → List SearchSession → List MemoryChunk
unfolding stores_in asked_of keep_new
get_collection peer collection since limit sessions =
    let q = record (peer_query peer collection) { since = since; limit = some limit } in
    sort_by is_newer ((keep_new (asked_of q (stores_in sessions)) ([], [])).1)
