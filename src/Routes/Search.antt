-- ===== src/Routes/Search.antt =====
-- `POST /memory/search`. `send` is what a peer of a session answers to a query, `none` where it rejects or
-- answers null. Both it and the peers of a session are parameters of the routes. What the routes call today
-- is `send_query`, sendQuery of packages/core/src/protocol.ts, and the peers of a session are `get_peers`,
-- of packages/core/src/network.ts; both are stubs. The stamp of the query is what the stamp cache gives,
-- `none` where it throws.
use subspace_transceiver.Prelude.{
  ℕ, Bool, true, not, ◌&&◌, ◌||◌, ◌==◌, ltb, List, [], ◌∷◌, ◌++◌, filter, any, Option, none, some,
  or_else,
}
use subspace_transceiver.Prelude.Text.{Text, contains, to_lower_case}
use subspace_transceiver.Schema.{MemoryChunk, MemoryQuery, HashcashStamp}
use subspace_transceiver.Query.{resolve_heads}
use subspace_transceiver.Discovery.{DiscoveryManager, peer_has_topic}
use subspace_transceiver.Routes.{Reads, keep_new}

-- What the search uses of a NetworkSession; a peer is its text.
pub record SearchSession : Type 0 where
  pub id : Text
  pub skill : Reads
  pub project : Reads
  pub peers : List Text
  pub discovery : DiscoveryManager

abbrev pub SendQuery : Type 0
SendQuery = Text → Text → MemoryQuery → Option HashcashStamp → Option (List MemoryChunk)

-- `sendQuery`, which asks no peer yet and answers null.
unfoldable pub send_query : SendQuery
send_query id peer q pow = none

-- `node.getPeers` of a session, which has none yet.
abbrev pub get_peers : List Text
get_peers = []

-- `c.content.toLowerCase().includes(freetext)`
abbrev pub has_text : Text → MemoryChunk → Bool
has_text freetext c = contains (to_lower_case c.content) freetext

-- `!c.ttl || c.ttl > Date.now()`
abbrev pub in_time : ℕ → Option ℕ → Bool
in_time now none = true
in_time now (some t) = t == 0 || ltb now t

-- The test of a local chunk.
abbrev pub is_match : ℕ → Text → MemoryChunk → Bool
is_match now freetext c = (not c.tombstone && in_time now c.ttl) && has_text freetext c

unfoldable pub local_results : ℕ → Text → List SearchSession → List MemoryChunk
local_results now freetext [] = []
local_results now freetext (s ∷ sessions) =
    (filter (is_match now freetext) s.skill.list ++ filter (is_match now freetext) s.project.list)
    ++ local_results now freetext sessions

-- `session.discovery.peerHasTopic(peerStr, t) !== false`
abbrev pub may_have : Text → DiscoveryManager → Text → Bool
may_have peer d topic = or_else (peer_has_topic peer topic d) true

-- The peers that are asked.
abbrev pub target_peers : List Text → SearchSession → List Text
target_peers [] s = s.peers
target_peers (t ∷ topics) s = filter (λ peer. any (may_have peer s.discovery) (t ∷ topics)) s.peers

-- What the asked peers of one session answer.
unfoldable pub answers :
    SendQuery → Text → MemoryQuery → Option HashcashStamp → Text → List Text → List MemoryChunk
answers send freetext q pow id [] = []
answers send freetext q pow id (peer ∷ peers) =
    filter (has_text freetext) (or_else (send id peer q pow) [])
    ++ answers send freetext q pow id peers

unfoldable pub network_results :
    SendQuery → Text → MemoryQuery → Option HashcashStamp → List SearchSession → List MemoryChunk
unfolding answers
network_results send freetext q pow [] = []
network_results send freetext q pow (s ∷ sessions) =
    answers send freetext q pow s.id (target_peers (or_else q.topics []) s)
    ++ network_results send freetext q pow sessions

-- The results before their heads are resolved.
unfoldable pub merged_results :
    SendQuery
    → ℕ
    → Option Text
    → MemoryQuery
    → Option HashcashStamp
    → List SearchSession
    → List MemoryChunk
unfolding keep_new local_results network_results
merged_results send now given q pow sessions =
    let freetext = to_lower_case (or_else given []) in
    (keep_new (local_results now freetext sessions ++ network_results send freetext q pow sessions)
      ([], [])).1

unfoldable pub search_memory :
    SendQuery
    → ℕ
    → Option Text
    → MemoryQuery
    → Option HashcashStamp
    → List SearchSession
    → List MemoryChunk
unfolding merged_results
search_memory send now given q pow sessions =
    resolve_heads (merged_results send now given q pow sessions)
