-- ===== src/Routes/Peers.antt =====
-- The routes of the discovery that read: `GET /discovery/peers` and `GET /discovery/topic-check`.
use subspace_transceiver.Prelude.{ℕ, Bool, List, [], ◌∷◌, ◌++◌, Option, none, some, if◌then◌else◌}
use subspace_transceiver.Prelude.Sets.{includes, add}
use subspace_transceiver.Prelude.Text.{Text}
use subspace_transceiver.Uri.{build_agent_uri}
use subspace_transceiver.Discovery.{
  PeerIndexEntry, DiscoveryManager, get_known_peers, peer_has_topic,
}

-- What the reply says of a peer.
pub record ListedPeer : Type 0 where
  pub peer_id : Text
  pub display_name : Option Text
  pub collections : List Text
  pub chunk_count : ℕ
  pub updated_at : ℕ
  pub last_seen : ℕ
  pub agent_uri : Text

abbrev pub listed_peer : PeerIndexEntry → ListedPeer
listed_peer e = record {
  peer_id = e.peer_id;
  display_name = e.display_name;
  collections = e.collections;
  chunk_count = e.chunk_count;
  updated_at = e.updated_at;
  last_seen = e.last_seen;
  agent_uri = build_agent_uri e.peer_id none none;
}

-- `addEntries`: the peers seen, and the list of the reply.
unfoldable pub add_entries :
    List PeerIndexEntry → List Text × List ListedPeer → List Text × List ListedPeer
add_entries [] acc = acc
add_entries (e ∷ entries) (seen, peers) = add_entries entries (
    if includes seen e.peer_id
    then (seen, peers)
    else (add e.peer_id seen, peers ++ listed_peer e ∷ []))

unfoldable pub add_sessions :
    ℕ → List DiscoveryManager → List Text × List ListedPeer → List Text × List ListedPeer
unfolding add_entries
add_sessions now [] acc = acc
add_sessions now (d ∷ ds) acc = add_sessions now ds (add_entries (get_known_peers now d) acc)

-- The sessions of the networks come first, and the global one, if there is one, last.
unfoldable pub get_discovery_peers :
    ℕ → List DiscoveryManager → Option DiscoveryManager → List ListedPeer
unfolding add_sessions
get_discovery_peers now sessions none = (add_sessions now sessions ([], [])).1
get_discovery_peers now sessions (some d) =
    (add_entries (get_known_peers now d) (add_sessions now sessions ([], []))).1

-- The first session that knows the peer decides.
unfoldable pub first_known : Text → Text → List DiscoveryManager → Option Bool
first_known peer topic [] = none
first_known peer topic (d ∷ ds) = elim (peer_has_topic peer topic d) [
  | none ↦ first_known peer topic ds
  | some b ↦ some b
]

-- What `GET /discovery/topic-check` replies: 400, or what is known. A parameter that is missing is the empty text.
pub data TopicCheck : Type 0 where
  refused : TopicCheck
  checked : Option Bool → TopicCheck

unfoldable pub topic_check : Text → Text → List DiscoveryManager → TopicCheck
unfolding first_known
topic_check [] topic sessions = TopicCheck.refused
topic_check (p ∷ peer) [] sessions = TopicCheck.refused
topic_check (p ∷ peer) (t ∷ topic) sessions =
    TopicCheck.checked (first_known (p ∷ peer) (t ∷ topic) sessions)
