-- ===== src/Discovery.antt =====
-- packages/core/src/discovery.ts: DiscoveryManager. The stores are what their `list` answers, `none`
-- where it fails; a filter travels as its bytes, of which the code sends the base64; and a message of the
-- gossip bridge is the manifest that it decodes to, `none` where it is malformed. Timers are flags, and
-- the callbacks that end them are functions.
pub mod Announced
pub mod Stamped
pub mod Admitted
pub mod Known
mod Tests
use subspace_transceiver.Prelude.{
  ℕ, suc, ◌+◌, ◌*◌, Bool, true, false, not, ◌&&◌, ◌||◌, ltb, if◌then◌else◌, List, [], ◌∷◌, ◌++◌,
  filter, Option, none, some, or_else,
}
use subspace_transceiver.Prelude.Text.{Text, codes, text_eq, truthy}
use subspace_transceiver.Prelude.Sets.{includes}
use subspace_transceiver.Prelude.Sets
use subspace_transceiver.Prelude.Dict
use subspace_transceiver.Schema.{MemoryChunk, HashcashStamp}
use subspace_transceiver.Pow.{StampCacheEntry, verify_stamp, get_or_mine}
use subspace_transceiver.Bloom.{new_filter, add_all}
use subspace_transceiver.Bloom

pub record DiscoveryManifest : Type 0 where
  pub peer_id : Text
  pub agent_peer_id : Option Text
  pub display_name : Option Text
  pub collections : List Text
  pub topic_bloom : List ℕ
  pub content_bloom : List ℕ
  pub chunk_count : ℕ
  pub updated_at : ℕ
  pub pow : Option HashcashStamp

pub record PeerIndexEntry : Type 0 where
  pub peer_id : Text
  pub agent_peer_id : Option Text
  pub display_name : Option Text
  pub collections : List Text
  pub topic_bloom : List ℕ
  pub content_bloom : List ℕ
  pub chunk_count : ℕ
  pub updated_at : ℕ
  pub last_seen : ℕ

pub record DiscoveryManagerOptions : Type 0 where
  pub local_peer_id : Text
  pub agent_peer_id : Option Text
  pub display_name : Option Text
  pub subscribed_topics : Option (List Text)
  pub subscribed_peers : Option (List Text)
  pub pow_bits_for_requests : Option ℕ
  pub pow_window_ms : Option ℕ
  pub require_pow : Bool

-- What the manager emits.
pub data Event : Type 0 where
  manifest : PeerIndexEntry → Event
  subscribed_topic_available : Text → Text → Event
  subscribed_peer_manifest : PeerIndexEntry → Event

-- The manager. `broadcasts` counts the calls of `broadcastManifest` that are begun or left to the timer
-- of three seconds, which nothing cancels; `sent` is what went to the bridge.
pub record DiscoveryManager : Type 0 where
  pub peer_index : List (Text × PeerIndexEntry)
  pub manifest_timer : Bool
  pub rebroadcast_timer : Bool
  pub gossip_subscribed : Bool
  pub started : Bool
  pub discovery_topic_hex : Option Text
  pub stamp_cache : Option (List (Text × StampCacheEntry))
  pub broadcasts : ℕ
  pub sent : List DiscoveryManifest
  pub events : List Event

abbrev pub discovery_topic : Text
discovery_topic = codes "_subspace/discovery"

abbrev pub peer_stale_ms : ℕ
peer_stale_ms = 5 * 60000

unfoldable pub new_manager : Option (List (Text × StampCacheEntry)) → DiscoveryManager
new_manager stamp_cache = record {
  peer_index = [];
  manifest_timer = false;
  rebroadcast_timer = false;
  gossip_subscribed = false;
  started = false;
  discovery_topic_hex = none;
  stamp_cache = stamp_cache;
  broadcasts = 0;
  sent = [];
  events = [];
}

-- The local variables of `buildManifest`.
pub record Tally : Type 0 where
  pub topic_bloom : List ℕ
  pub content_bloom : List ℕ
  pub chunk_count : ℕ
  pub collections : List Text

-- `if (chunk.collection) collections.add(chunk.collection)`
abbrev pub add_collection : Option Text → List Text → List Text
add_collection none collections = collections
add_collection (some name) collections =
    if truthy name then Sets.add name collections else collections

-- The body of the inner loop.
unfoldable pub tally_chunk : MemoryChunk → Tally → Tally
tally_chunk chunk t = if chunk.tombstone then t else record {
  topic_bloom = add_all chunk.topic t.topic_bloom;
  content_bloom = Bloom.add chunk.id t.content_bloom;
  chunk_count = suc t.chunk_count;
  collections = add_collection chunk.collection t.collections;
}

unfoldable pub tally_chunks : List MemoryChunk → Tally → Tally
tally_chunks [] t = t
tally_chunks (chunk ∷ chunks) t = tally_chunks chunks (tally_chunk chunk t)

unfoldable pub tally_stores : List (Option (List MemoryChunk)) → Tally → Tally
tally_stores [] t = t
tally_stores (listed ∷ stores) t = tally_stores stores (tally_chunks (or_else listed []) t)

unfoldable pub tally : List (Option (List MemoryChunk)) → Tally
tally stores = tally_stores stores (record {
  topic_bloom = new_filter;
  content_bloom = new_filter;
  chunk_count = 0;
  collections = [];
})

unfoldable pub unstamped : DiscoveryManagerOptions → ℕ → Tally → DiscoveryManifest
unstamped opts now t = record {
  peer_id = opts.local_peer_id;
  agent_peer_id = opts.agent_peer_id;
  display_name = opts.display_name;
  collections = t.collections;
  topic_bloom = t.topic_bloom;
  content_bloom = t.content_bloom;
  chunk_count = t.chunk_count;
  updated_at = now;
  pow = none;
}

unfoldable pub entry_of : DiscoveryManifest → ℕ → PeerIndexEntry
entry_of m now = record {
  peer_id = m.peer_id;
  agent_peer_id = m.agent_peer_id;
  display_name = m.display_name;
  collections = m.collections;
  topic_bloom = m.topic_bloom;
  content_bloom = m.content_bloom;
  chunk_count = m.chunk_count;
  updated_at = m.updated_at;
  last_seen = now;
}

-- The loop over the subscribed topics.
unfoldable pub topic_events : Text → List ℕ → List Text → List Event
topic_events peer bloom [] = []
topic_events peer bloom (topic ∷ topics) =
    if Bloom.has topic bloom
    then Event.subscribed_topic_available peer topic ∷ topic_events peer bloom topics
    else topic_events peer bloom topics

unfoldable pub subscription_events : DiscoveryManagerOptions → PeerIndexEntry → List Event
subscription_events opts entry =
    topic_events entry.peer_id entry.topic_bloom (or_else opts.subscribed_topics [])
    ++ (if includes (or_else opts.subscribed_peers []) entry.peer_id
        then Event.subscribed_peer_manifest entry ∷ []
        else [])

module _ (sha256 : Text → Text) (opts : DiscoveryManagerOptions) where
  -- The guard of `processManifestLocal`.
  unfoldable pub admits : ℕ → DiscoveryManifest → Bool
  admits now m = text_eq m.peer_id opts.local_peer_id || not opts.require_pow || elim m.pow [
    | none ↦ false
    | some stamp ↦ verify_stamp sha256 stamp m.peer_id m.peer_id 16 3600000 now
  ]

  unfoldable pub process_manifest_local :
      ℕ → DiscoveryManifest → DiscoveryManager → DiscoveryManager
  process_manifest_local now m d =
      if not (admits now m)
      then d
      else let entry = entry_of m now in
        record d {
          peer_index = Dict.set m.peer_id entry d.peer_index;
          events =
              d.events
              ++ Event.manifest entry
                ∷ (if text_eq m.peer_id opts.local_peer_id
                    then []
                    else subscription_events opts entry);
        }

  unfoldable pub process_manifest : ℕ → DiscoveryManifest → DiscoveryManager → DiscoveryManager
  process_manifest now m d =
      if text_eq m.peer_id opts.local_peer_id then d else process_manifest_local now m d

  unfoldable pub handle_gossip_message :
      ℕ → Option DiscoveryManifest → DiscoveryManager → DiscoveryManager
  handle_gossip_message now none d = d
  handle_gossip_message now (some m) d = process_manifest now m d

  -- Messages that arrive one after the other, each at its time.
  unfoldable pub receive : List (ℕ × Option DiscoveryManifest) → DiscoveryManager → DiscoveryManager
  receive [] d = d
  receive ((now, message) ∷ messages) d = receive messages (handle_gossip_message now message d)

  -- `buildManifest`, with the fuel of the mining and the time at which it ends.
  unfoldable pub build_manifest :
      ℕ
      → ℕ
      → ℕ
      → List (Option (List MemoryChunk))
      → DiscoveryManager
      → Option (DiscoveryManager × DiscoveryManifest)
  build_manifest fuel now done stores d = elim d.stamp_cache [
    | none ↦ some (d, unstamped opts now (tally stores))
    | some cache ↦
        elim (get_or_mine sha256 fuel cache opts.local_peer_id opts.local_peer_id
          (or_else opts.pow_bits_for_requests 16) (or_else opts.pow_window_ms 3600000) now done) [
            | none ↦ none
            | some p ↦
                let (cache', stamp) = p in
                some (
                  record d { stamp_cache = some cache' },
                  record (unstamped opts now (tally stores)) { pow = some stamp },
                )
          ]
  ]

  -- `broadcastManifest`; an error of the bridge is dropped.
  unfoldable pub broadcast_manifest :
      ℕ → ℕ → ℕ → List (Option (List MemoryChunk)) → DiscoveryManager → Option DiscoveryManager
  broadcast_manifest fuel now done stores d = elim (build_manifest fuel now done stores d) [
    | none ↦ none
    | some p ↦
        let (d', m) = p in
        let d'' = process_manifest_local done m d' in
        some (record d'' { sent = d''.sent ++ m ∷ [] })
  ]

-- `start`; whether the bridge could join does not matter.
unfoldable pub start : (Text → Text) → DiscoveryManager → DiscoveryManager
start sha256 d = if d.started then d else record d {
  started = true;
  discovery_topic_hex = some (sha256 discovery_topic);
  gossip_subscribed = true;
  manifest_timer = true;
  broadcasts = suc d.broadcasts;
}

unfoldable pub trigger_rebroadcast : DiscoveryManager → DiscoveryManager
trigger_rebroadcast d = if d.rebroadcast_timer then d else record d { rebroadcast_timer = true }

-- The callback of that timer.
unfoldable pub run_rebroadcast : DiscoveryManager → DiscoveryManager
run_rebroadcast d = record d { rebroadcast_timer = false; broadcasts = suc d.broadcasts }

unfoldable pub stop : DiscoveryManager → DiscoveryManager
stop d = record d {
  manifest_timer = false;
  rebroadcast_timer = false;
  gossip_subscribed = false;
  started = false;
}

-- What `addDiscoveryPeer` ends in: an exception before any call, that of the bridge, or no exception.
pub data Introduction : Type 0 where
  not_started join_failed introduced : Introduction

unfoldable pub add_discovery_peer : Bool → DiscoveryManager → DiscoveryManager × Introduction
add_discovery_peer joins d = elim d.discovery_topic_hex [
  | none ↦ (d, Introduction.not_started)
  | some hex ↦
      if joins
      then (record d { broadcasts = suc d.broadcasts }, Introduction.introduced)
      else (d, Introduction.join_failed)
]

-- `now - entry.lastSeen < PEER_STALE_MS`
abbrev pub is_known : ℕ → PeerIndexEntry → Bool
is_known now entry = ltb now (entry.last_seen + peer_stale_ms)

unfoldable pub get_known_peers : ℕ → DiscoveryManager → List PeerIndexEntry
get_known_peers now d = filter (is_known now) (Dict.values d.peer_index)

unfoldable pub peer_has_topic : Text → Text → DiscoveryManager → Option Bool
peer_has_topic peer topic d = elim (Dict.get peer d.peer_index) [
  | none ↦ none
  | some entry ↦ some (Bloom.has topic entry.topic_bloom)
]

unfoldable pub peer_probably_has_topic : Text → Text → DiscoveryManager → Bool
peer_probably_has_topic peer topic d = elim (Dict.get peer d.peer_index) [
  | none ↦ false
  | some entry ↦ Bloom.has topic entry.topic_bloom
]

unfoldable pub peer_probably_has_chunk : Text → Text → DiscoveryManager → Bool
peer_probably_has_chunk peer chunk_id d = elim (Dict.get peer d.peer_index) [
  | none ↦ false
  | some entry ↦ Bloom.has chunk_id entry.content_bloom
]
