-- ===== src/Writes.antt =====
-- packages/daemon/src/api.ts: the routes that write the memory, POST here, the others in Changes. A store is one of
-- the interface MemoryStore, for which the sessions have LoroEpochManager (EpochStores). A route runs here
-- without interruption. The route's session is a copy that goes back into the map. What the route
-- draws from outside, the new id, the clock, the signature and the fuel of the mining, is in `World`.
pub mod Changes
pub mod Stores
pub mod EpochStores
pub mod Posted
pub mod Patched
pub mod Deleted
mod Tests
use subspace_transceiver.Prelude.{
  ℕ, suc, ◌+◌, ◌*◌, ◌^◌, Bool, true, false, not, List, [], ◌∷◌, ◌++◌, map, Option, none, some,
  or_else, if◌then◌else◌,
}
use subspace_transceiver.Prelude.Dict
use subspace_transceiver.Prelude.Text.{Text, codes, truthy, to_lower_case}
use subspace_transceiver.Schema.{
  MemoryChunk, MemoryType, MemoryNamespace, ContentEnvelope, ContentLink, HashcashStamp, Origin,
}
use subspace_transceiver.Schema.Valid.{validate_chunk}
use subspace_transceiver.Pow.{StampCacheEntry, get_or_mine}
use subspace_transceiver.Reputation.{ScoreArith, ScoreEvent, record_score}
use subspace_transceiver.Ingest.{
  IncomingChunk, Security, ErrorCode, IngestResult, ok, refused, DaemonState, check_ingest_security,
}
use subspace_transceiver.Backlinks.{Index, index_chunk, remove_chunk}
use subspace_transceiver.Discovery.{DiscoveryManager, trigger_rebroadcast}

-- What the routes use of an IMemoryStore. `put` is `none` where it throws, `get` where there is nothing or
-- it throws.
pub record MemoryStore : Type 1 where
  pub State : Type 0
  pub put : MemoryChunk → State → Option State
  pub get : Text → State → Option MemoryChunk
  pub forget : ℕ → Text → State → State

-- The error codes of these routes.
pub data RouteError : Type 0 where
  ingest_error : ErrorCode → RouteError
  network_not_found invalid_chunk chunk_not_found store_write_failed : RouteError

pub data Reply : Type 0 where
  sent : ℕ → MemoryChunk → Reply
  no_content : Reply
  failed : ℕ → RouteError → Reply

-- The body of POST /memory.
pub record ChunkBody : Type 0 where
  pub kind : Option MemoryType
  pub namespace : Option MemoryNamespace
  pub topic : Option (List Text)
  pub content : Option Text
  pub agent_id : Option Text
  pub peer_id : Option Text
  pub project : Option Text
  pub session_id : Option Text
  pub timestamp : Option ℕ
  pub ttl : Option ℕ
  pub confidence : Option ℕ
  pub network : Option Text
  pub supersedes : Option Text
  pub collection : Option Text
  pub slug : Option Text
  pub content_envelope : Option ContentEnvelope
  pub links : Option (List ContentLink)
  pub signature : Option Text

-- The body of PATCH /memory/:id.
pub record PatchBody : Type 0 where
  pub content : Option Text
  pub confidence : Option ℕ
  pub links : Option (List ContentLink)

-- What the daemon is configured with.
pub record Config : Type 0 where
  pub local_peer_id : Text
  pub agent_id : Option Text
  pub security : Security

-- One run of a route: the clock, `uuidv4()`, `signChunk`, with nothing where it throws, and the mining.
pub record World : Type 0 where
  pub now : ℕ
  pub new_id : Text
  pub sign : MemoryChunk → Option Text
  pub fuel : ℕ
  pub mined_at : ℕ

-- `a || b` of an optional string.
abbrev pub or_text : Option Text → Text → Text
or_text none b = b
or_text (some a) b = if truthy a then a else b

-- A confidence of 0.5, in the unit of confidences.
unfoldable pub half_confidence : ℕ
half_confidence = 2 ^ 1073

-- The chunk that POST /memory makes of its body.
unfoldable pub chunk_of : Config → World → Text → ChunkBody → MemoryChunk
chunk_of config world network body = record {
  id = world.new_id;
  kind = or_else body.kind MemoryType.context;
  namespace = or_else body.namespace MemoryNamespace.project;
  topic = map to_lower_case (or_else body.topic []);
  content = or_else body.content [];
  source = record {
    agent_id = or_text body.agent_id (or_else config.agent_id config.local_peer_id);
    peer_id = or_text body.peer_id config.local_peer_id;
    project = body.project;
    session_id = body.session_id;
    timestamp = or_else body.timestamp world.now;
  };
  ttl = body.ttl;
  confidence = or_else body.confidence half_confidence;
  network = network;
  version = 1;
  supersedes = body.supersedes;
  collection = body.collection;
  slug = body.slug;
  content_envelope = body.content_envelope;
  links = body.links;
  signature = body.signature;
  pow = none;
  origin = some Origin.local;
  tombstone = false;
}

-- What the guard reads of a chunk.
abbrev pub incoming_of : MemoryChunk → IncomingChunk
incoming_of c = record {
  content = some c.content;
  content_envelope = c.content_envelope;
  source = some c.source;
  signature = c.signature;
  pow = c.pow;
}

-- `signChunk`, whose error leaves the chunk as it is.
unfoldable pub sign_chunk : World → MemoryChunk → MemoryChunk
sign_chunk world c = elim (world.sign c) [ none ↦ c | some s ↦ record c { signature = some s } ]

module _ (store : MemoryStore) where
  -- What the routes use of a NetworkSession.
  pub record WriteSession : Type 0 where
    pub skill : store.State
    pub project : store.State
    pub backlinks : Index
    pub discovery : DiscoveryManager

  -- `state.sessions`
  abbrev pub Sessions : Type 0
  Sessions = List (Text × WriteSession)

  unfoldable pub last_session : Sessions → Option (Text × WriteSession)
  last_session [] = none
  last_session (s ∷ []) = some s
  last_session (s ∷ t ∷ sessions) = last_session (t ∷ sessions)

  -- The session of the named network, or the one that was joined last.
  unfoldable pub pick_session : Option Text → Sessions → Option (Text × WriteSession)
  pick_session none sessions = last_session sessions
  pick_session (some network) sessions =
      if truthy network
      then elim (Dict.get network sessions) [ none ↦ none | some s ↦ some (network, s) ]
      else last_session sessions

  unfoldable pub store_in : MemoryNamespace → WriteSession → store.State
  store_in MemoryNamespace.skill s = s.skill
  store_in MemoryNamespace.project s = s.project

  unfoldable pub with_store : MemoryNamespace → store.State → WriteSession → WriteSession
  with_store MemoryNamespace.skill t s = record s { skill = t }
  with_store MemoryNamespace.project t s = record s { project = t }

  -- The end of POST /memory: the store, the index and the discovery of the session.
  unfoldable pub store_chunk : MemoryNamespace → MemoryChunk → WriteSession → Option WriteSession
  store_chunk namespace c s = elim (store.put c (store_in namespace s)) [
    | none ↦ none
    | some t ↦ some (record (with_store namespace t s) {
      backlinks = index_chunk c s.backlinks;
      discovery = trigger_rebroadcast s.discovery;
    })
  ]

  module _ (is_uuid : Text → Bool) where
    module _ (sha256 : Text → Text) (A : ScoreArith) where
      -- What POST /memory changes of the daemon.
      pub record Daemon : Type 0 where
        pub guard : DaemonState sha256 A
        pub stamps : List (Text × StampCacheEntry)
        pub sessions : Sessions

      -- `getOrMine` for the scope of chunks; where it fails the chunk goes without a stamp.
      unfoldable pub stamp_chunk :
          Config
          → World
          → MemoryChunk
          → List (Text × StampCacheEntry)
          → List (Text × StampCacheEntry) × MemoryChunk
      stamp_chunk config world c stamps =
          elim (get_or_mine sha256 world.fuel stamps config.local_peer_id (codes "chunk")
            config.security.pow_bits_for_chunks config.security.pow_window_ms world.now
            world.mined_at) [
              | none ↦ (stamps, c)
              | some p ↦ let (stamps', stamp) = p in (stamps', record c { pow = some stamp })
            ]

      -- POST /memory from the mining on.
      unfoldable pub write_chunk :
          Config
          → World
          → Text × WriteSession
          → MemoryNamespace
          → MemoryChunk
          → Daemon
          → Daemon × Reply
      write_chunk config world (network, s) namespace c d =
          let (stamps, stamped) = stamp_chunk config world c d.stamps in
          let signed = sign_chunk world stamped in
          elim (store_chunk namespace signed s) [
            | none ↦ (record d { stamps = stamps }, Reply.failed 500 RouteError.store_write_failed)
            | some s' ↦ (
              record d { stamps = stamps; sessions = Dict.set network s' d.sessions },
              Reply.sent 201 signed,
            )
          ]

      -- The validation of POST /memory; an invalid chunk counts against its peer.
      unfoldable pub validate_and_write :
          Config
          → World
          → Text × WriteSession
          → MemoryNamespace
          → MemoryChunk
          → Daemon
          → Daemon × Reply
      validate_and_write config world session namespace c d = elim (validate_chunk is_uuid c) [
        | none ↦ (
          record d {
            guard = record d.guard {
              reputation =
                  record_score A d.guard.reputation c.source.peer_id ScoreEvent.invalid_content
                    world.now;
            };
          },
          Reply.failed 400 RouteError.invalid_chunk,
        )
        | some v ↦ write_chunk config world session namespace c d
      ]

      -- `POST /memory`, `none` for a request without a body.
      unfoldable pub post_memory : Config → World → Option ChunkBody → Daemon → Daemon × Reply
      post_memory config world none d = (d, Reply.failed 400 RouteError.invalid_chunk)
      post_memory config world (some body) d = elim (pick_session body.network d.sessions) [
        | none ↦ (d, Reply.failed 400 RouteError.network_not_found)
        | some session ↦
            let c = chunk_of config world session.0 body in
            let (guard, result) =
              check_ingest_security sha256 A config.security (incoming_of c) world.now d.guard in
            let checked = record d { guard = guard } in
            elim result [
              | refused status code ↦ (checked, Reply.failed status (RouteError.ingest_error code))
              | ok ↦ validate_and_write config world session c.namespace c checked
            ]
      ]
