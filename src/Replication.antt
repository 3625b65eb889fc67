-- ===== src/Replication.antt =====
-- packages/core/src/replication.ts: ReplicationManager over chunk stores. A broadcast that awaits the
-- bridge is in flight, and other events may come before its end; the order of the events is a sequence
-- of steps. A message is the envelope that its payload parses to, or `none` where there is none.
pub mod Chain
pub mod Race
pub mod Waits
mod Tests
use subspace_transceiver.Prelude.{
  ℕ, ◌≡◌, Bool, true, false, not, ◌&&◌, ◌||◌, List, [], ◌∷◌, ◌++◌, Option, none, some,
  if◌then◌else◌,
}
use subspace_transceiver.Prelude.Text.{Text, codes, text_eq}
use subspace_transceiver.Schema.{MemoryChunk}
use subspace_transceiver.Store.{Loro, Store}
use subspace_transceiver.Store

-- `ENVELOPE_TYPE`
abbrev pub envelope_type : Text
envelope_type = codes "loro-delta"

-- A broadcast: what it starts from, the version that it brings a peer to, and the delta.
pub record Flight (loro : Loro) : Type 0 where
  pub since : Option (loro.Bytes)
  pub version : loro.Bytes
  pub delta : loro.Bytes

-- What the manager keeps for one namespace: the store, whether a debounced broadcast is scheduled, the
-- version of the last success, the broadcasts in flight, and those that succeeded.
pub record Channel (loro : Loro) : Type 0 where
  pub store : Store loro
  pub pending : Bool
  pub last_sync_version : Option (loro.Bytes)
  pub flying : List (Flight loro)
  pub sent : List (Flight loro)

pub record Envelope (loro : Loro) : Type 0 where
  pub kind : Text
  pub namespace : Text
  pub delta : loro.Bytes
  pub from_node_id : Text

pub record Manager (loro : Loro) : Type 0 where
  pub skill : Channel loro
  pub project : Channel loro
  pub stopped : Bool
  pub local_node_id : Text
  pub topic : Text

module _ (loro : Loro) where
  unfoldable pub new_channel : Store loro → Channel loro
  new_channel store = record {
    store = store;
    pending = false;
    last_sync_version = none;
    flying = [];
    sent = [];
  }

  unfoldable pub schedule_broadcast : Bool → Channel loro → Channel loro
  schedule_broadcast stopped ch = if stopped || ch.pending then ch else record ch { pending = true }

  -- What a broadcast of the present state sends.
  unfoldable pub envelope_of : Channel loro → Flight loro
  envelope_of ch = record {
    since = ch.last_sync_version;
    version = Store.get_version_snapshot loro ch.store;
    delta = Store.export_delta loro ch.last_sync_version ch.store;
  }

  -- `broadcastDelta` up to its `await`.
  unfoldable pub broadcast_delta : Bool → Channel loro → Channel loro
  unfolding envelope_of
  broadcast_delta stopped ch =
      if stopped then ch else record ch { flying = ch.flying ++ envelope_of ch ∷ [] }

  -- `broadcastDelta` after its `await`, for the broadcast that stands between two others: on success the
  -- version is kept, on failure nothing is.
  unfoldable pub finish_broadcast :
      List (Flight loro) → Flight loro → List (Flight loro) → Bool → Channel loro → Channel loro
  finish_broadcast earlier f later success ch =
      if success
      then record ch {
        flying = earlier ++ later;
        sent = ch.sent ++ f ∷ [];
        last_sync_version = some f.version;
      }
      else record ch { flying = earlier ++ later }

  -- The callback of the debounce timer.
  unfoldable pub run_timer : Bool → Channel loro → Channel loro
  unfolding broadcast_delta
  run_timer stopped ch = broadcast_delta stopped (record ch { pending = false })

  -- A local write, and the listener on 'changed'.
  unfoldable pub write_chunk : Bool → MemoryChunk → Channel loro → Channel loro
  unfolding schedule_broadcast
  write_chunk stopped c ch =
      schedule_broadcast stopped (record ch { store = Store.put loro c ch.store })

  unfoldable pub import_into : loro.Bytes → Channel loro → Channel loro
  import_into bytes ch = record ch { store = Store.import_delta loro bytes ch.store }

  -- `resetSyncVersion`, of one channel.
  unfoldable pub reset_channel : Channel loro → Channel loro
  reset_channel ch = record ch { last_sync_version = none }

  unfoldable pub reset_sync_version : Manager loro → Manager loro
  unfolding reset_channel
  reset_sync_version m = record m {
    skill = reset_channel m.skill;
    project = reset_channel m.project;
  }

  -- The periodic resync.
  unfoldable pub resync : Manager loro → Manager loro
  unfolding broadcast_delta
  resync m = record m {
    skill = broadcast_delta m.stopped m.skill;
    project = broadcast_delta m.stopped m.project;
  }

  -- `stop`, which clears the timers of both channels.
  unfoldable pub stop : Manager loro → Manager loro
  stop m = record m {
    stopped = true;
    skill = record m.skill { pending = false };
    project = record m.project { pending = false };
  }

  -- The guards of `handleIncomingMessage`, and the import.
  unfoldable pub accept_envelope : Envelope loro → Manager loro → Manager loro
  unfolding import_into
  accept_envelope e m =
      if not (text_eq e.kind envelope_type) || text_eq e.from_node_id m.local_node_id
      then m
      else if text_eq e.namespace (codes "skill")
      then record m { skill = import_into e.delta m.skill }
      else if text_eq e.namespace (codes "project")
      then record m { project = import_into e.delta m.project }
      else m

  -- The gossip listener of `start`.
  unfoldable pub handle_message : Text → Option (Envelope loro) → Manager loro → Manager loro
  unfolding accept_envelope
  handle_message topic none m = m
  handle_message topic (some e) m = if text_eq topic m.topic then accept_envelope e m else m
