-- ===== src/Replication/Chain.antt =====
-- What the successful broadcasts of a channel add up to.
use subspace_transceiver.Prelude.{◌≡◌, Bool, List, ◌∷◌, ◌++◌, Option, none, some, Elem}
use subspace_transceiver.Schema.{MemoryChunk}
use subspace_transceiver.Store.{Loro, Store}
use subspace_transceiver.Store
use subspace_transceiver.Replication.{
  Flight, Channel, new_channel, broadcast_delta, finish_broadcast, run_timer, write_chunk,
  import_into, reset_channel,
}

-- The events of one channel.
pub data Step (loro : Loro) : Channel loro → Channel loro → Type 0 where
  written :
      (stopped : Bool) (c : MemoryChunk) (ch : Channel loro)
      → Step loro ch (write_chunk loro stopped c ch)
  imported : (bytes : loro.Bytes) (ch : Channel loro) → Step loro ch (import_into loro bytes ch)
  timed : (stopped : Bool) (ch : Channel loro) → Step loro ch (run_timer loro stopped ch)
  resynced : (stopped : Bool) (ch : Channel loro) → Step loro ch (broadcast_delta loro stopped ch)
  finished :
      (earlier : List (Flight loro)) (f : Flight loro) (later : List (Flight loro)) (success : Bool)
      (ch : Channel loro)
      → ch.flying ≡ earlier ++ f ∷ later
      → Step loro ch (finish_broadcast loro earlier f later success ch)
  joined : (ch : Channel loro) → Step loro ch (reset_channel loro ch)

-- The channels that events lead to from a new one.
pub data Reach (loro : Loro) : Channel loro → Type 0 where
  start : (store : Store loro) → Reach loro (new_channel loro store)
  next : {ch ch' : Channel loro} → Reach loro ch → Step loro ch ch' → Reach loro ch'

-- The message of the broadcast is what a store exports: its version is the whole of the store's document,
-- and its delta is that document, or, after a start that imports, what the document has beyond it.
pub record IsTaken (loro : Loro) (f : Flight loro) (store : Store loro) : Type 0 where
  pub version_same : f.version ≡ loro.snapshot store.doc
  pub delta_whole : f.since ≡ none → f.delta ≡ loro.snapshot store.doc
  pub delta_onward :
      (v : loro.Bytes) (remote : loro.Doc)
      → f.since ≡ some v
      → loro.import_bytes v loro.empty ≡ some remote
      → f.delta ≡ loro.update_from remote store.doc
  pub delta_unread :
      (v : loro.Bytes)
      → f.since ≡ some v
      → loro.import_bytes v loro.empty ≡ none
      → f.delta ≡ loro.snapshot store.doc

-- The successful broadcasts lead from nothing to the version, each from where another ended, and each with
-- the message that a store exported.
pub data Covered (loro : Loro) (sent : List (Flight loro)) : loro.Bytes → Type 0 where
  whole :
      (f : Flight loro) (store : Store loro)
      → Elem f sent
      → f.since ≡ none
      → IsTaken loro f store
      → Covered loro sent f.version
  onward :
      (f : Flight loro) (store : Store loro) (v : loro.Bytes)
      → Elem f sent
      → f.since ≡ some v
      → IsTaken loro f store
      → Covered loro sent v
      → Covered loro sent f.version

module _ {loro : Loro} where
  -- A store exported the message.
  Taken : Flight loro → Type 0
  Taken f = (store : Store loro) × IsTaken loro f store

  -- A start, if there is one, is covered.
  Founded : List (Flight loro) → Option (loro.Bytes) → Type 0
  Founded sent o = (v : loro.Bytes) → o ≡ some v → Covered loro sent v

  record Inv (ch : Channel loro) : Type 0 where
    synced : Founded ch.sent ch.last_sync_version
    based : (f : Flight loro) → Elem f ch.flying → Founded ch.sent f.since
    taken : (f : Flight loro) → Elem f ch.flying → Taken f
