-- ===== src/Store.antt =====
-- packages/core/src/loro-store.ts: LoroMemoryStore, the chunks in one CRDT document. The document is
-- loro-crdt's, and a parameter; a serialized chunk is what `JSON.parse` makes of it. `Date.now()` is
-- the argument `now`, writes to the file succeed, and emitted events are kept in order.
pub mod Reads
pub mod Saving
pub mod Gc
pub mod Entries
mod Tests
use subspace_transceiver.Prelude.{
  ℕ, ◌≡◌, Bool, true, false, not, ◌&&◌, ◌||◌, List, [], ◌∷◌, ◌++◌, Option, none, some, filter, ltb,
  if◌then◌else◌,
}
use subspace_transceiver.Prelude.Dict
use subspace_transceiver.Prelude.Text.{Text, codes, text_eq}
use subspace_transceiver.Schema.{MemoryChunk, MemoryQuery, MemoryType, MemoryNamespace}
use subspace_transceiver.Query.{apply_query}

-- The string under a key of the map: a serialized chunk, or one that does not parse.
pub data Raw : Type 0 where
  json : MemoryChunk → Raw
  malformed : Raw

-- What the store uses of a LoroDoc, its root map "chunks" opened; `import_bytes` is `none` where
-- `import` throws, which leaves the document as it was.
pub record Loro : Type 1 where
  pub Doc : Type 0
  pub Bytes : Type 0
  pub empty : Doc
  pub get : Text → Doc → Option Raw
  pub set : Text → Raw → Doc → Doc
  pub entries : Doc → List (Text × Raw)
  pub snapshot : Doc → Bytes
  pub update_from : Doc → Doc → Bytes
  pub import_bytes : Bytes → Doc → Option Doc
  pub byte_count : Bytes → ℕ

-- A document's map is a map, and a snapshot holds all of it.
pub record IsLoro (loro : Loro) : Type 0 where
  pub get_empty : (k : Text) → loro.get k loro.empty ≡ none
  pub get_set :
      (k j : Text) (raw : Raw) (doc : loro.Doc)
      → loro.get j (loro.set k raw doc) ≡ (if text_eq k j then some raw else loro.get j doc)
  pub entries_get : (k : Text) (doc : loro.Doc) → Dict.get k (loro.entries doc) ≡ loro.get k doc
  pub entries_distinct : (doc : loro.Doc) → Dict.Distinct (loro.entries doc)
  pub snapshot_filled : (doc : loro.Doc) → ltb 0 (loro.byte_count (loro.snapshot doc)) ≡ true
  pub import_snapshot :
      (doc : loro.Doc)
      → (copy : loro.Doc) × (loro.import_bytes (loro.snapshot doc) loro.empty ≡ some copy)
        × ((k : Text) → loro.get k copy ≡ loro.get k doc)

pub data Event : Type 0 where
  changed replicated import_failed : Event

-- The answer of a read: what is there, or the StoreError of a string that does not parse.
pub data Read : Type 0 where
  read_failed : Read
  found : Option MemoryChunk → Read

-- The tombstone that `forget` writes.
unfoldable pub tombstone_of : Text → ℕ → MemoryChunk
tombstone_of id now = record {
  id = id;
  kind = MemoryType.project;
  namespace = MemoryNamespace.project;
  topic = codes "_tombstone" ∷ [];
  content = [];
  source = record {
    agent_id = codes "_system";
    peer_id = codes "_system";
    project = none;
    session_id = none;
    timestamp = now;
  };
  ttl = none;
  confidence = 0;
  network = [];
  version = 0;
  supersedes = none;
  collection = none;
  slug = none;
  content_envelope = none;
  links = none;
  signature = none;
  pow = none;
  origin = none;
  tombstone = true;
}

-- The loop of `_getAllChunks`.
unfoldable pub parsed : List (Text × Raw) → List MemoryChunk
parsed [] = []
parsed ((k, json c) ∷ entries) = c ∷ parsed entries
parsed ((k, malformed) ∷ entries) = parsed entries

abbrev pub live : List MemoryChunk → List MemoryChunk
live = filter (λ c. not c.tombstone)

-- A read of the string under an id.
abbrev pub read_raw : Option Raw → Read
read_raw none = found none
read_raw (some malformed) = read_failed
read_raw (some (json c)) = if c.tombstone then found none else found (some c)

-- `file` is the content of the file at `snapshotPath`, where there is one.
pub record Store (loro : Loro) : Type 0 where
  pub doc : loro.Doc
  pub persistent : Bool
  pub save_pending : Bool
  pub file : Option (loro.Bytes)
  pub events : List Event

module _ (loro : Loro) where
  unfoldable pub create_in_memory : Store loro
  create_in_memory = record {
    doc = loro.empty;
    persistent = false;
    save_pending = false;
    file = none;
    events = [];
  }

  -- The document of a snapshot; a missing, empty or corrupt one gives a fresh document.
  unfoldable pub loaded_doc : Option (loro.Bytes) → loro.Doc
  loaded_doc none = loro.empty
  loaded_doc (some bytes) =
      if ltb 0 (loro.byte_count bytes)
      then elim (loro.import_bytes bytes loro.empty) [ none ↦ loro.empty | some doc ↦ doc ]
      else loro.empty

  unfoldable pub create_persistent : Option (loro.Bytes) → Store loro
  unfolding loaded_doc
  create_persistent file = record {
    doc = loaded_doc file;
    persistent = true;
    save_pending = false;
    file = file;
    events = [];
  }

  unfoldable pub schedule_save : Store loro → Store loro
  schedule_save s =
      if s.save_pending || not s.persistent then s else record s { save_pending = true }

  -- `_saveSnapshot`
  unfoldable pub save_snapshot : Store loro → Store loro
  save_snapshot s = if s.persistent then record s { file = some (loro.snapshot s.doc) } else s

  -- The callback that `scheduleSave` leaves to `setImmediate`.
  unfoldable pub run_save : Store loro → Store loro
  unfolding save_snapshot
  run_save s = save_snapshot (record s { save_pending = false })

  abbrev pub emit : Event → Store loro → Store loro
  emit event s = record s { events = s.events ++ event ∷ [] }

  unfoldable pub put : MemoryChunk → Store loro → Store loro
  unfolding schedule_save
  put chunk s =
      emit changed (schedule_save (record s { doc = loro.set chunk.id (json chunk) s.doc }))

  unfoldable pub get : Text → Store loro → Read
  get id s = read_raw (loro.get id s.doc)

  unfoldable pub get_all_chunks : Store loro → List MemoryChunk
  get_all_chunks s = parsed (loro.entries s.doc)

  unfoldable pub query : ℕ → MemoryQuery → Store loro → List MemoryChunk
  unfolding get_all_chunks
  query now q s = apply_query now (live (get_all_chunks s)) q

  unfoldable pub list : Store loro → List MemoryChunk
  unfolding get_all_chunks
  list s = live (get_all_chunks s)

  unfoldable pub forget : ℕ → Text → Store loro → Store loro
  unfolding schedule_save tombstone_of
  forget now id s =
      emit changed
        (schedule_save (record s { doc = loro.set id (json (tombstone_of id now)) s.doc }))

  -- `close`; the document is not used after it.
  unfoldable pub close : Store loro → Store loro
  unfolding save_snapshot
  close s =
      if s.save_pending && s.persistent
      then save_snapshot (record s { save_pending = false })
      else s

  unfoldable pub get_version_snapshot : Store loro → loro.Bytes
  get_version_snapshot s = loro.snapshot s.doc

  -- With a version that does not import, the whole snapshot is exported.
  unfoldable pub export_delta : Option (loro.Bytes) → Store loro → loro.Bytes
  export_delta none s = loro.snapshot s.doc
  export_delta (some since) s = elim (loro.import_bytes since loro.empty) [
    | none ↦ loro.snapshot s.doc
    | some remote ↦ loro.update_from remote s.doc
  ]

  unfoldable pub import_delta : loro.Bytes → Store loro → Store loro
  unfolding schedule_save
  import_delta bytes s = elim (loro.import_bytes bytes s.doc) [
    | none ↦ emit import_failed s
    | some doc ↦ emit replicated (schedule_save (record s { doc = doc }))
  ]
