-- ===== src/Epochs.antt =====
-- packages/core/src/loro-epoch-manager.ts: LoroEpochManager, one chunk store for each epoch. What
-- computes the id of an epoch and its start is the interface `Calendar`. A rotation runs as one step;
-- the files of the epochs that are not open are in `disk`, that of an open one in its store.
pub mod Ids
pub mod Retention
mod Copying
pub mod Lookup
pub mod Rotation
pub mod Scheduler
pub mod Collected
mod Tests
use subspace_transceiver.Prelude.{
  ℕ, zero, suc, ◌+◌, ◌-◌, ◌*◌, ◌≤◌, ◌<◌, ◌≡◌, Bool, true, false, not, ◌&&◌, ◌||◌, List, [], ◌∷◌,
  ◌++◌, Option, none, some, filter, ltb, leb, if◌then◌else◌,
}
use subspace_transceiver.Prelude.Dict
use subspace_transceiver.Prelude.Sets.{includes}
use subspace_transceiver.Prelude.Sort.{sort_by}
use subspace_transceiver.Prelude
use subspace_transceiver.Prelude.Text.{Text, text_eq}
use subspace_transceiver.Schema.{MemoryChunk, MemoryQuery}
use subspace_transceiver.Query.{is_expired, resolve_heads}
use subspace_transceiver.Store.{
  Loro, Store, Read, read_failed, found, Event, changed, replicated, create_persistent,
}
use subspace_transceiver.Store

-- `computeEpochId(nowMs, duration)` and `epochStartMs(epochId, duration)` for one duration.
pub record Calendar : Type 0 where
  pub duration : ℕ
  pub id_at : ℕ → Text
  pub start_of : Text → ℕ

pub record Manager (loro : Loro) : Type 0 where
  pub retain : ℕ
  pub epochs : List (Text × Store loro)
  pub current : Text
  pub migrating : Bool
  pub disk : List (Text × loro.Bytes)
  pub events : List Event

-- `.catch(() => null)`
abbrev pub read_or_null : Read → Option MemoryChunk
read_or_null read_failed = none
read_or_null (found o) = o

module _ (loro : Loro) (calendar : Calendar) where
  -- The content of an epoch's file.
  unfoldable pub file_of : Text → Manager loro → Option (loro.Bytes)
  file_of id m = elim (Dict.get id m.epochs) [ none ↦ Dict.get id m.disk | some s ↦ s.file ]

  -- `_openEpochStore`
  unfoldable pub open_epoch_store : Text → Manager loro → Store loro
  unfolding file_of
  open_epoch_store id m = create_persistent loro (file_of id m)

  -- The loop of `create` that names the epochs to open. Times before 1970 are left aside.
  unfoldable pub past_ids : ℕ → ℕ → ℕ → List Text → List Text
  past_ids now zero i ids = ids
  past_ids now (suc more) i ids =
      let id = calendar.id_at (now - i * calendar.duration) in
      past_ids now more (suc i) (if includes ids id then ids else ids ++ id ∷ [])

  unfoldable pub open_all : List Text → Manager loro → Manager loro
  unfolding open_epoch_store
  open_all [] m = m
  open_all (id ∷ ids) m =
      open_all ids (record m { epochs = Dict.set id (open_epoch_store id m) m.epochs })

  unfoldable pub create : ℕ → ℕ → List (Text × loro.Bytes) → Manager loro
  unfolding open_all past_ids
  create now retain disk =
      let current = calendar.id_at now in
      open_all (past_ids now retain 1 (current ∷ [])) (record {
        retain = retain;
        epochs = [];
        current = current;
        migrating = false;
        disk = disk;
        events = [];
      })

  -- `_orderedEpochIds`
  unfoldable pub ordered_epoch_ids : Manager loro → List Text
  ordered_epoch_ids m =
      sort_by (λ a b. leb (calendar.start_of b) (calendar.start_of a)) (Dict.keys m.epochs)

  -- `currentStore`, `none` where it throws.
  unfoldable pub current_store : Manager loro → Option (Store loro)
  current_store m = Dict.get m.current m.epochs

  abbrev pub emit_changed : Manager loro → Manager loro
  emit_changed m = record m { events = m.events ++ changed ∷ [] }

  unfoldable pub put : MemoryChunk → Manager loro → Option (Manager loro)
  unfolding current_store
  put chunk m = elim (current_store m) [
    | none ↦ none
    | some s ↦
        some (
          emit_changed (record m { epochs = Dict.set m.current (Store.put loro chunk s) m.epochs }))
  ]

  -- What one epoch has under the id.
  unfoldable pub read_epoch : Text → Text → List (Text × Store loro) → Option MemoryChunk
  read_epoch id epoch epochs = elim (Dict.get epoch epochs) [
    | none ↦ none
    | some s ↦ read_or_null (Store.get loro id s)
  ]

  -- The loop of `get`.
  unfoldable pub first_found : Text → List Text → List (Text × Store loro) → Option MemoryChunk
  unfolding read_epoch
  first_found id [] epochs = none
  first_found id (e ∷ es) epochs = elim (read_epoch id e epochs) [
    | none ↦ first_found id es epochs
    | some c ↦ some c
  ]

  unfoldable pub get : Text → Manager loro → Option MemoryChunk
  unfolding first_found ordered_epoch_ids
  get id m = first_found id (ordered_epoch_ids m) m.epochs

  -- The loop of `query` and of `list`, before the heads are resolved.
  unfoldable pub gather :
      (Store loro → List MemoryChunk) → List Text → List (Text × Store loro) → List MemoryChunk
  gather read [] epochs = []
  gather read (e ∷ es) epochs =
      elim (Dict.get e epochs) [ none ↦ [] | some s ↦ read s ] ++ gather read es epochs

  unfoldable pub query : ℕ → MemoryQuery → Manager loro → List MemoryChunk
  unfolding gather ordered_epoch_ids
  query now q m = resolve_heads (gather (Store.query loro now q) (ordered_epoch_ids m) m.epochs)

  unfoldable pub list : Manager loro → List MemoryChunk
  unfolding gather ordered_epoch_ids
  list m = resolve_heads (gather (Store.list loro) (ordered_epoch_ids m) m.epochs)

  -- The epoch in which `forget` finds the id.
  unfoldable pub find_epoch : Text → List Text → List (Text × Store loro) → Option Text
  unfolding read_epoch
  find_epoch id [] epochs = none
  find_epoch id (e ∷ es) epochs = elim (read_epoch id e epochs) [
    | none ↦ find_epoch id es epochs
    | some c ↦ some e
  ]

  abbrev pub or_current : Option Text → Text → Text
  or_current none current = current
  or_current (some e) current = e

  unfoldable pub forget : ℕ → Text → Manager loro → Option (Manager loro)
  unfolding find_epoch ordered_epoch_ids
  forget now id m =
      let epoch = or_current (find_epoch id (ordered_epoch_ids m) m.epochs) m.current in
      elim (Dict.get epoch m.epochs) [
        | none ↦ none
        | some s ↦ some (
            emit_changed
              (record m { epochs = Dict.set epoch (Store.forget loro now id s) m.epochs }))
      ]

  -- `epochStart < nowMs - (retainEpochs + 1) * epochDurationMs`, nothing cut off at 0.
  abbrev pub is_past : ℕ → ℕ → Text → Bool
  is_past now retain epoch = ltb (calendar.start_of epoch + (retain + 1) * calendar.duration) now

  -- The loop of `_migrateChunks`, with the counts of the migrated and the abandoned; `put` succeeds.
  unfoldable pub migrate : ℕ → List MemoryChunk → Store loro → Store loro × ℕ × ℕ
  migrate now [] to = (to, 0, 0)
  migrate now (c ∷ cs) to =
      if is_expired now c
      then (let (to', migrated, abandoned) = migrate now cs to in (to', migrated, suc abandoned))
      else (let (to', migrated, abandoned) = migrate now cs (Store.put loro c to) in
          (to', suc migrated, abandoned))

  unfoldable pub migrate_chunks :
      ℕ → Text → List (Text × Store loro) → Store loro → Store loro × ℕ × ℕ
  unfolding migrate
  migrate_chunks now from epochs to = elim (Dict.get from epochs) [
    | none ↦ (to, 0, 0)
    | some s ↦ migrate now (Store.list loro s) to
  ]

  -- The loop of `rotateEpoch` over the ids of the epochs.
  unfoldable pub migrate_past :
      ℕ → ℕ → Text → List Text → List (Text × Store loro) → Store loro → Store loro
  unfolding migrate_chunks
  migrate_past now retain new_id [] epochs to = to
  migrate_past now retain new_id (e ∷ es) epochs to = migrate_past now retain new_id es epochs (
      if not (text_eq e new_id) && is_past now retain e
      then (migrate_chunks now e epochs to).0
      else to)

  unfoldable pub rotate_epoch : Text → ℕ → Manager loro → Manager loro
  unfolding migrate_past open_epoch_store
  rotate_epoch new_id now m =
      let epochs = Dict.set new_id (open_epoch_store new_id m) m.epochs in
      let to =
        migrate_past now m.retain new_id (Dict.keys epochs) epochs (open_epoch_store new_id m) in
      record m { epochs = Dict.set new_id to epochs; current = new_id; migrating = false }

  -- The manager, and whether it rotated.
  unfoldable pub maybe_rotate_epoch : ℕ → Manager loro → Manager loro × Bool
  unfolding rotate_epoch
  maybe_rotate_epoch now m =
      if text_eq (calendar.id_at now) m.current || m.migrating
      then (m, false)
      else (rotate_epoch (calendar.id_at now) now m, true)

  -- The loop of `dropExpiredEpochs`; the files go with the epochs.
  unfoldable pub drop_past : ℕ → List Text → Manager loro → Manager loro × List Text
  drop_past now [] m = (m, [])
  drop_past now (e ∷ es) m =
      if text_eq e m.current || not (is_past now m.retain e)
      then drop_past now es m
      else (let (m', dropped) =
            drop_past now es
              (record m { epochs = Dict.delete e m.epochs; disk = Dict.delete e m.disk }) in
          (m', e ∷ dropped))

  unfoldable pub drop_expired_epochs : ℕ → Manager loro → Manager loro × List Text
  unfolding drop_past
  drop_expired_epochs now m = drop_past now (Dict.keys m.epochs) m

  -- packages/daemon/src/gc-scheduler.ts: what its second loop does to one epoch manager.
  unfoldable pub run_round : ℕ → Manager loro → Manager loro
  run_round now m =
      let (m', rotated) = maybe_rotate_epoch now m in
      if rotated then (drop_expired_epochs now m').0 else m'

  -- `close` of every store; the files stay.
  unfoldable pub close_stores :
      List (Text × Store loro) → List (Text × loro.Bytes) → List (Text × loro.Bytes)
  close_stores [] disk = disk
  close_stores ((e, s) ∷ epochs) disk =
      close_stores epochs
        (elim (Store.close loro s).file [ none ↦ disk | some bytes ↦ Dict.set e bytes disk ])

  unfoldable pub close : Manager loro → Manager loro
  unfolding close_stores
  close m = record m { epochs = []; disk = close_stores m.epochs m.disk }

  -- `importDelta` into the current epoch, which passes its event on; `none` where it throws.
  unfoldable pub import_delta : loro.Bytes → Manager loro → Option (Manager loro)
  unfolding current_store
  import_delta bytes m = elim (current_store m) [
    | none ↦ none
    | some s ↦
        let s' = Store.import_delta loro bytes s in
        some (record m {
          epochs = Dict.set m.current s' m.epochs;
          events =
              m.events
              ++ elim (loro.import_bytes bytes s.doc) [ none ↦ [] | some doc ↦ replicated ∷ [] ];
        })
  ]

  unfoldable pub export_delta : Option (loro.Bytes) → Manager loro → Option (loro.Bytes)
  unfolding current_store
  export_delta since m = elim (current_store m) [
    | none ↦ none
    | some s ↦ some (Store.export_delta loro since s)
  ]

  pub record EpochInfo : Type 0 where
    pub id : Text
    pub starts_at : ℕ
    pub ends_at : ℕ
    pub is_current : Bool
    pub chunk_count : ℕ

  -- The loop of `getEpochInfo`.
  unfoldable pub describe : List Text → Manager loro → List EpochInfo
  describe [] m = []
  describe (e ∷ es) m =
      elim (Dict.get e m.epochs) [
        | none ↦ []
        | some s ↦
            record {
              id = e;
              starts_at = calendar.start_of e;
              ends_at = calendar.start_of e + calendar.duration;
              is_current = text_eq e m.current;
              chunk_count = Prelude.length (Store.list loro s);
            }
            ∷ []
      ]
      ++ describe es m

  unfoldable pub get_epoch_info : Manager loro → List EpochInfo
  unfolding describe ordered_epoch_ids
  get_epoch_info m = describe (ordered_epoch_ids m) m
