-- ===== src/Writes/Changes.antt =====
-- packages/daemon/src/api.ts: PATCH and DELETE /memory/:id.
use subspace_transceiver.Prelude.{
  ℕ, suc, Bool, true, false, [], ◌∷◌, Option, none, some, or_else, if◌then◌else◌,
}
use subspace_transceiver.Prelude.Dict
use subspace_transceiver.Prelude.Text.{Text}
use subspace_transceiver.Schema.{MemoryChunk, MemoryNamespace, Origin}
use subspace_transceiver.Schema.Valid.{validate_chunk}
use subspace_transceiver.Backlinks.{index_chunk, remove_chunk}
use subspace_transceiver.Writes.{
  MemoryStore, RouteError, Reply, PatchBody, World, WriteSession, Sessions, store_in, with_store,
}

module _ (store : MemoryStore) where
  -- The stores of a session in the order in which the routes look, the first one that has the id.
  unfoldable pub find_in : Text → WriteSession store → Option (MemoryNamespace × MemoryChunk)
  find_in id s = elim (store.get id s.skill) [
    | some c ↦ some (MemoryNamespace.skill, c)
    | none ↦ elim (store.get id s.project) [
      | some c ↦ some (MemoryNamespace.project, c)
      | none ↦ none
    ]
  ]

  unfoldable pub find_existing :
      Text → Sessions store → Option (Text × MemoryNamespace × MemoryChunk)
  find_existing id [] = none
  find_existing id ((network, s) ∷ sessions) = elim (find_in id s) [
    | some p ↦ let (namespace, c) = p in some (network, namespace, c)
    | none ↦ find_existing id sessions
  ]

  -- The chunk that PATCH makes of the one that is there.
  unfoldable pub patched : World → Text → PatchBody → MemoryChunk → MemoryChunk
  patched world id body existing = record existing {
    id = world.new_id;
    version = suc existing.version;
    supersedes = some id;
    content = or_else body.content existing.content;
    confidence = or_else body.confidence existing.confidence;
    links = elim body.links [ none ↦ existing.links | some links ↦ some links ];
    source = record existing.source { timestamp = world.now };
    origin = some Origin.local;
  }

  -- `session.backlinkIndex.indexChunk(signed)` of every session.
  unfoldable pub index_everywhere : MemoryChunk → Sessions store → Sessions store
  index_everywhere c [] = []
  index_everywhere c ((network, s) ∷ sessions) =
      (network, record s { backlinks = index_chunk c s.backlinks }) ∷ index_everywhere c sessions

  -- The store of the first session that has the id, with the new state in it.
  unfoldable pub put_found :
      Text → MemoryNamespace → MemoryChunk → Sessions store → Option (Sessions store)
  put_found network namespace c sessions = elim (Dict.get network sessions) [
    | none ↦ none
    | some s ↦ elim (store.put c (store_in store namespace s)) [
      | none ↦ none
      | some t ↦ some (Dict.set network (with_store store namespace t s) sessions)
    ]
  ]

  -- One store of DELETE /memory/:id; the chunk that it had is to be taken out of the index.
  unfoldable pub delete_in :
      ℕ → Text → MemoryNamespace → WriteSession store × Bool → WriteSession store × Bool
  delete_in now id namespace (s, found) = elim (store.get id (store_in store namespace s)) [
    | none ↦ (s, found)
    | some c ↦ (
      record (with_store store namespace (store.forget now id (store_in store namespace s)) s) {
        backlinks = remove_chunk c s.backlinks;
      },
      true,
    )
  ]

  unfoldable pub delete_in_sessions : ℕ → Text → Sessions store → Sessions store × Bool
  delete_in_sessions now id [] = ([], false)
  delete_in_sessions now id ((network, s) ∷ sessions) =
      let (s', here) =
        delete_in now id MemoryNamespace.project
          (delete_in now id MemoryNamespace.skill (s, false)) in
      let (rest, there) = delete_in_sessions now id sessions in
      ((network, s') ∷ rest, if here then true else there)

  -- `DELETE /memory/:id`
  unfoldable pub delete_memory : ℕ → Text → Sessions store → Sessions store × Reply
  delete_memory now id sessions =
      let (sessions', found) = delete_in_sessions now id sessions in
      (sessions', if found then Reply.no_content else Reply.failed 404 RouteError.chunk_not_found)

  module _ (is_uuid : Text → Bool) where
    -- What is left of PATCH once the chunk is found; without a signature the route fails.
    unfoldable pub patch_found :
        World → Text → MemoryNamespace → MemoryChunk → Sessions store → Sessions store × Reply
    patch_found world network namespace updated sessions = elim (validate_chunk is_uuid updated) [
      | none ↦ (sessions, Reply.failed 500 RouteError.invalid_chunk)
      | some c ↦ elim (world.sign updated) [
        | none ↦ (sessions, Reply.failed 500 RouteError.store_write_failed)
        | some s ↦
            let signed = record updated { signature = some s } in
            elim (put_found network namespace signed sessions) [
              | none ↦ (sessions, Reply.failed 500 RouteError.store_write_failed)
              | some sessions' ↦ (index_everywhere signed sessions', Reply.sent 200 signed)
            ]
      ]
    ]

    -- `PATCH /memory/:id`
    unfoldable pub patch_memory : World → Text → PatchBody → Sessions store → Sessions store × Reply
    patch_memory world id body sessions = elim (find_existing id sessions) [
      | none ↦ (sessions, Reply.failed 404 RouteError.chunk_not_found)
      | some p ↦
          let (network, namespace, existing) = p in
          patch_found world network namespace (patched world id body existing) sessions
    ]
