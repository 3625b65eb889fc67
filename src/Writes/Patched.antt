-- ===== src/Writes/Patched.antt =====
-- packages/daemon/src/api.ts: what PATCH /memory/:id makes of a chunk.
use subspace_transceiver.Prelude.{
  none-some, suc, ◌≡◌, refl, sym, ap, ◌∙◌, Bool, false, List, [], ◌∷◌, Option, some, some_inj,
  Option-cases, Bool-cases, Elem, inl, inr,
}
use subspace_transceiver.Prelude.Dict.{get-set_self}
use subspace_transceiver.Prelude.Dict
use subspace_transceiver.Prelude.Text.{Text, text_eq}
use subspace_transceiver.Schema.{MemoryChunk, MemoryNamespace}
use subspace_transceiver.Schema.Valid.{validate_chunk}
use subspace_transceiver.Query.{resolve_heads}
use subspace_transceiver.Query.Heads.{resolve_heads_sound}
use subspace_transceiver.Backlinks.{Index, index_chunk}
use subspace_transceiver.Writes.Stores.{IsMemoryStore}
use subspace_transceiver.Writes.{
  MemoryStore, Reply, PatchBody, World, WriteSession, Sessions, store_in, with_store,
}
use subspace_transceiver.Writes.Changes.{
  find_in, find_existing, patched, index_everywhere, put_found, patch_found, patch_memory,
}

module _ {store : MemoryStore} (laws : IsMemoryStore store) where
  abbrev reindexed : MemoryChunk → WriteSession store → Option (WriteSession store)
  reindexed c s = some (record s { backlinks = index_chunk c s.backlinks })

  get-index_everywhere :
      (c : MemoryChunk) (network : Text) (s : WriteSession store) (sessions : Sessions store)
      → Dict.get network sessions ≡ some s
      → Dict.get network (index_everywhere store c sessions)
        ≡ some (record s { backlinks = index_chunk c s.backlinks })
  unfolding index_everywhere Dict.get
  get-index_everywhere c network s [] h = absurd (none-some h)
  get-index_everywhere c network s ((n, t) ∷ sessions) h = elim (Bool-cases (text_eq n network)) [
    | inl e ↦ rw e (ap (reindexed c) (some_inj (rw e at h)))
    | inr e ↦ rw e (get-index_everywhere c network s sessions (rw e at h))
  ]

  -- The chunk stands in a store of a session of the network.
  pub StoredIn : Text → MemoryNamespace → MemoryChunk → Sessions store → Type 0
  StoredIn network namespace c after =
      (s : WriteSession store) × (Dict.get network after ≡ some s)
      × (store.get c.id (store_in store namespace s) ≡ some c)

  find_in-alive :
      (id : Text) (s : WriteSession store) (n : MemoryNamespace) (c : MemoryChunk)
      → find_in store id s ≡ some (n, c)
      → c.tombstone ≡ false
  unfolding find_in
  find_in-alive id s n c h = elim (Option-cases (store.get id s.skill)) [
    | inr (b, e) ↦
        ap (λ p. p.1.tombstone) (sym (some_inj (rw (e, find_in) at h)))
        ∙ laws.get_alive id b s.skill e
    | inl e ↦ elim (Option-cases (store.get id s.project)) [
      | inl f ↦ absurd (none-some (rw (e, f, find_in) at h))
      | inr (b, f) ↦
          ap (λ p. p.1.tombstone) (sym (some_inj (rw (e, f, find_in) at h)))
          ∙ laws.get_alive id b s.project f
    ]
  ]

  find_existing-alive :
      (id : Text) (sessions : Sessions store) (network : Text) (n : MemoryNamespace)
      (c : MemoryChunk)
      → find_existing store id sessions ≡ some (network, n, c)
      → c.tombstone ≡ false
  unfolding find_existing
  find_existing-alive id [] network n c h = absurd (none-some h)
  find_existing-alive id ((m, s) ∷ sessions) network n c h =
      elim (Option-cases (find_in store id s)) [
        | inl e ↦ find_existing-alive id sessions network n c (rw (e, find_existing) at h)
        | inr (p, e) ↦
            let same = some_inj (rw (e, find_existing) at h) in
            ap (λ q. q.2.tombstone) (sym same) ∙ find_in-alive id s p.0 p.1 e
      ]

  store_in-with_store :
      (n : MemoryNamespace) (t : store.State) (i : Index) (s : WriteSession store)
      → store_in store n (record (with_store store n t s) { backlinks = i }) ≡ t
  unfolding store_in with_store
  store_in-with_store MemoryNamespace.skill t i s = refl
  store_in-with_store MemoryNamespace.project t i s = refl

  put_found-StoredIn :
      (network : Text) (n : MemoryNamespace) (c : MemoryChunk) (before after : Sessions store)
      → c.tombstone ≡ false
      → ((s : WriteSession store)
          → Dict.get network before ≡ some s
          → laws.IsReady (store_in store n s))
      → put_found store network n c before ≡ some after
      → StoredIn network n c (index_everywhere store c after)
  unfolding put_found StoredIn
  put_found-StoredIn network n c before after alive ready h =
      elim (Option-cases (Dict.get network before)) [
        | inl e ↦ absurd (none-some (rw (e, put_found) at h))
        | inr (s, e) ↦ elim (Option-cases (store.put c (store_in store n s))) [
          | inl f ↦ absurd (none-some (rw (e, f, put_found) at h))
          | inr (t, f) ↦
              let same = some_inj (rw (e, f, put_found) at h) in
              let at =
                ap (Dict.get network) (sym same)
                ∙ get-set_self network (with_store store n t s) before in
              (
                _,
                get-index_everywhere c network (with_store store n t s) after at,
                ap (store.get c.id) (store_in-with_store n t _ s)
                    ∙ laws.get_put c (store_in store n s) t (ready s e) f alive,
              )
        ]
      ]

  -- What the reply to PATCH /memory/:id says. A chunk that is sent back supersedes the one that was found
  -- under the id, is the next version of it, stands in the store that had it, and hides every chunk with
  -- that id from the heads of each list that has it; after any other reply no session is changed.
  pub IsPatched : Text → Sessions store → Sessions store → Reply → Type 0
  IsPatched id before after (Reply.sent status c) =
      (network : Text) × (n : MemoryNamespace) × (old : MemoryChunk) × (find_existing store id
          before
        ≡ some (network, n, old))
      × (c.supersedes ≡ some id)
      × (c.version ≡ suc old.version)
      × StoredIn network n c after
      × ((chunks : List MemoryChunk) (b : MemoryChunk)
          → Elem c chunks
          → Elem b (resolve_heads chunks)
          → b.id ≡ id
          → id ≡ [])
  IsPatched id before after Reply.no_content = ⊥
  IsPatched id before after (Reply.failed status e) = after ≡ before

  module _ (is_uuid : Text → Bool) where
    -- The reply of PATCH /memory/:id says what has happened, where each store of a session is ready (the
    -- current epoch of a manager is the first that a read looks at): a chunk that is sent back supersedes the one
    -- that was found under the id, is the next version of it, stands in the store that had it, and hides
    -- every chunk with that id from the heads of each list that has it, if the id is not empty; after any
    -- other reply no session is changed.
    pub patch_memory-IsPatched :
        (world : World) (id : Text) (body : PatchBody) (sessions : Sessions store)
        → ((network : Text) (s : WriteSession store) (n : MemoryNamespace)
            → Dict.get network sessions ≡ some s
            → laws.IsReady (store_in store n s))
        → let r = patch_memory store is_uuid world id body sessions in IsPatched id sessions r.0 r.1
    unfolding patch_memory patch_found IsPatched patched
    patch_memory-IsPatched world id body sessions ready =
        elim (Option-cases (find_existing store id sessions)) [
          | inl e ↦ rw (e, patch_memory) refl
          | inr ((network, n, old), e) ↦
              let updated = patched store world id body old in
              let alive = find_existing-alive id sessions network n old e in
              elim (Option-cases (validate_chunk is_uuid updated)) [
                | inl f ↦ rw (e, f, patch_memory, patch_found) refl
                | inr (v, f) ↦ elim (Option-cases (world.sign updated)) [
                  | inl g ↦ rw (e, f, g, patch_memory, patch_found) refl
                  | inr (signature, g) ↦
                      let signed = record updated { signature = some signature } in
                      elim (Option-cases (put_found store network n signed sessions)) [
                        | inl k ↦ rw (e, f, g, k, patch_memory, patch_found) refl
                        | inr (after, k) ↦
                            rw (e, f, g, k, patch_memory, patch_found)
                              (
                                network,
                                n,
                                old,
                                e,
                                refl,
                                refl,
                                put_found-StoredIn network n signed sessions after alive
                                    (λ s at. ready network s n at) k,
                                λ chunks b at head is_old.
                                    sym is_old
                                    ∙ (resolve_heads_sound chunks b head).0.latest signed at
                                        (ap some (sym is_old)),
                              )
                      ]
                ]
              ]
        ]
