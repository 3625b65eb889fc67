-- ===== src/Writes/Posted.antt =====
-- packages/daemon/src/api.ts: what POST /memory stores, and when it stores nothing.
use subspace_transceiver.Prelude.{
  none-some, ℕ, ◌≡◌, refl, sym, ap, subst, ◌∙◌, Bool, true, false, not, ◌&&◌, ◌||◌, List, Option,
  none, some, some_inj, Option-cases, Bool-cases, ◌⊎◌, inl, inr,
}
use subspace_transceiver.Prelude.Dict.{get-set_self}
use subspace_transceiver.Prelude.Dict
use subspace_transceiver.Prelude.Text.{Text, text_eq, codes}
use subspace_transceiver.Schema.{MemoryChunk, MemoryNamespace}
use subspace_transceiver.Schema.Valid.{validate_chunk, is_valid_chunk}
use subspace_transceiver.Pow.{StampCacheEntry, get_or_mine}
use subspace_transceiver.Reputation.{ScoreArith}
use subspace_transceiver.Ingest.{ErrorCode, IngestResult, ok, refused, check_ingest_security}
use subspace_transceiver.Backlinks.{Index}
use subspace_transceiver.Discovery.{DiscoveryManager}
use subspace_transceiver.Backlinks.Edges.{has_edge, links_to, index_chunk-has_edge}
use subspace_transceiver.Writes.Stores.{IsMemoryStore}
use subspace_transceiver.Writes.{
  MemoryStore, Reply, ChunkBody, Config, World, chunk_of, incoming_of, sign_chunk, WriteSession,
  Sessions, pick_session, store_in, with_store, store_chunk, Daemon, stamp_chunk, write_chunk,
  validate_and_write, post_memory,
}

IngestResult-cases :
    (r : IngestResult) → (r ≡ ok) ⊎ ((status : ℕ) × (code : ErrorCode) × (r ≡ refused status code))
IngestResult-cases ok = inl refl
IngestResult-cases (refused status code) = inr (status, code, refl)

validate_chunk-valid :
    (is_uuid : Text → Bool) (c v : MemoryChunk)
    → validate_chunk is_uuid c ≡ some v
    → is_valid_chunk is_uuid c ≡ true
unfolding validate_chunk
validate_chunk-valid is_uuid c v h = elim (Bool-cases (is_valid_chunk is_uuid c)) [
  | inl t ↦ t
  | inr f ↦ absurd (none-some (rw (f, validate_chunk) at h))
]

module _ {store : MemoryStore} (laws : IsMemoryStore store) where
  -- A session in which a chunk was stored: the chunk is read back, and links to its targets.
  pub Stored : MemoryChunk → WriteSession store → WriteSession store → Type 0
  Stored c s s' =
      (store.get c.id (store_in store c.namespace s') ≡ some c)
      × ((target id : Text)
          → has_edge s'.backlinks target id
            ≡ (links_to c target && text_eq c.id id) || has_edge s.backlinks target id)

  store_in-with_store :
      (n : MemoryNamespace) (t : store.State) (i : Index) (d : DiscoveryManager)
      (s : WriteSession store)
      → store_in store n (record (with_store store n t s) { backlinks = i; discovery = d }) ≡ t
  unfolding store_in with_store
  store_in-with_store MemoryNamespace.skill t i d s = refl
  store_in-with_store MemoryNamespace.project t i d s = refl

  store_chunk-Stored :
      (c : MemoryChunk) (s s' : WriteSession store)
      → c.tombstone ≡ false
      → laws.IsReady (store_in store c.namespace s)
      → store_chunk store c.namespace c s ≡ some s'
      → Stored c s s'
  unfolding store_chunk Stored
  store_chunk-Stored c s s' alive ready h =
      elim (Option-cases (store.put c (store_in store c.namespace s))) [
        | inl e ↦ absurd (none-some (rw (e, store_chunk) at h))
        | inr (t, e) ↦
            let same = some_inj (rw (e, store_chunk) at h) in
            subst (Stored c s) same (
              ap (store.get c.id) (store_in-with_store c.namespace t _ _ s)
                  ∙ laws.get_put c (store_in store c.namespace s) t ready e alive,
              λ target id.
                  index_chunk-has_edge c s.backlinks target id
                  ∙ ap
                      (λ gone.
                        (not gone && links_to c target && text_eq c.id id)
                        || has_edge s.backlinks target id)
                      alive,
            )
      ]

  -- The chunk as it was made, but for a stamp and a signature.
  abbrev pub Keeps : MemoryChunk → MemoryChunk → Type 0
  Keeps made signed = signed ≡ record made { pow = signed.pow; signature = signed.signature }

  Keeps-trans : (a b c : MemoryChunk) → Keeps a b → Keeps b c → Keeps a c
  Keeps-trans a b c p q =
      let again : MemoryChunk → MemoryChunk =
        λ x. record x { pow = c.pow; signature = c.signature } in
      q ∙ ap again p

  sign_chunk-Keeps : (world : World) (c : MemoryChunk) → Keeps c (sign_chunk world c)
  unfolding sign_chunk
  sign_chunk-Keeps world c = elim (Option-cases (world.sign c)) [
    | inl e ↦ rw (e, sign_chunk) refl
    | inr (s, e) ↦ rw (e, sign_chunk) refl
  ]

  module _ (is_uuid : Text → Bool) (sha256 : Text → Text) (A : ScoreArith) where
    stamp_chunk-Keeps :
        (config : Config) (world : World) (c : MemoryChunk) (stamps : List (Text × StampCacheEntry))
        → Keeps c (stamp_chunk store is_uuid sha256 A config world c stamps).1
    unfolding stamp_chunk
    stamp_chunk-Keeps config world c stamps =
        elim (Option-cases (
          get_or_mine sha256 world.fuel stamps config.local_peer_id (codes "chunk")
            config.security.pow_bits_for_chunks config.security.pow_window_ms world.now
            world.mined_at)) [
              | inl e ↦ rw (e, stamp_chunk) refl
              | inr (p, e) ↦ rw (e, stamp_chunk) refl
            ]

    -- The reply of the route says what became of the sessions.
    Outcome :
        MemoryChunk → Text × WriteSession store → Sessions store → Sessions store → Reply → Type 0
    Outcome made session before after (Reply.sent status c) =
        (s' : WriteSession store) × (Dict.get session.0 after ≡ some s')
        × Stored c session.1 s'
        × Keeps made c
    Outcome made session before after Reply.no_content = ⊥
    Outcome made session before after (Reply.failed status e) = after ≡ before

    write_chunk-Outcome :
        (config : Config) (world : World) (session : Text × WriteSession store) (c : MemoryChunk)
        (d : Daemon store is_uuid sha256 A)
        → c.tombstone ≡ false
        → laws.IsReady (store_in store c.namespace session.1)
        → let r = write_chunk store is_uuid sha256 A config world session c.namespace c d in
          Outcome c session d.sessions r.0.sessions r.1
    unfolding write_chunk Outcome
    write_chunk-Outcome config world (network, s) c d alive ready =
        let stamped = (stamp_chunk store is_uuid sha256 A config world c d.stamps).1 in
        let signed = sign_chunk world stamped in
        let kept : Keeps c signed =
          Keeps-trans c stamped signed (stamp_chunk-Keeps config world c d.stamps)
            (sign_chunk-Keeps world stamped) in
        let n : signed.namespace ≡ c.namespace = ap (λ x. x.namespace) kept in
        elim (Option-cases (store_chunk store c.namespace signed s)) [
          | inl e ↦ rw (e, write_chunk) refl
          | inr (s', e) ↦
              rw (e, write_chunk)
                (
                  s',
                  get-set_self network s' d.sessions,
                  store_chunk-Stored signed s s' (ap (λ x. x.tombstone) kept ∙ alive)
                      (subst (λ k. laws.IsReady (store_in store k s)) (sym n) ready)
                      (subst (λ k. store_chunk store k signed s ≡ some s') (sym n) e),
                  kept,
                )
        ]

    validate_and_write-Outcome :
        (config : Config) (world : World) (session : Text × WriteSession store) (c : MemoryChunk)
        (d : Daemon store is_uuid sha256 A)
        → c.tombstone ≡ false
        → laws.IsReady (store_in store c.namespace session.1)
        → let r = validate_and_write store is_uuid sha256 A config world session c.namespace c d in
          Outcome c session d.sessions r.0.sessions r.1
    unfolding validate_and_write Outcome
    validate_and_write-Outcome config world session c d alive ready =
        elim (Option-cases (validate_chunk is_uuid c)) [
          | inl e ↦ rw (e, validate_and_write) refl
          | inr (v, e) ↦
              rw (e, validate_and_write) (write_chunk-Outcome config world session c d alive ready)
        ]

    -- What the reply to POST /memory says. A chunk that is sent back is the one that the route made of the
    -- body, but for its stamp and its signature, is stored in the session that the body picks, and the
    -- chunk that was made passed the guard and the validation; after any other reply no session is
    -- changed.
    pub IsPosted :
        Config
        → World
        → Option ChunkBody
        → Daemon store is_uuid sha256 A
        → Sessions store
        → Reply
        → Type 0
    IsPosted config world none d after (Reply.sent status c) = ⊥
    IsPosted config world (some body) d after (Reply.sent status c) =
        (session : Text × WriteSession store) × (s' : WriteSession store) × (pick_session store
            body.network d.sessions
          ≡ some session)
        × (let made = chunk_of config world session.0 body in
            Keeps made c
            × ((check_ingest_security sha256 A config.security (incoming_of made) world.now
                  d.guard).1
                ≡ ok)
            × (is_valid_chunk is_uuid made ≡ true))
        × (Dict.get session.0 after ≡ some s')
        × Stored c session.1 s'
    IsPosted config world body d after Reply.no_content = ⊥
    IsPosted config world body d after (Reply.failed status e) = after ≡ d.sessions

    Outcome-IsPosted :
        (config : Config) (world : World) (body : ChunkBody) (d : Daemon store is_uuid sha256 A)
        (session : Text × WriteSession store) (after : Sessions store) (reply : Reply)
        → pick_session store body.network d.sessions ≡ some session
        → let made = chunk_of config world session.0 body in
          (check_ingest_security sha256 A config.security (incoming_of made) world.now d.guard).1
            ≡ ok
          → is_valid_chunk is_uuid made ≡ true
          → Outcome made session d.sessions after reply
          → IsPosted config world (some body) d after reply
    unfolding Outcome IsPosted
    Outcome-IsPosted config world body d session after (Reply.sent status c) picked passed valid
          (s', at, stored, kept) =
        (session, s', picked, (kept, passed, valid), at, stored)
    Outcome-IsPosted config world body d session after Reply.no_content picked passed valid h = h
    Outcome-IsPosted config world body d session after (Reply.failed status e) picked passed valid
          h =
        h

    -- The reply of POST /memory says what has happened, where each store of a session that the route can
    -- pick is ready (the current epoch of a manager is the first that a read looks at): a chunk that is
    -- sent back is the one that the route made of the body, but for its stamp and its signature, is
    -- stored in the session that the body picks, and the chunk that was made passed the guard and the
    -- validation; after any other reply no session is changed, and without a body there is no chunk.
    pub post_memory-IsPosted :
        (config : Config) (world : World) (body : Option ChunkBody)
        (d : Daemon store is_uuid sha256 A)
        → ((network : Option Text) (session : Text × WriteSession store) (n : MemoryNamespace)
            → pick_session store network d.sessions ≡ some session
            → laws.IsReady (store_in store n session.1))
        → let r = post_memory store is_uuid sha256 A config world body d in
          IsPosted config world body d r.0.sessions r.1
    unfolding post_memory IsPosted validate_and_write chunk_of
    post_memory-IsPosted config world none d ready = refl
    post_memory-IsPosted config world (some body) d ready =
        elim (Option-cases (pick_session store body.network d.sessions)) [
          | inl e ↦ rw (e, post_memory) refl
          | inr (session, e) ↦
              let made = chunk_of config world session.0 body in
              let checked =
                check_ingest_security sha256 A config.security (incoming_of made) world.now
                  d.guard in
              elim (IngestResult-cases checked.1) [
                | inr (status, code, f) ↦ rw (e, f, post_memory) refl
                | inl f ↦ elim (Option-cases (validate_chunk is_uuid made)) [
                  | inl g ↦ rw (e, f, g, post_memory, validate_and_write) refl
                  | inr (v, g) ↦
                      rw (e, f, post_memory)
                        (Outcome-IsPosted config world body d session _ _ e f
                          (validate_chunk-valid is_uuid made v g)
                          (validate_and_write-Outcome config world session made
                            (record d { guard = checked.0 }) refl
                            (ready body.network session made.namespace e)))
                ]
              ]
        ]
