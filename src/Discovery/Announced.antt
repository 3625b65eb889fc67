-- ===== src/Discovery/Announced.antt =====
-- packages/core/src/discovery.ts: what a peer learns from the manifest that another peer builds.
use subspace_transceiver.Prelude.{
  none-some, ℕ, true, false, Bool-cases, List, [], ◌∷◌, length, Elem, Option, some, some_inj,
  or_else, Option-cases, ◌≡◌, ◌≢◌, refl, sym, ap, ◌∙◌, subst, inl, inr,
}
use subspace_transceiver.Prelude.Text.{Text, text_eq, text_eq_iff}
use subspace_transceiver.Prelude.Dict.{get-set_self}
use subspace_transceiver.Prelude.Dict
use subspace_transceiver.Schema.{MemoryChunk}
use subspace_transceiver.Pow.{get_or_mine}
use subspace_transceiver.Bloom.{has, zeros, new_filter}
use subspace_transceiver.Bloom.Members.{
  has-add, length-add, length-add_all, has-add_all, has-add_keeps, has-add_all_keeps,
}
use subspace_transceiver.Discovery.{
  DiscoveryManifest, DiscoveryManagerOptions, DiscoveryManager, Tally, tally_chunk, tally_chunks,
  tally_stores, tally, unstamped, entry_of, admits, process_manifest_local, process_manifest,
  handle_gossip_message, build_manifest, peer_has_topic, peer_probably_has_chunk,
}

IsSized : Tally → Type 0
IsSized t = (length t.topic_bloom ≡ 256) × (length t.content_bloom ≡ 256)

Announces : MemoryChunk → Tally → Type 0
Announces c t =
    (has c.id t.content_bloom ≡ true)
    × ((topic : Text) → Elem topic c.topic → has topic t.topic_bloom ≡ true)

tally_chunk-IsSized : (b : MemoryChunk) (t : Tally) → IsSized t → IsSized (tally_chunk b t)
unfolding tally_chunk IsSized
tally_chunk-IsSized b t (p, q) = elim (Bool-cases b.tombstone) [
  | inl e ↦ rw e (p, q)
  | inr e ↦ rw e (length-add_all b.topic t.topic_bloom ∙ p, length-add b.id t.content_bloom ∙ q)
]

tally_chunk-Announces :
    (c : MemoryChunk) (t : Tally) → IsSized t → c.tombstone ≡ false → Announces c (tally_chunk c t)
unfolding tally_chunk IsSized Announces
tally_chunk-Announces c t (p, q) e =
    rw e (has-add c.id t.content_bloom q, λ topic at. has-add_all topic c.topic t.topic_bloom p at)

tally_chunk-keeps : (c b : MemoryChunk) (t : Tally) → Announces c t → Announces c (tally_chunk b t)
unfolding tally_chunk Announces
tally_chunk-keeps c b t (x, y) = elim (Bool-cases b.tombstone) [
  | inl e ↦ rw e (x, y)
  | inr e ↦ rw e (
    has-add_keeps c.id b.id t.content_bloom x,
    λ topic at. has-add_all_keeps topic b.topic t.topic_bloom (y topic at),
  )
]

tally_chunks-IsSized : (bs : List MemoryChunk) (t : Tally) → IsSized t → IsSized (tally_chunks bs t)
unfolding tally_chunks
tally_chunks-IsSized [] t p = p
tally_chunks-IsSized (b ∷ bs) t p =
    tally_chunks-IsSized bs (tally_chunk b t) (tally_chunk-IsSized b t p)

tally_chunks-keeps :
    (c : MemoryChunk) (bs : List MemoryChunk) (t : Tally)
    → Announces c t
    → Announces c (tally_chunks bs t)
unfolding tally_chunks
tally_chunks-keeps c [] t h = h
tally_chunks-keeps c (b ∷ bs) t h =
    tally_chunks-keeps c bs (tally_chunk b t) (tally_chunk-keeps c b t h)

tally_chunks-Announces :
    (c : MemoryChunk) (bs : List MemoryChunk) (t : Tally)
    → IsSized t
    → c.tombstone ≡ false
    → Elem c bs
    → Announces c (tally_chunks bs t)
unfolding tally_chunks
tally_chunks-Announces c [] t p e at = absurd at
tally_chunks-Announces c (b ∷ bs) t p e (inl same) =
    tally_chunks-keeps c bs (tally_chunk b t)
      (subst (λ x. Announces c (tally_chunk x t)) same (tally_chunk-Announces c t p e))
tally_chunks-Announces c (b ∷ bs) t p e (inr later) =
    tally_chunks-Announces c bs (tally_chunk b t) (tally_chunk-IsSized b t p) e later

tally_stores-keeps :
    (c : MemoryChunk) (stores : List (Option (List MemoryChunk))) (t : Tally)
    → Announces c t
    → Announces c (tally_stores stores t)
unfolding tally_stores
tally_stores-keeps c [] t h = h
tally_stores-keeps c (listed ∷ stores) t h =
    tally_stores-keeps c stores _ (tally_chunks-keeps c (or_else listed []) t h)

tally_stores-Announces :
    (c : MemoryChunk) (chunks : List MemoryChunk) (stores : List (Option (List MemoryChunk)))
    (t : Tally)
    → IsSized t
    → c.tombstone ≡ false
    → Elem c chunks
    → Elem (some chunks) stores
    → Announces c (tally_stores stores t)
unfolding tally_stores
tally_stores-Announces c chunks [] t p e at listed = absurd listed
tally_stores-Announces c chunks (first ∷ stores) t p e at (inl same) =
    tally_stores-keeps c stores _ (
      tally_chunks-Announces c (or_else first []) t p e
        (subst (λ o. Elem c (or_else o [])) same at))
tally_stores-Announces c chunks (first ∷ stores) t p e at (inr later) =
    tally_stores-Announces c chunks stores _ (tally_chunks-IsSized (or_else first []) t p) e at
      later

tally-Announces :
    (c : MemoryChunk) (chunks : List MemoryChunk) (stores : List (Option (List MemoryChunk)))
    → c.tombstone ≡ false
    → Elem c chunks
    → Elem (some chunks) stores
    → Announces c (tally stores)
unfolding tally IsSized new_filter zeros
tally-Announces c chunks stores e at listed =
    tally_stores-Announces c chunks stores _ (refl, refl) e at listed

-- A manifest of a peer with the filters of these stores.
FromStores : DiscoveryManagerOptions → List (Option (List MemoryChunk)) → DiscoveryManifest → Type 0
FromStores opts stores m =
    (m.peer_id ≡ opts.local_peer_id)
    × (m.topic_bloom ≡ (tally stores).topic_bloom)
    × (m.content_bloom ≡ (tally stores).content_bloom)

build_manifest-FromStores :
    (sha256 : Text → Text) (opts : DiscoveryManagerOptions) (fuel now done : ℕ)
    (stores : List (Option (List MemoryChunk))) (d d' : DiscoveryManager) (m : DiscoveryManifest)
    → build_manifest sha256 opts fuel now done stores d ≡ some (d', m)
    → FromStores opts stores m
unfolding build_manifest FromStores unstamped
build_manifest-FromStores sha256 opts fuel now done stores d d' m h =
    elim (Option-cases d.stamp_cache) [
      | inl e ↦
          let same = some_inj (rw (e, build_manifest) at h) in
          subst (FromStores opts stores) (ap (λ p. p.1) same) (refl, refl, refl)
      | inr (cache, e) ↦
          elim (Option-cases (
            get_or_mine sha256 fuel cache opts.local_peer_id opts.local_peer_id
              (or_else opts.pow_bits_for_requests 16) (or_else opts.pow_window_ms 3600000) now
              done)) [
                | inl f ↦ absurd (none-some (rw (e, f, build_manifest) at h))
                | inr (p, f) ↦
                    let same = some_inj (rw (e, f, build_manifest) at h) in
                    subst (FromStores opts stores) (ap (λ p. p.1) same) (refl, refl, refl)
              ]
    ]

-- A manifest of another peer that is admitted is indexed under that peer.
pub get-handle_gossip_message :
    (sha256 : Text → Text) (other : DiscoveryManagerOptions) (later : ℕ) (d : DiscoveryManager)
    (m : DiscoveryManifest)
    → m.peer_id ≢ other.local_peer_id
    → admits sha256 other later m ≡ true
    → Dict.get m.peer_id (handle_gossip_message sha256 other later (some m) d).peer_index
      ≡ some (entry_of m later)
unfolding handle_gossip_message process_manifest process_manifest_local
get-handle_gossip_message sha256 other later d m apart admitted =
    elim (Bool-cases (text_eq m.peer_id other.local_peer_id)) [
      | inl e ↦ absurd (apart ((text_eq_iff m.peer_id other.local_peer_id).0 e))
      | inr e ↦ rw (e, admitted) (get-set_self m.peer_id (entry_of m later) d.peer_index)
    ]

-- Another peer that admits the manifest which a peer builds from its stores finds each chunk that is
-- listed and alive, and each of its topics, with that peer.
pub handle_gossip_message-announced :
    (sha256 : Text → Text) (opts other : DiscoveryManagerOptions) (fuel now done later : ℕ)
    (stores : List (Option (List MemoryChunk))) (d d' receiver : DiscoveryManager)
    (m : DiscoveryManifest) (c : MemoryChunk) (chunks : List MemoryChunk)
    → build_manifest sha256 opts fuel now done stores d ≡ some (d', m)
    → opts.local_peer_id ≢ other.local_peer_id
    → admits sha256 other later m ≡ true
    → Elem (some chunks) stores
    → Elem c chunks
    → c.tombstone ≡ false
    → let after = handle_gossip_message sha256 other later (some m) receiver in
      (peer_probably_has_chunk opts.local_peer_id c.id after ≡ true)
      × ((topic : Text)
          → Elem topic c.topic
          → peer_has_topic opts.local_peer_id topic after ≡ some true)
unfolding Announces FromStores entry_of peer_probably_has_chunk peer_has_topic
handle_gossip_message-announced sha256 opts other fuel now done later stores d d' receiver m c
      chunks built apart admitted listed at alive =
    let (own, topics, contents) =
      build_manifest-FromStores sha256 opts fuel now done stores d d' m built in
    let indexed =
      get-handle_gossip_message sha256 other later receiver m (λ e. apart (sym own ∙ e)) admitted in
    let (has_id, has_topics) = tally-Announces c chunks stores alive at listed in
    let after = handle_gossip_message sha256 other later (some m) receiver in
    let entry = subst (λ p. Dict.get p after.peer_index ≡ some (entry_of m later)) own indexed in
    (
      rw (entry, peer_probably_has_chunk) (ap (has c.id) contents ∙ has_id),
      λ topic among.
          rw (entry, peer_has_topic) (ap some (ap (has topic) topics ∙ has_topics topic among)),
    )
