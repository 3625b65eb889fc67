-- ===== src/Discovery/Known.antt =====
-- packages/core/src/discovery.ts: how long a peer that announces itself is known, and which manifests of
-- its own making are admitted elsewhere.
use subspace_transceiver.Prelude.{
  ℕ, ◌+◌, ◌≤◌, ◌<◌, true, ltb, Bool-cases, List, [], ◌∷◌, Elem, filter-Elem, Option, none, some,
  some_inj, ◌≡◌, ◌≢◌, refl, sym, ◌∙◌, inl, inr, arith,
}
use subspace_transceiver.Prelude.Text.{Text, text_eq, text_eq_iff}
use subspace_transceiver.Prelude.Dict.{get-set}
use subspace_transceiver.Prelude.Dict
use subspace_transceiver.Discovery.{
  DiscoveryManifest, PeerIndexEntry, DiscoveryManagerOptions, DiscoveryManager, entry_of, admits,
  process_manifest_local, process_manifest, handle_gossip_message, receive, get_known_peers,
}
use subspace_transceiver.Discovery.Announced.{get-handle_gossip_message}

-- The index has the peer, seen at a time or later.
Seen : Text → ℕ → DiscoveryManager → Type 0
Seen peer time d =
    (entry : PeerIndexEntry) × (Dict.get peer d.peer_index ≡ some entry)
    × (time ≤ entry.last_seen)
    × (entry.peer_id ≡ peer)

get-Elem :
    (peer : Text) (entry : PeerIndexEntry) (index : List (Text × PeerIndexEntry))
    → Dict.get peer index ≡ some entry
    → Elem entry (Dict.values index)
unfolding Dict.get
get-Elem peer entry [] h = absurd (none-some h)
  where
    none-some : none ≡ some entry → ⊥
    none-some h = cc
get-Elem peer entry ((p, e) ∷ index) h = elim (Bool-cases (text_eq p peer)) [
  | inl t ↦ inl (sym (some_inj (rw t at h)))
  | inr t ↦ inr (get-Elem peer entry index (rw t at h))
]

lt→ltb : (a b : ℕ) → a < b → ltb a b ≡ true
lt→ltb a b h = ground arith

module _ (sha256 : Text → Text) (opts : DiscoveryManagerOptions) where
  process_manifest-Seen :
      (now : ℕ) (m : DiscoveryManifest) (d : DiscoveryManager) (peer : Text) (time : ℕ)
      → time ≤ now
      → Seen peer time d
      → Seen peer time (process_manifest sha256 opts now m d)
  unfolding process_manifest process_manifest_local Seen entry_of
  process_manifest-Seen now m d peer time later (entry, found, seen, own) =
      elim (Bool-cases (text_eq m.peer_id opts.local_peer_id)) [
        | inl e ↦ rw e (entry, found, seen, own)
        | inr e ↦ elim (Bool-cases (admits sha256 opts now m)) [
          | inr f ↦ rw (e, f) (entry, found, seen, own)
          | inl f ↦ elim (Bool-cases (text_eq m.peer_id peer)) [
            | inl g ↦
                rw (e, f)
                  (
                    entry_of m now,
                    get-set m.peer_id peer (entry_of m now) d.peer_index ∙ rw g refl,
                    later,
                    (text_eq_iff m.peer_id peer).0 g,
                  )
            | inr g ↦
                rw (e, f)
                  (
                    entry,
                    get-set m.peer_id peer (entry_of m now) d.peer_index ∙ rw g found,
                    seen,
                    own,
                  )
          ]
        ]
      ]

  receive-Seen :
      (messages : List (ℕ × Option DiscoveryManifest)) (d : DiscoveryManager) (peer : Text)
      (time : ℕ)
      → ((now : ℕ) (message : Option DiscoveryManifest) → Elem (now, message) messages → time ≤ now)
      → Seen peer time d
      → Seen peer time (receive sha256 opts messages d)
  unfolding receive handle_gossip_message
  receive-Seen [] d peer time later seen = seen
  receive-Seen ((now, none) ∷ messages) d peer time later seen =
      receive-Seen messages d peer time (λ t x among. later t x (inr among)) seen
  receive-Seen ((now, some m) ∷ messages) d peer time later seen =
      receive-Seen messages (process_manifest sha256 opts now m d) peer time
        (λ t x among. later t x (inr among))
        (process_manifest-Seen now m d peer time (later now (some m) (inl refl)) seen)

  -- Another peer whose manifest is admitted is among the known peers until five minutes have passed,
  -- whatever messages arrive later.
  pub get_known_peers-receive :
      (m : DiscoveryManifest) (now asked : ℕ) (messages : List (ℕ × Option DiscoveryManifest))
      (d : DiscoveryManager)
      → m.peer_id ≢ opts.local_peer_id
      → admits sha256 opts now m ≡ true
      → ((t : ℕ) (message : Option DiscoveryManifest) → Elem (t, message) messages → now ≤ t)
      → asked < now + 300000
      → (entry : PeerIndexEntry) × Elem entry (
          get_known_peers asked
            (receive sha256 opts messages (handle_gossip_message sha256 opts now (some m) d)))
        × (entry.peer_id ≡ m.peer_id)
  unfolding Seen get_known_peers entry_of
  get_known_peers-receive m now asked messages d apart admitted later soon =
      let (entry, found, seen, own) = receive-Seen messages _ m.peer_id now later (
        entry_of m now,
        get-handle_gossip_message sha256 opts now d m apart admitted,
        omega arith,
        refl,
      ) in
      (
        entry,
        filter-Elem _ entry _ (get-Elem m.peer_id entry _ found)
            (lt→ltb asked (entry.last_seen + 300000) (omega arith)),
        own,
      )
