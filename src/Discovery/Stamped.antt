-- ===== src/Discovery/Stamped.antt =====
-- packages/core/src/discovery.ts: the proof of work that the index asks of other peers.
use subspace_transceiver.Prelude.{
  none-some, ℕ, true, false, Bool-cases, List, [], ◌∷◌, Elem, Option, none, some, some_inj,
  Option-cases, ◌≡◌, ◌≢◌, refl, sym, ◌∙◌, subst, ◌⊎◌, inl, inr,
}
use subspace_transceiver.Prelude.Text.{Text, text_eq, text_eq_iff}
use subspace_transceiver.Prelude.Dict.{get-set}
use subspace_transceiver.Prelude.Dict
use subspace_transceiver.Schema.{HashcashStamp}
use subspace_transceiver.Pow.{verify_stamp}
use subspace_transceiver.Discovery.{
  DiscoveryManifest, PeerIndexEntry, DiscoveryManagerOptions, DiscoveryManager, entry_of, admits,
  process_manifest_local, process_manifest, handle_gossip_message, receive,
}

false-true : false ≡ true → ⊥
false-true h = cc

module _ (sha256 : Text → Text) (opts : DiscoveryManagerOptions) where
  -- A manifest of the peer that stands behind an entry of the index.
  pub Behind : Text → PeerIndexEntry → ℕ → DiscoveryManifest → Type 0
  Behind peer entry now m =
      (m.peer_id ≡ peer) × (entry_of m now ≡ entry) × (admits sha256 opts now m ≡ true)

  process_manifest_cases :
      (now : ℕ) (m : DiscoveryManifest) (d : DiscoveryManager) (peer : Text)
      (entry : PeerIndexEntry)
      → Dict.get peer (process_manifest sha256 opts now m d).peer_index ≡ some entry
      → (Dict.get peer d.peer_index ≡ some entry) ⊎ Behind peer entry now m
  unfolding process_manifest process_manifest_local Behind
  process_manifest_cases now m d peer entry h =
      elim (Bool-cases (text_eq m.peer_id opts.local_peer_id)) [
        | inl e ↦ inl (rw e at h)
        | inr e ↦ elim (Bool-cases (admits sha256 opts now m)) [
          | inr f ↦ inl (rw (e, f) at h)
          | inl f ↦ elim (Bool-cases (text_eq m.peer_id peer)) [
            | inl g ↦ inr (
              (text_eq_iff m.peer_id peer).0 g,
              some_inj (
                  rw g at
                    (sym (get-set m.peer_id peer (entry_of m now) d.peer_index) ∙ rw (e, f) at h)),
              f,
            )
            | inr g ↦ inl (
                rw g at
                  (sym (get-set m.peer_id peer (entry_of m now) d.peer_index) ∙ rw (e, f) at h))
          ]
        ]
      ]

  -- An entry of the index after some messages was there before, or one of them is behind it.
  receive_cases :
      (messages : List (ℕ × Option DiscoveryManifest)) (d : DiscoveryManager) (peer : Text)
      (entry : PeerIndexEntry)
      → Dict.get peer (receive sha256 opts messages d).peer_index ≡ some entry
      → (Dict.get peer d.peer_index ≡ some entry)
        ⊎ ((now : ℕ) × (m : DiscoveryManifest) × Elem (now, some m) messages
            × Behind peer entry now m)
  unfolding receive handle_gossip_message
  receive_cases [] d peer entry h = inl h
  receive_cases ((now, none) ∷ messages) d peer entry h =
      elim (receive_cases messages d peer entry h) [
        | inl e ↦ inl e
        | inr (at, m, among, behind) ↦ inr (at, m, inr among, behind)
      ]
  receive_cases ((now, some m) ∷ messages) d peer entry h =
      elim (receive_cases messages (process_manifest sha256 opts now m d) peer entry h) [
        | inr (at, m', among, behind) ↦ inr (at, m', inr among, behind)
        | inl e ↦ elim (process_manifest_cases now m d peer entry e) [
          | inl f ↦ inl f
          | inr behind ↦ inr (now, m, inl refl, behind)
        ]
      ]

  admits_stamp :
      (now : ℕ) (m : DiscoveryManifest)
      → opts.require_pow ≡ true
      → m.peer_id ≢ opts.local_peer_id
      → admits sha256 opts now m ≡ true
      → (stamp : HashcashStamp) × (m.pow ≡ some stamp)
        × (verify_stamp sha256 stamp m.peer_id m.peer_id 16 3600000 now ≡ true)
  unfolding admits
  admits_stamp now m required apart h = elim (Bool-cases (text_eq m.peer_id opts.local_peer_id)) [
    | inl e ↦ absurd (apart ((text_eq_iff m.peer_id opts.local_peer_id).0 e))
    | inr e ↦ elim (Option-cases m.pow) [
      | inl f ↦ absurd (false-true (rw (e, required, f, admits) at h))
      | inr (stamp, f) ↦ (stamp, f, rw (e, required, f, admits) at h)
    ]
  ]

  -- Where the proof of work is required, an entry of another peer that was not in the index before some
  -- messages was put there by one of them, whose stamp was accepted for that peer when it arrived.
  pub receive-stamped :
      (messages : List (ℕ × Option DiscoveryManifest)) (d : DiscoveryManager) (peer : Text)
      (entry : PeerIndexEntry)
      → opts.require_pow ≡ true
      → peer ≢ opts.local_peer_id
      → Dict.get peer d.peer_index ≡ none
      → Dict.get peer (receive sha256 opts messages d).peer_index ≡ some entry
      → (now : ℕ) × (m : DiscoveryManifest) × (stamp : HashcashStamp) × Elem (now, some m) messages
        × (entry_of m now ≡ entry)
        × (m.pow ≡ some stamp)
        × (verify_stamp sha256 stamp peer peer 16 3600000 now ≡ true)
  unfolding Behind
  receive-stamped messages d peer entry required apart fresh h =
      elim (receive_cases messages d peer entry h) [
        | inl e ↦ absurd (none-some (sym fresh ∙ e))
        | inr (now, m, among, (is_peer, is_entry, admitted)) ↦
            let (stamp, has_stamp, verified) =
              admits_stamp now m required (λ e. apart (sym is_peer ∙ e)) admitted in
            (
              now,
              m,
              stamp,
              among,
              is_entry,
              has_stamp,
              subst (λ p. verify_stamp sha256 stamp p p 16 3600000 now ≡ true) is_peer verified,
            )
      ]
