-- ===== src/Discovery/Admitted.antt =====
-- packages/core/src/discovery.ts and packages/core/src/pow.ts: the stamp on a peer's own manifest, before
-- the peers that require one.
use subspace_transceiver.Prelude.{
  ℕ, suc, Bool, true, not, ◌||◌, List, Option, none, some, some_inj, or_else, Option-cases, ◌≡◌,
  refl, ap, subst, ◌⊎◌, inl, inr, arith,
}
use subspace_transceiver.Prelude.Text.{Text, text_eq}
use subspace_transceiver.Schema.{MemoryChunk, HashcashStamp}
use subspace_transceiver.Pow.{StampCacheEntry, window_index, verify_stamp, get_or_mine}
use subspace_transceiver.Pow.Cache.{IsValid, get_or_mine-verify}
use subspace_transceiver.Discovery.{
  DiscoveryManifest, DiscoveryManagerOptions, DiscoveryManager, tally, unstamped, admits,
  build_manifest,
}

module _ (sha256 : Text → Text) where
  admits_stamped :
      (other : DiscoveryManagerOptions) (now : ℕ) (m : DiscoveryManifest) (stamp : HashcashStamp)
      → m.pow ≡ some stamp
      → verify_stamp sha256 stamp m.peer_id m.peer_id 16 3600000 now ≡ true
      → admits sha256 other now m ≡ true
  unfolding admits
  admits_stamped other now m stamp e h =
      rw (e, h) (last (text_eq m.peer_id other.local_peer_id) (not other.require_pow))
    where
      last : (a b : Bool) → a || b || true ≡ true
      last a b = ground arith

  -- A manifest that a peer builds with a valid cache of stamps, of 16 bits and windows of one hour, is
  -- admitted everywhere throughout the hour in which it was built. Mining may run into the next hour.
  pub build_manifest-admits :
      (opts other : DiscoveryManagerOptions) (fuel now done later : ℕ)
      (stores : List (Option (List MemoryChunk))) (d d' : DiscoveryManager) (m : DiscoveryManifest)
      (cache : List (Text × StampCacheEntry))
      → d.stamp_cache ≡ some cache
      → IsValid sha256 opts.local_peer_id cache
      → or_else opts.pow_bits_for_requests 16 ≡ 16
      → or_else opts.pow_window_ms 3600000 ≡ 3600000
      → (window_index 3600000 done ≡ window_index 3600000 now)
        ⊎ (window_index 3600000 done ≡ suc (window_index 3600000 now))
      → build_manifest sha256 opts fuel now done stores d ≡ some (d', m)
      → window_index 3600000 later ≡ window_index 3600000 now
      → admits sha256 other later m ≡ true
  unfolding build_manifest unstamped
  build_manifest-admits opts other fuel now done later stores d d' m cache cached valid bits window
        near built same_hour =
      elim (Option-cases
        (get_or_mine sha256 fuel cache opts.local_peer_id opts.local_peer_id 16 3600000 now done)) [
          | inl f ↦ absurd (none-some (rw (cached, bits, window, f, build_manifest) at built))
          | inr ((cache', stamp), f) ↦
              let same = some_inj (rw (cached, bits, window, f, build_manifest) at built) in
              subst (λ n. admits sha256 other later n ≡ true) (ap (λ p. p.1) same)
                (admits_stamped other later
                  (record (unstamped opts now (tally stores)) { pow = some stamp }) stamp refl
                  ((get_or_mine-verify sha256 fuel cache cache' opts.local_peer_id
                      opts.local_peer_id 16 3600000 now done stamp valid near f).1
                    later same_hour))
        ]
    where
      none-some : {A : Type 0} {a : A} → none ≡ some a → ⊥
      none-some h = cc
