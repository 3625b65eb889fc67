-- ===== src/Pow/Mining.antt =====
-- Mining: the stamp that `mineStamp` finds, and that `verifyStamp` accepts it.
use subspace_transceiver.Prelude.{
  ℕ, zero, suc, ◌+◌, ◌≤◌, ◌<◌, ◌≡◌, ◌≢◌, refl, sym, true, ◌++◌, some, ◌⊎◌, inl, inr, arith,
  Bool-cases, some_inj,
}
use subspace_transceiver.Prelude.Numerals.{print}
use subspace_transceiver.Prelude.Text.{Text, text_eq_refl}
use subspace_transceiver.Schema.{HashcashStamp}
use subspace_transceiver.Pow.{
  window_index, has_leading_zero_bits, current_challenge, previous_challenge, challenge_at,
  mine_loop, mine_stamp, verify_stamp,
}

lt_cases : (a b : ℕ) → a ≤ b → (a ≡ b) ⊎ (suc a ≤ b)
lt_cases a b h = ground arith

module _ (sha256 : Text → Text) where
  -- The nonce wins: its hash has the leading zero bits.
  abbrev pub IsHit : Text → ℕ → ℕ → Type 0
  IsHit challenge bits nonce =
      has_leading_zero_bits (sha256 (challenge ++ print 16 nonce)) bits ≡ true

  -- The stamp that a nonce makes.
  abbrev pub stamp_of : Text → ℕ → ℕ → HashcashStamp
  stamp_of challenge bits nonce = record {
    bits = bits;
    challenge = challenge;
    nonce = print 16 nonce;
    hash = sha256 (challenge ++ print 16 nonce);
  }

  -- The stamp of the first nonce, from `start` on, that wins.
  pub record IsFirstHit (challenge : Text) (bits start nonce : ℕ) : Type 0 where
    pub from : start ≤ nonce
    pub hit : IsHit challenge bits nonce
    pub first : (k : ℕ) → start ≤ k → k < nonce → ¬ IsHit challenge bits k

  mine_loop_finds :
      (fuel : ℕ) (challenge : Text) (bits start n : ℕ)
      → IsHit challenge bits n
      → start ≤ n
      → n < start + fuel
      → (m : ℕ) × (m ≤ n)
        × IsFirstHit challenge bits start m
        × (mine_loop sha256 fuel challenge bits start ≡ some (stamp_of challenge bits m))
  unfolding mine_loop
  mine_loop_finds zero challenge bits start n hit above below = absurd (omega arith)
  mine_loop_finds (suc fuel) challenge bits start n hit above below =
      elim (Bool-cases (has_leading_zero_bits (sha256 (challenge ++ print 16 start)) bits)) [
        | inl t ↦ (
          start,
          above,
          record { from = omega arith; hit = t; first = λ k a b. absurd (omega arith) },
          rw t refl,
        )
        | inr f ↦
            let apart : start ≢ n = λ e. cc in
            let (m, le, found, e) =
              mine_loop_finds fuel challenge bits (suc start) n hit (omega arith) (omega arith) in
            (
              m,
              le,
              record {
                from = ground (arith, found.from);
                hit = found.hit;
                first = λ k a b. elim (lt_cases start k a) [
                  | inl eq ↦ λ h. cc
                  | inr lt ↦ found.first k lt b
                ];
              },
              rw f e,
            )
      ]

  -- If some nonce below the fuel wins, mining returns the stamp of the first nonce that does.
  pub mine_stamp_finds :
      (fuel : ℕ) (peer scope : Text) (bits window_ms now n : ℕ)
      → IsHit (current_challenge sha256 peer scope window_ms now) bits n
      → n < fuel
      → (m : ℕ) × (m ≤ n)
        × IsFirstHit (current_challenge sha256 peer scope window_ms now) bits 0 m
        × (mine_stamp sha256 fuel peer scope bits window_ms now
            ≡ some (stamp_of (current_challenge sha256 peer scope window_ms now) bits m))
  unfolding mine_stamp
  mine_stamp_finds fuel peer scope bits window_ms now n hit below =
      mine_loop_finds fuel (current_challenge sha256 peer scope window_ms now) bits 0 n hit
        (omega arith) (omega arith)

  mine_loop-IsHit :
      (fuel : ℕ) (challenge : Text) (bits start : ℕ) (stamp : HashcashStamp)
      → mine_loop sha256 fuel challenge bits start ≡ some stamp
      → (n : ℕ) × IsHit challenge bits n × (stamp ≡ stamp_of challenge bits n)
  unfolding mine_loop
  mine_loop-IsHit zero challenge bits start stamp e = absurd (cc)
  mine_loop-IsHit (suc fuel) challenge bits start stamp e =
      elim (Bool-cases (has_leading_zero_bits (sha256 (challenge ++ print 16 start)) bits)) [
        | inl t ↦ (start, t, sym (some_inj (rw t at e)))
        | inr f ↦ mine_loop-IsHit fuel challenge bits (suc start) stamp (rw f at e)
      ]

  -- The stamp of a winning nonce, at an instant in the window of its challenge or in the next one.
  pub verify-stamp_of :
      (peer scope : Text) (bits window_ms now later n : ℕ)
      → IsHit (current_challenge sha256 peer scope window_ms now) bits n
      → (window_index window_ms later ≡ window_index window_ms now)
        ⊎ (window_index window_ms later ≡ suc (window_index window_ms now))
      → verify_stamp sha256
          (stamp_of (current_challenge sha256 peer scope window_ms now) bits n)
          peer
          scope
          bits
          window_ms
          later
        ≡ true
  unfolding verify_stamp current_challenge previous_challenge
  verify-stamp_of peer scope bits window_ms now later n hit near =
      let c = challenge_at sha256 peer scope (print 10 (window_index window_ms now)) in
      rw (text_eq_refl (sha256 (c ++ print 16 n)), hit)
        (elim near [
          | inl same ↦ rw (same, text_eq_refl c) (ground arith)
          | inr next ↦ rw (next, text_eq_refl c) (ground arith)
        ])

  -- A stamp that mining returns is accepted for its peer, scope and difficulty as long as the window
  -- in which the mining began, or the one after it, lasts.
  pub mine_stamp-verify :
      (fuel : ℕ) (peer scope : Text) (bits window_ms now later : ℕ) (stamp : HashcashStamp)
      → mine_stamp sha256 fuel peer scope bits window_ms now ≡ some stamp
      → (window_index window_ms later ≡ window_index window_ms now)
        ⊎ (window_index window_ms later ≡ suc (window_index window_ms now))
      → verify_stamp sha256 stamp peer scope bits window_ms later ≡ true
  unfolding mine_stamp
  mine_stamp-verify fuel peer scope bits window_ms now later stamp e near =
      let (n, hit, same) =
        mine_loop-IsHit fuel (current_challenge sha256 peer scope window_ms now) bits 0 stamp e in
      rw same (verify-stamp_of peer scope bits window_ms now later n hit near)
