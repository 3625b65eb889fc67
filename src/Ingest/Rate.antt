-- ===== src/Ingest/Rate.antt =====
-- What the guard does to the rate limiter, one chunk at a time.
use subspace_transceiver.Prelude.{
  ℕ, ◌≡◌, ◌⊎◌, inl, inr, refl, Bool, true, false, ltb, arith, Bool-cases, Option-cases,
}
use subspace_transceiver.Prelude.Text.{Text, truthy}
use subspace_transceiver.RateLimiter.{RateLimiter, check, record_event, soft_ban}
use subspace_transceiver.Reputation.{ScoreArith, is_blacklisted}
use subspace_transceiver.Ingest.{
  IncomingChunk, Security, IngestResult, ok, refused, peer_id_of, content_bytes, body_bytes,
  DaemonState, note, ask_blacklist, ask_limiter, admit, check_pow, check_signature, check_rate,
  check_size, check_ingest_security,
}

abbrev pub is_ok : IngestResult → Bool
is_ok ok = true
is_ok (refused status code) = false

-- The ways in which a chunk from a named peer may leave the limiter: as it was, checked only, checked
-- and recorded, or checked and banned. It is admitted in the third way alone.
pub data Outcome (peer : Text) (window_ms now : ℕ) (l l' : RateLimiter) (admitted : Bool)
    : Type 0 where
  untouched : l' ≡ l → admitted ≡ false → Outcome peer window_ms now l l' admitted
  checked : l' ≡ (check l peer now).0 → admitted ≡ false → Outcome peer window_ms now l l' admitted
  entered :
      (check l peer now).1 ≡ true
      → l' ≡ record_event (check l peer now).0 peer now
      → admitted ≡ true
      → Outcome peer window_ms now l l' admitted
  banned :
      l' ≡ soft_ban (check l peer now).0 peer window_ms now
      → admitted ≡ false
      → Outcome peer window_ms now l l' admitted

module _ (sha256 : Text → Text) (A : ScoreArith) where
  pub pow_unnamed :
      (security : Security) (chunk : IncomingChunk) (peer : Text) (now : ℕ)
      (s : DaemonState sha256 A)
      → truthy peer ≡ false
      → (check_pow sha256 A security chunk peer now s).0.limiter ≡ s.limiter
  unfolding check_pow admit
  pow_unnamed security chunk peer now s named = elim (Option-cases chunk.pow) [
    | inl e ↦ rw (e, check_pow) (ground arith)
    | inr (stamp, e) ↦ rw (e, check_pow) (ground arith)
  ]

  module _ (security : Security) (chunk : IncomingChunk) (peer : Text) (now : ℕ) where
    pub note-limiter :
        (s : DaemonState sha256 A) (event : _)
        → (note sha256 A peer event now s).limiter ≡ s.limiter
    unfolding note
    note-limiter s event = ground arith

    pub pow_cases :
        (s : DaemonState sha256 A)
        → truthy peer ≡ true
        → (((check_pow sha256 A security chunk peer now s).0.limiter
              ≡ record_event s.limiter peer now)
            × (is_ok (check_pow sha256 A security chunk peer now s).1 ≡ true))
          ⊎ (((check_pow sha256 A security chunk peer now s).0.limiter ≡ s.limiter)
              × (is_ok (check_pow sha256 A security chunk peer now s).1 ≡ false))
    unfolding check_pow admit note
    pow_cases s named = elim (Option-cases chunk.pow) [
      | inl e ↦ rw (e, check_pow) (ground arith)
      | inr (stamp, e) ↦ rw (e, check_pow) (ground arith)
    ]

    pub signature_cases :
        (s : DaemonState sha256 A)
        → truthy peer ≡ true
        → (((check_signature sha256 A security chunk peer now s).0.limiter
              ≡ record_event s.limiter peer now)
            × (is_ok (check_signature sha256 A security chunk peer now s).1 ≡ true))
          ⊎ (((check_signature sha256 A security chunk peer now s).0.limiter ≡ s.limiter)
              × (is_ok (check_signature sha256 A security chunk peer now s).1 ≡ false))
    unfolding check_signature
    signature_cases s named = ground (arith, pow_cases s named)

    -- The outcome of one stage of the guard.
    abbrev StageOutcome : DaemonState sha256 A → DaemonState sha256 A × IngestResult → Type 0
    StageOutcome s result =
        Outcome peer security.rate_limit_window_ms now s.limiter result.0.limiter (is_ok result.1)

    rate_cases :
        (s : DaemonState sha256 A)
        → truthy peer ≡ true
        → StageOutcome s (check_rate sha256 A security chunk peer now s)
    unfolding check_rate ask_limiter
    rate_cases s named = elim (Bool-cases (check s.limiter peer now).1) [
      | inr over ↦ rw (named, over) (banned refl refl)
      | inl allowed ↦
          rw (named, allowed)
            (elim (signature_cases (record s { limiter = (check s.limiter peer now).0 }) named) [
              | inl (l, k) ↦ entered allowed l k
              | inr (l, k) ↦ checked l k
            ])
    ]

    size_cases :
        (s : DaemonState sha256 A)
        → truthy peer ≡ true
        → StageOutcome s (check_size sha256 A security chunk peer now s)
    unfolding check_size
    size_cases s named =
        elim (Bool-cases (ltb security.max_chunk_content_bytes (content_bytes chunk))) [
          | inl big ↦ rw big (untouched (note-limiter s _) refl)
          | inr fits ↦ elim (Bool-cases (ltb security.max_envelope_body_bytes (body_bytes chunk))) [
            | inl big ↦ rw (fits, big) (untouched (note-limiter s _) refl)
            | inr fits' ↦ rw (fits, fits') (rate_cases s named)
          ]
        ]

  pub ingest_cases :
      (security : Security) (chunk : IncomingChunk) (now : ℕ) (s : DaemonState sha256 A)
      → truthy (peer_id_of chunk) ≡ true
      → Outcome
          (peer_id_of chunk)
          security.rate_limit_window_ms
          now
          s.limiter
          (check_ingest_security sha256 A security chunk now s).0.limiter
          (is_ok (check_ingest_security sha256 A security chunk now s).1)
  unfolding check_ingest_security ask_blacklist
  ingest_cases security chunk now s named =
      elim (Bool-cases (is_blacklisted A s.reputation (peer_id_of chunk) now).1) [
        | inl out ↦ rw (named, out) (untouched refl refl)
        | inr fine ↦
            rw (named, fine)
              (size_cases security chunk (peer_id_of chunk) now
                (record s { reputation = (is_blacklisted A s.reputation (peer_id_of chunk) now).0 })
                named)
      ]

  -- A chunk that names no peer does not touch the limiter.
  pub unnamed_same :
      (security : Security) (chunk : IncomingChunk) (now : ℕ) (s : DaemonState sha256 A)
      → truthy (peer_id_of chunk) ≡ false
      → (check_ingest_security sha256 A security chunk now s).0.limiter ≡ s.limiter
  unfolding check_ingest_security check_size check_rate check_signature ask_blacklist ask_limiter
      note
  unnamed_same security chunk now s named =
      ground (arith, pow_unnamed security chunk (peer_id_of chunk) now s named)
