-- ===== src/Ingest/Begun.antt =====
-- What the first part of a guard, and the rest of one that has waited, do to the rate limiter.
use subspace_transceiver.Prelude.{ℕ, ◌≡◌, refl, true, false, ltb, Bool-cases, inl, inr}
use subspace_transceiver.Prelude.Text.{Text, truthy}
use subspace_transceiver.RateLimiter.{RateLimiter, check}
use subspace_transceiver.Reputation.{ScoreArith, is_blacklisted}
use subspace_transceiver.Ingest.{
  IncomingChunk, Security, IngestResult, peer_id_of, content_bytes, body_bytes, is_signed,
  DaemonState, ask_blacklist, ask_limiter, check_signature, check_pow,
}
use subspace_transceiver.Ingest.Rate.{
  is_ok, Outcome, untouched, checked, entered, banned, note-limiter, signature_cases, pow_unnamed,
}
use subspace_transceiver.Ingest.Overlap.{Begun, ended, awaits, begin_rate, begin_size, begin_ingest}

-- The ways in which the first part of the guard of a named peer may leave the limiter: those of a guard
-- that ends, or checked, with the guard waiting.
pub data BeginOutcome (peer : Text) (window_ms now : ℕ) (l l' : RateLimiter) : Begun → Type 0 where
  at_end :
      (result : IngestResult)
      → Outcome peer window_ms now l l' (is_ok result)
      → BeginOutcome peer window_ms now l l' (ended result)
  at_await :
      (check l peer now).1 ≡ true
      → l' ≡ (check l peer now).0
      → BeginOutcome peer window_ms now l l' awaits

module _ (sha256 : Text → Text) (A : ScoreArith) where
  module _ (security : Security) (chunk : IncomingChunk) (peer : Text) (now : ℕ) where
    abbrev Begins : DaemonState sha256 A → DaemonState sha256 A × Begun → Type 0
    Begins s r = BeginOutcome peer security.rate_limit_window_ms now s.limiter r.0.limiter r.1

    begin_rate-cases :
        (s : DaemonState sha256 A)
        → truthy peer ≡ true
        → Begins s (begin_rate sha256 A security chunk peer now s)
    unfolding begin_rate ask_limiter
    begin_rate-cases s named =
        let t : DaemonState sha256 A = record s { limiter = (check s.limiter peer now).0 } in
        elim (Bool-cases (check s.limiter peer now).1) [
          | inr over ↦ rw (named, over) (at_end _ (banned refl refl))
          | inl allowed ↦ elim (Bool-cases (is_signed chunk)) [
            | inl signed ↦ rw (named, allowed, signed) (at_await allowed refl)
            | inr plain ↦
                rw (named, allowed, plain)
                  (at_end _ (elim (signature_cases sha256 A security chunk peer now t named) [
                    | inl (l, k) ↦ entered allowed l k
                    | inr (l, k) ↦ checked l k
                  ]))
          ]
        ]

    begin_size-cases :
        (s : DaemonState sha256 A)
        → truthy peer ≡ true
        → Begins s (begin_size sha256 A security chunk peer now s)
    unfolding begin_size
    begin_size-cases s named =
        let noted = note-limiter sha256 A security chunk peer now s in
        elim (Bool-cases (ltb security.max_chunk_content_bytes (content_bytes chunk))) [
          | inl big ↦ rw big (at_end _ (untouched (noted _) refl))
          | inr fits ↦ elim (Bool-cases (ltb security.max_envelope_body_bytes (body_bytes chunk))) [
            | inl big ↦ rw (fits, big) (at_end _ (untouched (noted _) refl))
            | inr fits' ↦ rw (fits, fits') (begin_rate-cases s named)
          ]
        ]

  pub begin_ingest-cases :
      (security : Security) (chunk : IncomingChunk) (now : ℕ) (s : DaemonState sha256 A)
      → truthy (peer_id_of chunk) ≡ true
      → let r = begin_ingest sha256 A security chunk now s in
        BeginOutcome (peer_id_of chunk) security.rate_limit_window_ms now s.limiter r.0.limiter r.1
  unfolding begin_ingest ask_blacklist
  begin_ingest-cases security chunk now s named =
      elim (Bool-cases (is_blacklisted A s.reputation (peer_id_of chunk) now).1) [
        | inl out ↦ rw (named, out) (at_end _ (untouched refl refl))
        | inr fine ↦
            rw (named, fine)
              (begin_size-cases security chunk (peer_id_of chunk) now
                (record s { reputation = (is_blacklisted A s.reputation (peer_id_of chunk) now).0 })
                named)
      ]

  -- The guard of a chunk that names no peer does not wait, and does not touch the limiter.
  pub begin_ingest-unnamed :
      (security : Security) (chunk : IncomingChunk) (now : ℕ) (s : DaemonState sha256 A)
      → truthy (peer_id_of chunk) ≡ false
      → let r = begin_ingest sha256 A security chunk now s in
        (r.0.limiter ≡ s.limiter) × (result : IngestResult) × (r.1 ≡ ended result)
  unfolding begin_ingest begin_size begin_rate ask_blacklist ask_limiter check_signature check_pow
  begin_ingest-unnamed security chunk now s named =
      elim (Bool-cases (ltb security.max_chunk_content_bytes (content_bytes chunk))) [
        | inl big ↦ rw (named, big) (note-limiter sha256 A security chunk _ now s _, _, refl)
        | inr fits ↦ elim (Bool-cases (ltb security.max_envelope_body_bytes (body_bytes chunk))) [
          | inl big ↦
              rw (named, fits, big) (note-limiter sha256 A security chunk _ now s _, _, refl)
          | inr fits' ↦
              rw (named, fits, fits')
                (elim (Bool-cases (is_signed chunk)) [
                  | inl signed ↦
                      rw signed (pow_unnamed sha256 A security chunk _ now s named, _, refl)
                  | inr plain ↦ elim (Bool-cases security.require_signatures) [
                    | inl wanted ↦ rw (plain, wanted) (refl, _, refl)
                    | inr free ↦
                        rw (plain, free)
                          (pow_unnamed sha256 A security chunk _ now s named, _, refl)
                  ]
                ])
        ]
      ]
