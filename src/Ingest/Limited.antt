-- ===== src/Ingest/Limited.antt =====
-- A peer over its rate.
use subspace_transceiver.Prelude.{
  ℕ, ◌+◌, ◌<◌, ◌≡◌, ◌≢◌, refl, Bool, true, false, ltb, arith, Bool-cases, Option-cases, inl, inr,
}
use subspace_transceiver.Prelude.Text.{Text, truthy}
use subspace_transceiver.RateLimiter.{check, soft_ban}
use subspace_transceiver.RateLimiter.Ban.{check-soft_ban}
use subspace_transceiver.Reputation.{ScoreArith, is_blacklisted}
use subspace_transceiver.Ingest.{
  IncomingChunk, Security, IngestResult, ok, refused, rate_limit_exceeded, peer_id_of,
  content_bytes, body_bytes, DaemonState, ask_blacklist, ask_limiter, admit, check_pow,
  check_signature, check_rate, check_size, check_ingest_security,
}
use subspace_transceiver.Ingest.Guards.{check_ingest_security-ok_iff}

unfoldable is_limited : IngestResult → Bool
is_limited (refused status rate_limit_exceeded) = true
is_limited _ = false

module _ (sha256 : Text → Text) (A : ScoreArith) (security : Security) (chunk : IncomingChunk)
    (now : ℕ) where
  pow_unlimited :
      (peer : Text) (s : DaemonState sha256 A)
      → is_limited (check_pow sha256 A security chunk peer now s).1 ≡ false
  unfolding check_pow admit is_limited
  pow_unlimited peer s = elim (Option-cases chunk.pow) [
    | inl e ↦ rw (e, check_pow) (ground arith)
    | inr (stamp, e) ↦ rw (e, check_pow) (ground arith)
  ]

  signature_unlimited :
      (peer : Text) (s : DaemonState sha256 A)
      → is_limited (check_signature sha256 A security chunk peer now s).1 ≡ false
  unfolding check_signature is_limited
  signature_unlimited peer s = ground (arith, pow_unlimited peer s)

  -- The peer is named, and the limiter holds a ban for one window.
  record Banned (peer : Text) (s t : DaemonState sha256 A) : Type 0 where
    named : truthy peer ≡ true
    held : t.limiter ≡ soft_ban (check s.limiter peer now).0 peer security.rate_limit_window_ms now

  rate_limited :
      (peer : Text) (s : DaemonState sha256 A)
      → is_limited (check_rate sha256 A security chunk peer now s).1 ≡ true
      → Banned peer s (check_rate sha256 A security chunk peer now s).0
  unfolding check_rate ask_limiter is_limited
  rate_limited peer s h = elim (Bool-cases (truthy peer)) [
    | inr unnamed ↦ absurd (ground (arith, signature_unlimited peer s))
    | inl named ↦ elim (Bool-cases (check s.limiter peer now).1) [
      | inl allowed ↦ absurd (
          ground
            (arith, signature_unlimited peer (record s { limiter = (check s.limiter peer now).0 })))
      | inr over ↦ record { named = named; held = rw (named, over) refl }
    ]
  ]

  size_limited :
      (peer : Text) (s : DaemonState sha256 A)
      → is_limited (check_size sha256 A security chunk peer now s).1 ≡ true
      → Banned peer s (check_size sha256 A security chunk peer now s).0
  unfolding check_size is_limited
  size_limited peer s h =
      elim (Bool-cases (ltb security.max_chunk_content_bytes (content_bytes chunk))) [
        | inl big ↦ absurd (ground arith)
        | inr fits ↦ elim (Bool-cases (ltb security.max_envelope_body_bytes (body_bytes chunk))) [
          | inl big ↦ absurd (ground arith)
          | inr fits' ↦ rw (fits, fits') (rate_limited peer s (rw (fits, fits', check_size) at h))
        ]
      ]

  ingest_limited :
      (s : DaemonState sha256 A)
      → is_limited (check_ingest_security sha256 A security chunk now s).1 ≡ true
      → Banned (peer_id_of chunk) s (check_ingest_security sha256 A security chunk now s).0
  unfolding check_ingest_security ask_blacklist is_limited
  ingest_limited s h = elim (Bool-cases (truthy (peer_id_of chunk))) [
    | inr unnamed ↦
        rw unnamed (size_limited (peer_id_of chunk) s (rw (unnamed, check_ingest_security) at h))
    | inl named ↦ elim (Bool-cases (is_blacklisted A s.reputation (peer_id_of chunk) now).1) [
      | inl out ↦ absurd (ground arith)
      | inr fine ↦
          let r = (is_blacklisted A s.reputation (peer_id_of chunk) now).0 in
          let b =
            size_limited (peer_id_of chunk) (record s { reputation = r })
              (rw (named, fine, check_ingest_security) at h) in
          rw (named, fine) (record { named = b.named; held = b.held })
    ]
  ]

-- When the guard has refused a chunk because its peer is over its rate, it admits no chunk that names
-- this peer before one window has passed (with no other chunk in between).
pub limited_peer_out :
    (sha256 : Text → Text) (A : ScoreArith) (security : Security) (first second : IncomingChunk)
    (now later : ℕ) (s : DaemonState sha256 A)
    → (check_ingest_security sha256 A security first now s).1 ≡ refused 429 rate_limit_exceeded
    → peer_id_of second ≡ peer_id_of first
    → later < now + security.rate_limit_window_ms
    → (check_ingest_security sha256 A security second later
        (check_ingest_security sha256 A security first now s).0).1
      ≢ ok
unfolding is_limited
limited_peer_out sha256 A security first second now later s h same soon admitted =
    let peer = peer_id_of first in
    let t = (check_ingest_security sha256 A security first now s).0 in
    let banned = ingest_limited sha256 A security first now s (rw h refl) in
    let out : ltb later (now + security.rate_limit_window_ms) ≡ true = ground arith in
    let fits = (check_ingest_security-ok_iff sha256 A security second later t).0 admitted in
    let refused_at =
      (check-soft_ban (check s.limiter peer now).0 peer security.rate_limit_window_ms now
        later).1 in
    let allowed = (fits.0 (rw same (banned.named))).1 in
    let allowed' = rw (same, banned.held, refused_at, out) at allowed in
    absurd (ground (arith, allowed'))
