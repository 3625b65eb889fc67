-- ===== src/Ingest/Guards.antt =====
-- Which chunks the guard admits.
use subspace_transceiver.Prelude.{
  ℕ, ◌≤◌, ◌≡◌, ◌↔◌, inl, inr, true, false, Option, none, some, arith, Option-cases,
}
use subspace_transceiver.Prelude.Text.{Text, codes, truthy}
use subspace_transceiver.Schema.{HashcashStamp}
use subspace_transceiver.RateLimiter.{check}
use subspace_transceiver.Reputation.{ScoreArith, is_blacklisted}
use subspace_transceiver.Pow.{verify_stamp}
use subspace_transceiver.Ingest.{
  IncomingChunk, Security, ok, peer_id_of, content_bytes, body_bytes, is_signed, DaemonState,
  ask_blacklist, ask_limiter, admit, check_pow, check_signature, check_rate, check_size,
  check_ingest_security,
}

module _ (sha256 : Text → Text) where
  -- The stamp will do: one that comes with a peer's name verifies, and none is missing that is
  -- required.
  abbrev pub PowFits : Security → Text → ℕ → Option HashcashStamp → Type 0
  PowFits security peer now none = security.require_pow ≡ false
  PowFits security peer now (some stamp) =
      truthy peer ≡ true
      → verify_stamp sha256 stamp peer (codes "chunk") security.pow_bits_for_chunks
          security.pow_window_ms now
        ≡ true

  module _ (A : ScoreArith) where
    -- A named peer is neither blacklisted nor over its rate.
    abbrev pub PeerFits : IncomingChunk → ℕ → DaemonState sha256 A → Type 0
    PeerFits chunk now s =
        truthy (peer_id_of chunk) ≡ true
        → ((is_blacklisted A s.reputation (peer_id_of chunk) now).1 ≡ false)
          × ((check s.limiter (peer_id_of chunk) now).1 ≡ true)

    admit_ok :
        (peer : Text) (now : ℕ) (s : DaemonState sha256 A) → (admit sha256 A peer now s).1 ≡ ok
    unfolding admit
    admit_ok peer now s = ground arith

    pow_iff :
        (security : Security) (chunk : IncomingChunk) (peer : Text) (now : ℕ)
        (s : DaemonState sha256 A)
        → ((check_pow sha256 A security chunk peer now s).1 ≡ ok)
          ↔ PowFits security peer now chunk.pow
    unfolding check_pow
    pow_iff security chunk peer now s = elim (Option-cases chunk.pow) [
      | inl e ↦ rw (e, check_pow) (ground (arith, admit_ok peer now s))
      | inr (stamp, e) ↦ rw (e, check_pow) (ground (arith, admit_ok peer now s))
    ]

    signature_iff :
        (security : Security) (chunk : IncomingChunk) (peer : Text) (now : ℕ)
        (s : DaemonState sha256 A)
        → ((check_signature sha256 A security chunk peer now s).1 ≡ ok) ↔ (
            (security.require_signatures ≡ true → is_signed chunk ≡ true)
            × ((check_pow sha256 A security chunk peer now s).1 ≡ ok))
    unfolding check_signature
    signature_iff security chunk peer now s = ground arith

    guarded_iff :
        (security : Security) (chunk : IncomingChunk) (peer : Text) (now : ℕ)
        (s : DaemonState sha256 A)
        → ((check_signature sha256 A security chunk peer now s).1 ≡ ok) ↔ (
            (security.require_signatures ≡ true → is_signed chunk ≡ true)
            × PowFits security peer now chunk.pow)
    guarded_iff security chunk peer now s =
        let outer = signature_iff security chunk peer now s in
        let inner = pow_iff security chunk peer now s in
        (λ h. ((outer.0 h).0, inner.0 ((outer.0 h).1)), λ h. outer.1 (h.0, inner.1 (h.1)))

    rate_iff :
        (security : Security) (chunk : IncomingChunk) (peer : Text) (now : ℕ)
        (s : DaemonState sha256 A)
        → ((check_rate sha256 A security chunk peer now s).1 ≡ ok) ↔ (
            (truthy peer ≡ true → (check s.limiter peer now).1 ≡ true)
            × ((check_signature sha256 A security chunk peer now
                  (ask_limiter sha256 A peer now s).0).1
                ≡ ok))
    unfolding check_rate ask_limiter
    rate_iff security chunk peer now s = ground arith

    size_iff :
        (security : Security) (chunk : IncomingChunk) (peer : Text) (now : ℕ)
        (s : DaemonState sha256 A)
        → ((check_size sha256 A security chunk peer now s).1 ≡ ok) ↔ (
            (content_bytes chunk ≤ security.max_chunk_content_bytes)
            × (body_bytes chunk ≤ security.max_envelope_body_bytes)
            × ((check_rate sha256 A security chunk peer now s).1 ≡ ok))
    unfolding check_size
    size_iff security chunk peer now s = ground arith

    blacklist_iff :
        (security : Security) (chunk : IncomingChunk) (now : ℕ) (s : DaemonState sha256 A)
        → ((check_ingest_security sha256 A security chunk now s).1 ≡ ok) ↔ (
            (truthy (peer_id_of chunk) ≡ true
              → (is_blacklisted A s.reputation (peer_id_of chunk) now).1 ≡ false)
            × ((check_size sha256 A security chunk
                  (peer_id_of chunk)
                  now
                  (ask_blacklist sha256 A (peer_id_of chunk) now s).0).1
                ≡ ok))
    unfolding check_ingest_security ask_blacklist
    blacklist_iff security chunk now s = ground arith

    limiter_same :
        (peer : Text) (now : ℕ) (s : DaemonState sha256 A)
        → (ask_blacklist sha256 A peer now s).0.limiter ≡ s.limiter
    unfolding ask_blacklist
    limiter_same peer now s = ground arith

    -- The guard admits a chunk exactly if all this holds: a named peer is neither blacklisted nor over
    -- its rate, content and body keep to their sizes in bytes, the chunk is signed if signatures are
    -- required, a stamp is there if one is required, and a named peer's stamp verifies.
    pub check_ingest_security-ok_iff :
        (security : Security) (chunk : IncomingChunk) (now : ℕ) (s : DaemonState sha256 A)
        → ((check_ingest_security sha256 A security chunk now s).1 ≡ ok) ↔ (
            PeerFits chunk now s
            × (content_bytes chunk ≤ security.max_chunk_content_bytes)
            × (body_bytes chunk ≤ security.max_envelope_body_bytes)
            × (security.require_signatures ≡ true → is_signed chunk ≡ true)
            × PowFits security (peer_id_of chunk) now chunk.pow)
    check_ingest_security-ok_iff security chunk now s =
        let peer = peer_id_of chunk in
        let t = (ask_blacklist sha256 A peer now s).0 in
        let blacklist = blacklist_iff security chunk now s in
        let size = size_iff security chunk peer now t in
        let rate = rate_iff security chunk peer now t in
        let rest = guarded_iff security chunk peer now (ask_limiter sha256 A peer now t).0 in
        let same = limiter_same peer now s in
        (
          λ h.
              let (clean, h) = blacklist.0 h in
              let (content, body, h) = size.0 h in
              let (allowed, h) = rate.0 h in
              let (signed, stamped) = rest.0 h in
              (λ named. (clean named, rw same at (allowed named)), content, body, signed, stamped),
          λ (fits, content, body, signed, stamped). blacklist.1 (
            λ named. (fits named).0,
            size.1 (
              content,
              body,
              rate.1 (λ named. rw same ((fits named).1), rest.1 (signed, stamped)),
            ),
          ),
        )
