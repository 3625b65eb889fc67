-- ===== src/Ingest/Signature.antt =====
-- What the guard makes of a signature.
use subspace_transceiver.Prelude.{◌≡◌, refl, ℕ, true, some}
use subspace_transceiver.Prelude.Text.{Text, truthy}
use subspace_transceiver.Reputation.{ScoreArith}
use subspace_transceiver.Ingest.{
  IncomingChunk, Security, DaemonState, check_pow, check_signature, check_rate, check_size,
  check_ingest_security,
}

module _ (sha256 : Text → Text) (A : ScoreArith) where
  -- The guard's answer and the state that it leaves are the same for any two signatures that are not
  -- empty: it never verifies one.
  pub signature_unread :
      (security : Security) (chunk : IncomingChunk) (one other : Text) (now : ℕ)
      (s : DaemonState sha256 A)
      → truthy one ≡ true
      → truthy other ≡ true
      → check_ingest_security sha256 A security (record chunk { signature = some one }) now s
        ≡ check_ingest_security sha256 A security (record chunk { signature = some other }) now s
  unfolding check_ingest_security check_size check_rate check_signature check_pow
  signature_unread security chunk one other now s h k = rw (h, k) refl
