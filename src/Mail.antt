-- ===== src/Mail.antt =====
-- packages/core/src/mail.ts: the envelope, and when it has expired. `Date.now()` is `now`.
pub mod Relay
pub mod FileRelay
pub mod Boxes
use subspace_transceiver.Prelude.{ℕ, ◌+◌, ◌*◌, Bool, Option, ltb}
use subspace_transceiver.Prelude.Text.{Text}

pub record MailEnvelope : Type 0 where
  pub id : Text
  pub from : Text
  pub to : Text
  pub payload : Text
  pub ephemeral_pub_key : Text
  pub nonce : Text
  pub auth_tag : Text
  pub signature : Text
  pub timestamp : ℕ
  pub ttl : ℕ
  pub content_type : Option Text

unfoldable pub is_envelope_expired : ℕ → MailEnvelope → Bool
is_envelope_expired now e = ltb (e.timestamp + e.ttl * 1000) now
