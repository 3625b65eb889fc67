-- ===== src/Ingest.antt =====
-- packages/daemon/src/api.ts: `checkIngestSecurity`, the guard of every chunk that is added, over the
-- daemon's rate limiter and reputation store. SHA-256 and the arithmetic of scores are parameters. A
-- refusal keeps its HTTP status and its code, not the text of the message. Here the guard of a chunk runs
-- without interruption; in the code that of a signed chunk awaits an import after the check of the rate,
-- and Overlap cuts it there.
pub mod Guards
pub mod Rate
pub mod Overlap
pub mod Begun
pub mod Admitted
pub mod Limited
pub mod Signature
mod Tests
use subspace_transceiver.Prelude.{
  ℕ, ◌+◌, Bool, true, false, not, ◌&&◌, ◌||◌, List, [], ◌∷◌, Option, none, some, ltb, leb,
  if◌then◌else◌, or_else, map,
}
use mathlib.Core.Option.{map as option_map}
use subspace_transceiver.Prelude.Text.{Text, codes, truthy}
use subspace_transceiver.Schema.{ContentEnvelope, Source, HashcashStamp}
use subspace_transceiver.RateLimiter.{RateLimiter, check, record_event, soft_ban}
use subspace_transceiver.Reputation.{
  ScoreArith, ScoreEvent, valid_content, rate_limit_violation, signature_failure, oversized_content,
  ReputationStore, record_score, is_blacklisted,
}
use subspace_transceiver.Pow.{verify_stamp}

-- The fields of `Partial<MemoryChunk>` that the guard reads.
pub record IncomingChunk : Type 0 where
  pub content : Option Text
  pub content_envelope : Option ContentEnvelope
  pub source : Option Source
  pub signature : Option Text
  pub pow : Option HashcashStamp

-- The part of the daemon's configuration that the guard reads.
pub record Security : Type 0 where
  pub max_chunk_content_bytes : ℕ
  pub max_envelope_body_bytes : ℕ
  pub rate_limit_window_ms : ℕ
  pub require_signatures : Bool
  pub require_pow : Bool
  pub pow_bits_for_chunks : ℕ
  pub pow_window_ms : ℕ

pub data ErrorCode : Type 0 where
  peer_blacklisted content_too_large rate_limit_exceeded signature_invalid proof_of_work_invalid :
      ErrorCode

pub data IngestResult : Type 0 where
  ok : IngestResult
  refused : (status : ℕ) → ErrorCode → IngestResult

-- The bytes of one code unit that is no half of a pair; a lone half becomes U+FFFD.
abbrev unit_bytes : ℕ → ℕ
unit_bytes c = if ltb c 128 then 1 else if ltb c 2048 then 2 else 3

abbrev is_pair : ℕ → ℕ → Bool
is_pair c d = leb 55296 c && ltb c 56320 && leb 56320 d && ltb d 57344

-- `Buffer.byteLength(s, 'utf8')`
unfoldable pub byte_length : Text → ℕ
byte_length [] = 0
byte_length (c ∷ []) = unit_bytes c
byte_length (c ∷ d ∷ s) =
    let paired = byte_length s in
    let single = byte_length (d ∷ s) in if is_pair c d then 4 + paired else unit_bytes c + single

-- `chunk.source?.peerId ?? ''`
abbrev pub peer_id_of : IncomingChunk → Text
peer_id_of chunk = or_else (option_map (λ s. s.peer_id) chunk.source) []

abbrev pub content_bytes : IncomingChunk → ℕ
content_bytes chunk = byte_length (or_else chunk.content [])

abbrev pub body_bytes : IncomingChunk → ℕ
body_bytes chunk = byte_length (or_else (option_map (λ e. e.body) chunk.content_envelope) [])

abbrev pub is_signed : IncomingChunk → Bool
is_signed chunk = truthy (or_else chunk.signature [])

module _ (sha256 : Text → Text) (A : ScoreArith) where
  -- What the guard reads and changes of the daemon's state.
  pub record DaemonState : Type 0 where
    pub limiter : RateLimiter
    pub reputation : ReputationStore A

  -- `if (peerId) state.reputation.record(peerId, event)`
  unfoldable pub note : Text → ScoreEvent → ℕ → DaemonState → DaemonState
  note peer event now s =
      if truthy peer
      then record s { reputation = record_score A s.reputation peer event now }
      else s

  -- `peerId && state.reputation.isBlacklisted(peerId)`
  unfoldable pub ask_blacklist : Text → ℕ → DaemonState → DaemonState × Bool
  ask_blacklist peer now s =
      if truthy peer
      then (let (r, banned) = is_blacklisted A s.reputation peer now in
          (record s { reputation = r }, banned))
      else (s, false)

  -- `!peerId || state.rateLimiter.check(peerId)`
  unfoldable pub ask_limiter : Text → ℕ → DaemonState → DaemonState × Bool
  ask_limiter peer now s =
      if truthy peer
      then (let (l, allowed) = check s.limiter peer now in (record s { limiter = l }, allowed))
      else (s, true)

  -- The end of the guard: every check has passed.
  unfoldable pub admit : Text → ℕ → DaemonState → DaemonState × IngestResult
  unfolding note
  admit peer now s =
      if truthy peer
      then (
        note peer valid_content now (record s { limiter = record_event s.limiter peer now }),
        ok,
      )
      else (s, ok)

  -- Step 5, proof of work. A stamp of a chunk that names no peer is not verified.
  unfoldable pub check_pow :
      Security → IncomingChunk → Text → ℕ → DaemonState → DaemonState × IngestResult
  check_pow security chunk peer now s = elim chunk.pow [
    | some stamp ↦
        if truthy peer
          && not (
              verify_stamp sha256 stamp peer (codes "chunk") security.pow_bits_for_chunks
                security.pow_window_ms now)
        then (note peer signature_failure now s, refused 400 proof_of_work_invalid)
        else admit peer now s
    | none ↦
        if security.require_pow then (s, refused 400 proof_of_work_invalid) else admit peer now s
  ]

  -- Step 4: for a signed chunk the code looks up a key and does nothing with it.
  unfoldable pub check_signature :
      Security → IncomingChunk → Text → ℕ → DaemonState → DaemonState × IngestResult
  check_signature security chunk peer now s =
      if is_signed chunk && truthy peer
      then check_pow security chunk peer now s
      else if not (is_signed chunk) && security.require_signatures
      then (s, refused 400 signature_invalid)
      else check_pow security chunk peer now s

  -- Step 3: a peer over its rate is banned for one window.
  unfoldable pub check_rate :
      Security → IncomingChunk → Text → ℕ → DaemonState → DaemonState × IngestResult
  unfolding ask_limiter note
  check_rate security chunk peer now s =
      let (t, allowed) = ask_limiter peer now s in
      if allowed then check_signature security chunk peer now t else (
        record (note peer rate_limit_violation now t) {
          limiter = soft_ban t.limiter peer security.rate_limit_window_ms now;
        },
        refused 429 rate_limit_exceeded,
      )

  -- Step 2
  unfoldable pub check_size :
      Security → IncomingChunk → Text → ℕ → DaemonState → DaemonState × IngestResult
  check_size security chunk peer now s =
      if ltb security.max_chunk_content_bytes (content_bytes chunk)
      then (note peer oversized_content now s, refused 413 content_too_large)
      else if ltb security.max_envelope_body_bytes (body_bytes chunk)
      then (note peer oversized_content now s, refused 413 content_too_large)
      else check_rate security chunk peer now s

  unfoldable pub check_ingest_security :
      Security → IncomingChunk → ℕ → DaemonState → DaemonState × IngestResult
  check_ingest_security security chunk now s =
      let peer = peer_id_of chunk in
      let (t, banned) = ask_blacklist peer now s in
      if banned then (t, refused 403 peer_blacklisted) else check_size security chunk peer now t
