-- ===== src/Ingest/Overlap.antt =====
-- packages/daemon/src/api.ts: guards of `checkIngestSecurity` that overlap. For a signed chunk of a named
-- peer the code awaits `import('@subspace-net/core')` between `rateLimiter.check` and the rest; other
-- chunks may arrive there, and those that wait go on in any order.
use subspace_transceiver.Prelude.{
  ℕ, zero, suc, ◌≤◌, ◌≡◌, refl, Bool, true, false, ◌&&◌, ltb, List, [], ◌∷◌, ◌++◌, Option, none,
  some, if◌then◌else◌, Bool-cases, inl, inr,
}
use subspace_transceiver.Prelude.Text.{Text, text_eq, truthy}
use subspace_transceiver.RateLimiter.{soft_ban}
use subspace_transceiver.Reputation.{ScoreArith, rate_limit_violation, oversized_content}
use subspace_transceiver.Ingest.{
  IncomingChunk, Security, IngestResult, refused, peer_blacklisted, content_too_large,
  rate_limit_exceeded, peer_id_of, content_bytes, body_bytes, is_signed, DaemonState, note,
  ask_blacklist, ask_limiter, check_pow, check_signature, check_rate, check_size,
  check_ingest_security,
}
use subspace_transceiver.Ingest.Rate.{is_ok}

-- How the first part of a guard ends: with the result, or at the await.
pub data Begun : Type 0 where
  ended : IngestResult → Begun
  awaits : Begun

-- A chunk arrives, or the guard of a chunk that waits goes on, which is given by its place.
pub data GuardEvent : Type 0 where
  arrives : IncomingChunk → (now : ℕ) → GuardEvent
  resumes : (place now : ℕ) → GuardEvent

abbrev pub instant : GuardEvent → ℕ
instant (arrives chunk now) = now
instant (resumes place now) = now

-- The chunk at a place, and the others.
unfoldable pub take_out : ℕ → List IncomingChunk → Option (IncomingChunk × List IncomingChunk)
take_out n [] = none
take_out zero (c ∷ cs) = some (c, cs)
take_out (suc n) (c ∷ cs) = elim (take_out n cs) [ none ↦ none | some p ↦ some (p.0, c ∷ p.1) ]

-- A guard of the peer has ended and admits its chunk.
unfoldable pub admits : Text → Option (IncomingChunk × IngestResult) → Bool
admits p none = false
admits p (some (chunk, result)) = text_eq (peer_id_of chunk) p && is_ok result

-- The clock does not go back.
abbrev pub InOrder : ℕ → List GuardEvent → Type 0
InOrder last [] = Unit
InOrder last (e ∷ events) = (last ≤ instant e) × InOrder (instant e) events

-- How many guards of the peer await.
unfoldable pub waiting : Text → List IncomingChunk → ℕ
waiting p [] = 0
waiting p (c ∷ cs) = let rest = waiting p cs in if text_eq (peer_id_of c) p then suc rest else rest

module _ (sha256 : Text → Text) (A : ScoreArith) where
  -- Step 3, and the rest of the guard where nothing is awaited.
  unfoldable pub begin_rate :
      Security → IncomingChunk → Text → ℕ → DaemonState sha256 A → DaemonState sha256 A × Begun
  begin_rate security chunk peer now s =
      let (t, allowed) = ask_limiter sha256 A peer now s in
      if allowed
      then (if is_signed chunk && truthy peer
          then (t, awaits)
          else (let (u, result) = check_signature sha256 A security chunk peer now t in
              (u, ended result)))
      else (
        record (note sha256 A peer rate_limit_violation now t) {
          limiter = soft_ban t.limiter peer security.rate_limit_window_ms now;
        },
        ended (refused 429 rate_limit_exceeded),
      )

  -- Step 2
  unfoldable pub begin_size :
      Security → IncomingChunk → Text → ℕ → DaemonState sha256 A → DaemonState sha256 A × Begun
  begin_size security chunk peer now s =
      if ltb security.max_chunk_content_bytes (content_bytes chunk)
      then (note sha256 A peer oversized_content now s, ended (refused 413 content_too_large))
      else if ltb security.max_envelope_body_bytes (body_bytes chunk)
      then (note sha256 A peer oversized_content now s, ended (refused 413 content_too_large))
      else begin_rate security chunk peer now s

  -- The guard up to its await, or to its end where it awaits nothing.
  unfoldable pub begin_ingest :
      Security → IncomingChunk → ℕ → DaemonState sha256 A → DaemonState sha256 A × Begun
  begin_ingest security chunk now s =
      let peer = peer_id_of chunk in
      let (t, banned) = ask_blacklist sha256 A peer now s in
      if banned
      then (t, ended (refused 403 peer_blacklisted))
      else begin_size security chunk peer now t

  -- The guard after its await.
  abbrev pub resume_ingest :
      Security → IncomingChunk → ℕ → DaemonState sha256 A → DaemonState sha256 A × IngestResult
  resume_ingest security chunk now s = check_pow sha256 A security chunk (peer_id_of chunk) now s

  -- Go on at once.
  unfoldable pub at_once :
      Security
      → IncomingChunk
      → ℕ
      → DaemonState sha256 A × Begun
      → DaemonState sha256 A × IngestResult
  at_once security chunk now (s, ended result) = (s, result)
  at_once security chunk now (s, awaits) = resume_ingest security chunk now s

  -- A guard that goes on at once is the guard.
  pub resume-begin_ingest :
      (security : Security) (chunk : IncomingChunk) (now : ℕ) (s : DaemonState sha256 A)
      → at_once security chunk now (begin_ingest security chunk now s)
        ≡ check_ingest_security sha256 A security chunk now s
  unfolding at_once begin_ingest begin_size begin_rate check_ingest_security check_size check_rate
      check_signature
  resume-begin_ingest security chunk now s =
      let peer = peer_id_of chunk in
      let asked = ask_blacklist sha256 A peer now s in
      elim (Bool-cases asked.1) [
        | inl out ↦ rw out refl
        | inr fine ↦
            elim (Bool-cases (ltb security.max_chunk_content_bytes (content_bytes chunk))) [
              | inl big ↦ rw (fine, big) refl
              | inr fits ↦
                  elim (Bool-cases (ltb security.max_envelope_body_bytes (body_bytes chunk))) [
                    | inl big ↦ rw (fine, fits, big) refl
                    | inr fits' ↦ elim (Bool-cases (ask_limiter sha256 A peer now asked.0).1) [
                      | inr over ↦ rw (fine, fits, fits', over) refl
                      | inl allowed ↦ elim (Bool-cases (is_signed chunk && truthy peer)) [
                        | inl signed ↦ rw (fine, fits, fits', allowed, signed) refl
                        | inr plain ↦ rw (fine, fits, fits', allowed, plain) refl
                      ]
                    ]
                  ]
            ]
      ]

  -- The guards of the daemon: its state, and the chunks whose guard awaits.
  pub record Guards : Type 0 where
    pub state : DaemonState sha256 A
    pub awaiting : List IncomingChunk

  unfoldable pub after_begin :
      IncomingChunk
      → List IncomingChunk
      → DaemonState sha256 A × Begun
      → Guards × Option (IncomingChunk × IngestResult)
  after_begin chunk waiting (s, ended result) =
      (record { state = s; awaiting = waiting }, some (chunk, result))
  after_begin chunk waiting (s, awaits) =
      (record { state = s; awaiting = waiting ++ chunk ∷ [] }, none)

  -- The guards after an event, and the result of the guard that it ends.
  unfoldable pub guard_step :
      Security → GuardEvent → Guards → Guards × Option (IncomingChunk × IngestResult)
  unfolding after_begin
  guard_step security (arrives chunk now) g =
      after_begin chunk g.awaiting (begin_ingest security chunk now g.state)
  guard_step security (resumes place now) g = elim (take_out place g.awaiting) [
    | none ↦ (g, none)
    | some p ↦
        let (s, result) = resume_ingest security p.0 now g.state in
        (record { state = s; awaiting = p.1 }, some (p.0, result))
  ]

  -- The instants at which events have a chunk of the peer admitted.
  unfoldable pub admissions : Security → List GuardEvent → Guards → Text → List ℕ
  admissions security [] g p = []
  admissions security (e ∷ events) g p =
      let (later, result) = guard_step security e g in
      (if admits p result then instant e ∷ [] else []) ++ admissions security events later p

  abbrev pub Joins : ℕ → Text → GuardEvent → Guards → Type 0
  Joins others p (arrives chunk now) g =
      text_eq (peer_id_of chunk) p ≡ true → waiting p g.awaiting ≤ others
  Joins others p (resumes place now) g = Unit

  -- Whenever a chunk of the peer arrives, at most `others` guards of the peer await.
  abbrev pub AtMost : Security → ℕ → Text → List GuardEvent → Guards → Type 0
  AtMost security others p [] g = Unit
  AtMost security others p (e ∷ events) g =
      Joins others p e g × AtMost security others p events ((guard_step security e g).0)
