-- ===== src/Ingest/Tests.antt =====
-- The guard at work, and its theorems at concrete inputs.
use subspace_transceiver.Prelude.{
  ◌+◌, ◌≤◌, ◌≡◌, ◌↔◌, refl, true, false, List, [], ◌∷◌, none, some, arith,
}
use subspace_transceiver.Prelude.Dict
use subspace_transceiver.Prelude.Text.{Text, codes, text_eq}
use subspace_transceiver.Samples.{whole}
use subspace_transceiver.RateLimiter.{
  new_limiter, get_or_create, stale_count, prune, count_window, check_window, check, record_event,
  soft_ban,
}
use subspace_transceiver.RateLimiter.Window.{count_in}
use subspace_transceiver.Reputation.{
  add_delta, record_of, apply_decay, judged, record_score, is_blacklisted,
}
use subspace_transceiver.Ingest.{
  IncomingChunk, Security, ok, refused, rate_limit_exceeded, byte_length, content_bytes, body_bytes,
  is_signed, DaemonState, note, ask_blacklist, ask_limiter, admit, check_pow, check_signature,
  check_rate, check_size, check_ingest_security,
}
use subspace_transceiver.Ingest.Guards.{PeerFits, PowFits, check_ingest_security-ok_iff}
use subspace_transceiver.Ingest.Overlap.{
  GuardEvent, arrives, resumes, Guards, begin_rate, begin_size, begin_ingest, take_out, after_begin,
  guard_step, admits, admissions, waiting, AtMost,
}
use subspace_transceiver.Ingest.Admitted.{admissions-bound}

ingest : Unit {0}
unfolding new_limiter get_or_create stale_count prune count_window check_window check record_event
    soft_ban add_delta record_of apply_decay judged record_score is_blacklisted byte_length note
    ask_blacklist ask_limiter admit check_pow check_signature check_rate check_size
    check_ingest_security begin_rate begin_size begin_ingest take_out after_begin guard_step admits
    admissions waiting Dict.get Dict.set text_eq
ingest = tt

-- "aé€😀" takes 1 + 2 + 3 + 4 bytes.
ten_bytes : byte_length (97 ∷ 233 ∷ 8364 ∷ 55357 ∷ 56832 ∷ []) ≡ 10
unfolding ingest
ten_bytes = refl

abbrev plain : Text → Text
plain s = s

abbrev security : Security
security = record {
  max_chunk_content_bytes = 10;
  max_envelope_body_bytes = 100;
  rate_limit_window_ms = 1000;
  require_signatures = false;
  require_pow = false;
  pow_bits_for_chunks = 20;
  pow_window_ms = 3_600_000;
}

abbrev chunk_of : Text → Text → IncomingChunk
chunk_of peer content = record {
  content = some content;
  content_envelope = none;
  source = some (record {
    agent_id = codes "a1";
    peer_id = peer;
    project = none;
    session_id = none;
    timestamp = 1;
  });
  signature = none;
  pow = none;
}

abbrev start : DaemonState plain whole
start = record { limiter = new_limiter 2 1000; reputation = [] }

abbrev note_ann : IncomingChunk
note_ann = chunk_of (codes "ann") (codes "hello")

check_ingest_security-ok_iff_example :
    ((check_ingest_security plain whole security note_ann 5 start).1 ≡ ok) ↔ (
      PeerFits plain whole note_ann 5 start
      × (content_bytes note_ann ≤ 10)
      × (body_bytes note_ann ≤ 100)
      × (false ≡ true → is_signed note_ann ≡ true)
      × PowFits plain security (codes "ann") 5 none)
check_ingest_security-ok_iff_example =
    check_ingest_security-ok_iff plain whole security note_ann 5 start

abbrev signed_note : IncomingChunk
signed_note = record note_ann { signature = some (codes "s") }

-- Three chunks of one peer that allows two: the signed ones wait, and the third is recorded beside them.
abbrev events : List GuardEvent
events =
    arrives signed_note 5
    ∷ arrives (chunk_of (codes "ann") (codes "much too long")) 6
    ∷ arrives signed_note 7
    ∷ arrives (chunk_of [] (codes "anonymous")) 7
    ∷ arrives note_ann 8
    ∷ resumes 1 9
    ∷ resumes 0 10
    ∷ arrives note_ann 11
    ∷ arrives note_ann 1012
    ∷ arrives note_ann 2013
    ∷ []

abbrev idle : Guards plain whole
idle = record { state = start; awaiting = [] }

admitted_at :
    admissions plain whole security events idle (codes "ann") ≡ 8 ∷ 9 ∷ 10 ∷ 1012 ∷ 2013 ∷ []
unfolding ingest
admitted_at = refl

few : AtMost plain whole security 2 (codes "ann") events idle
unfolding ingest
few = (
  λ e. omega arith,
  (
    λ e. omega arith,
    (
      λ e. omega arith,
      (
        λ e. omega arith,
        (
          λ e. omega arith,
          (tt, (tt, (λ e. omega arith, (λ e. omega arith, (λ e. omega arith, tt))))),
        ),
      ),
    ),
  ),
)

admissions-bound_example :
    count_in 1000 1005 (admissions plain whole security events idle (codes "ann")) ≤ 2 + 2
admissions-bound_example =
    admissions-bound plain whole security 2 1000 2 start events (codes "ann") 1005 refl
      (omega arith) refl few

abbrev busy : DaemonState plain whole
busy =
    (check_ingest_security plain whole security note_ann 7
      (check_ingest_security plain whole security note_ann 5 start).0).0

over_rate :
    (check_ingest_security plain whole security note_ann 8 busy).1 ≡ refused 429 rate_limit_exceeded
unfolding ingest
over_rate = refl
