-- ===== src/Samples.antt =====
-- Chunks, queries and a score for the tests of several modules.
use subspace_transceiver.Prelude.{
  ℕ, ◌+◌, ◌*◌, ◌/◌, ◌^◌, ◌==◌, ltb, [], ◌∷◌, Option, none, some, false,
}
use subspace_transceiver.Prelude.Text.{Text, codes}
use subspace_transceiver.Reputation.{ScoreArith, one_hour}
use subspace_transceiver.Schema.{MemoryChunk, MemoryQuery, MemoryType, MemoryNamespace}

abbrev pub chunk_at : Text → ℕ → Option Text → MemoryChunk
chunk_at id timestamp supersedes = record {
  id = id;
  kind = MemoryType.skill;
  namespace = MemoryNamespace.skill;
  topic = codes "Async" ∷ [];
  content = codes "text";
  source = record {
    agent_id = codes "agent";
    peer_id = codes "peer-0001";
    project = none;
    session_id = none;
    timestamp = timestamp;
  };
  ttl = none;
  confidence = 80;
  network = codes "net";
  version = 1;
  supersedes = supersedes;
  collection = none;
  slug = none;
  content_envelope = none;
  links = none;
  signature = none;
  pow = none;
  origin = none;
  tombstone = false;
}

abbrev pub any_query : MemoryQuery
any_query = record {
  topics = none;
  kind = none;
  namespace = none;
  project = none;
  peer_id = none;
  collection = none;
  content_format = none;
  min_confidence = none;
  since = none;
  until = none;
  limit = none;
}

abbrev pub first : MemoryChunk
first = chunk_at (codes "a") 10 none

abbrev pub second : MemoryChunk
second = chunk_at (codes "b") 20 (some (codes "a"))

abbrev pub other_second : MemoryChunk
other_second = chunk_at (codes "c") 30 (some (codes "a"))

-- A score as what was gained and what was lost; both halve with every full day.
abbrev pub whole : ScoreArith
whole = record {
  Score = ℕ × ℕ;
  zero_score = (0, 0);
  raise = λ x n. (x.0 + n, x.1);
  lower = λ x n. (x.0, x.1 + n);
  is_below = λ x n. ltb (x.0 + n) (x.1);
  is_tiny = λ x. x.0 == x.1;
  decayed =
      λ x elapsed. (x.0 / 2 ^ (elapsed / (24 * one_hour)), x.1 / 2 ^ (elapsed / (24 * one_hour)));
  rounded = λ x. x;
}
