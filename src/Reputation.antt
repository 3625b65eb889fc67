-- ===== src/Reputation.antt =====
-- packages/core/src/reputation.ts: the score that a node keeps for each peer. Scores are floating-point
-- numbers, whose arithmetic is the interface `ScoreArith`; `Date.now()` is the argument `now`, and one
-- call reads the clock once. A method returns the new store, beside its result if it has one.
pub mod Blacklist
pub mod Runs
pub mod Standing
mod Tests
use subspace_transceiver.Prelude.{
  ℕ, ◌+◌, ◌-◌, ◌*◌, Bool, true, false, not, ◌&&◌, ◌||◌, List, [], ◌∷◌, Option, none, some, ltb,
  ◌==◌, if◌then◌else◌, or_else,
}
use subspace_transceiver.Prelude.Dict
use subspace_transceiver.Prelude.Text.{Text}

-- What the store does with scores.
pub record ScoreArith : Type 1 where
  pub Score : Type 0
  pub zero_score : Score
  -- `score + n` and `score - n`
  pub raise : Score → ℕ → Score
  pub lower : Score → ℕ → Score
  -- `score < -n`
  pub is_below : Score → ℕ → Bool
  -- `Math.abs(score) < 0.01`
  pub is_tiny : Score → Bool
  -- `score * Math.pow(0.5, elapsed / HALF_LIFE_MS)`
  pub decayed : Score → ℕ → Score
  -- `Math.round(score * 10) / 10`
  pub rounded : Score → Score

pub data ScoreEvent : Type 0 where
  valid_content invalid_content rate_limit_violation signature_failure oversized_content :
      ScoreEvent

abbrev pub one_hour : ℕ
one_hour = 60 * 60 * 1000

module _ (A : ScoreArith) where
  -- `score + SCORE_DELTA[event]`
  unfoldable pub add_delta : A.Score → ScoreEvent → A.Score
  add_delta score valid_content = A.raise score 1
  add_delta score invalid_content = A.lower score 10
  add_delta score rate_limit_violation = A.lower score 5
  add_delta score signature_failure = A.lower score 20
  add_delta score oversized_content = A.lower score 8

  pub record PeerRecord : Type 0 where
    pub score : A.Score
    pub last_updated : ℕ
    pub blacklisted_until : ℕ
    pub is_permanently_blacklisted : Bool

  -- The private map `peers`.
  abbrev pub ReputationStore : Type 0
  ReputationStore = List (Text × PeerRecord)

  unfoldable pub record_of : ReputationStore → Text → ℕ → PeerRecord
  record_of s peer now = or_else (Dict.get peer s) (record {
    score = A.zero_score;
    last_updated = now;
    blacklisted_until = 0;
    is_permanently_blacklisted = false;
  })

  unfoldable pub apply_decay : ℕ → PeerRecord → PeerRecord
  apply_decay now r =
      if A.is_tiny r.score
      then record r { score = A.zero_score }
      else if ltb now (r.last_updated + 1000)
      then r
      else record r { score = A.decayed r.score (now - r.last_updated); last_updated = now }

  -- The thresholds: below -200 for ever; below -100 for an hour, if no ban is noted.
  unfoldable pub judged : ℕ → PeerRecord → PeerRecord
  judged now r =
      if r.is_permanently_blacklisted
      then r
      else if A.is_below r.score 200
      then record r { is_permanently_blacklisted = true }
      else if A.is_below r.score 100 && r.blacklisted_until == 0
      then record r { blacklisted_until = now + one_hour }
      else r

  -- The method `record`.
  unfoldable pub record_score : ReputationStore → Text → ScoreEvent → ℕ → ReputationStore
  record_score s peer event now =
      let r = apply_decay now (record_of s peer now) in
      Dict.set peer (judged now (record r { score = add_delta r.score event; last_updated = now }))
        s

  unfoldable pub get_score : ReputationStore → Text → ℕ → ReputationStore × A.Score
  get_score s peer now = elim (Dict.get peer s) [
    | none ↦ (s, A.zero_score)
    | some r ↦ let r' = apply_decay now r in (Dict.set peer r' s, r'.score)
  ]

  -- `isBlacklisted` clears a ban that has expired.
  unfoldable pub is_blacklisted : ReputationStore → Text → ℕ → ReputationStore × Bool
  is_blacklisted s peer now = elim (Dict.get peer s) [
    | none ↦ (s, false)
    | some r ↦
        if r.is_permanently_blacklisted
        then (s, true)
        else if ltb 0 r.blacklisted_until
        then (if ltb now r.blacklisted_until
            then (s, true)
            else (Dict.set peer (record r { blacklisted_until = 0 }) s, false))
        else (s, false)
  ]

  unfoldable pub should_stop_replicating : ReputationStore → Text → ℕ → ReputationStore × Bool
  should_stop_replicating s peer now =
      let (s', score) = get_score s peer now in (s', A.is_below score 50)

  unfoldable pub clear_blacklist : ReputationStore → Text → ℕ → ReputationStore
  clear_blacklist s peer now = elim (Dict.get peer s) [
    | none ↦ s
    | some r ↦
        Dict.set peer
          (record {
            score = A.zero_score;
            last_updated = now;
            blacklisted_until = 0;
            is_permanently_blacklisted = false;
          })
          s
  ]

  pub record PeerSummary : Type 0 where
    pub peer_id : Text
    pub score : A.Score
    pub blacklisted : Bool
    pub permanent : Bool

  -- The `map` of `getAll` over the entries.
  unfoldable pub summaries :
      ReputationStore → ReputationStore → ℕ → ReputationStore × List PeerSummary
  summaries [] s now = (s, [])
  summaries ((peer, r) ∷ entries) s now =
      let r' = apply_decay now r in
      let (s', blacklisted) = is_blacklisted (Dict.set peer r' s) peer now in
      let (s'', rest) = summaries entries s' now in
      (
        s'',
        record {
          peer_id = peer;
          score = A.rounded r'.score;
          blacklisted = blacklisted;
          permanent = r'.is_permanently_blacklisted;
        }
            ∷ rest,
      )

  unfoldable pub get_all : ReputationStore → ℕ → ReputationStore × List PeerSummary
  get_all s now = summaries s s now
