-- ===== src/Reputation/Blacklist.antt =====
-- Who is blacklisted after which events.
use subspace_transceiver.Prelude.{
  ℕ, ◌+◌, ◌≡◌, ◌∙◌, Bool, false, ◌&&◌, ◌||◌, some, ltb, ◌==◌, if◌then◌else◌, arith,
}
use subspace_transceiver.Prelude.Dict
use subspace_transceiver.Prelude.Text.{Text}
use subspace_transceiver.Reputation.{
  ScoreArith, ScoreEvent, one_hour, add_delta, PeerRecord, ReputationStore, record_of, apply_decay,
  judged, record_score, is_blacklisted,
}

module _ (A : ScoreArith) where
  -- The score that an event leaves.
  abbrev pub new_score : ReputationStore A → Text → ScoreEvent → ℕ → A.Score
  new_score s peer event now = add_delta A (apply_decay A now (record_of A s peer now)).score event

  -- The end of the ban that an event leaves: a new hour only if no ban is noted, expired or not.
  abbrev pub new_end : ReputationStore A → Text → ScoreEvent → ℕ → ℕ
  new_end s peer event now =
      let r = record_of A s peer now in
      if A.is_below (new_score s peer event now) 100 && r.blacklisted_until == 0
      then now + one_hour
      else r.blacklisted_until

  pub judged_lem :
      (now : ℕ) (r : PeerRecord A)
      → ((judged A now r).is_permanently_blacklisted
          ≡ (r.is_permanently_blacklisted || A.is_below r.score 200))
        × (r.is_permanently_blacklisted ≡ false
            → A.is_below r.score 200 ≡ false
            → (judged A now r).blacklisted_until ≡ (
                if A.is_below r.score 100 && r.blacklisted_until == 0
                then now + one_hour
                else r.blacklisted_until))
  unfolding judged
  judged_lem now r = (ground arith, ground arith)

  unfoldable pub banned_by : PeerRecord A → ℕ → Bool
  banned_by r now = r.is_permanently_blacklisted || ltb now r.blacklisted_until

  pub is_blacklisted_known :
      (s : ReputationStore A) (peer : Text) (now : ℕ) (r : PeerRecord A)
      → Dict.get peer s ≡ some r
      → (is_blacklisted A s peer now).1 ≡ banned_by r now
  unfolding is_blacklisted banned_by
  is_blacklisted_known s peer now r h = rw (h, is_blacklisted) (ground arith)

  pub decay_same :
      (now : ℕ) (r : PeerRecord A)
      → ((apply_decay A now r).is_permanently_blacklisted ≡ r.is_permanently_blacklisted)
        × ((apply_decay A now r).blacklisted_until ≡ r.blacklisted_until)
  unfolding apply_decay
  decay_same now r = ground arith

  -- Whether a peer is blacklisted after an event of its own: for ever, if it was so or its new score
  -- is below -200; else until its ban ends, which the event sets to an hour from now if the new score
  -- is below -100 and no ban is noted.
  pub record_score-is_blacklisted :
      (s : ReputationStore A) (peer : Text) (event : ScoreEvent) (now later : ℕ)
      → (is_blacklisted A (record_score A s peer event now) peer later).1 ≡ (
          (record_of A s peer now).is_permanently_blacklisted
          || A.is_below (new_score s peer event now) 200
          || ltb later (new_end s peer event now))
  unfolding record_score banned_by
  record_score-is_blacklisted s peer event now later =
      let r = apply_decay A now (record_of A s peer now) in
      let q = judged A now (record r { score = add_delta A r.score event; last_updated = now }) in
      is_blacklisted_known _ peer later q (Dict.get-set_self peer q s)
      ∙ ground (
        arith,
        judged_lem now (record r { score = add_delta A r.score event; last_updated = now }),
        decay_same now (record_of A s peer now),
      )
