-- ===== src/Reputation/Standing.antt =====
-- A peer that is blacklisted for good, and one that sends only valid content.
use subspace_transceiver.Prelude.{
  ℕ, ◌-◌, ◌≡◌, refl, ◌∙◌, true, false, List, Option, none, some, arith, Option-cases, inl, inr, All,
}
use subspace_transceiver.Prelude.Dict
use subspace_transceiver.Prelude.Text.{Text}
use subspace_transceiver.Reputation.{
  ScoreArith, ScoreEvent, valid_content, add_delta, PeerRecord, ReputationStore, record_of,
  apply_decay, judged, record_score, is_blacklisted, clear_blacklist,
}
use subspace_transceiver.Reputation.Blacklist.{
  judged_lem, decay_same, banned_by, is_blacklisted_known,
}
use subspace_transceiver.Reputation.Runs.{Call, Fits, run, IsKept, run-kept}

module _ (A : ScoreArith) where
  abbrev pub IsPermanent : Option (PeerRecord A) → Type 0
  IsPermanent none = ⊥
  IsPermanent (some r) = r.is_permanently_blacklisted ≡ true

  IsPermanent-scored :
      (s : ReputationStore A) (peer : Text) (event : ScoreEvent) (now : ℕ)
      → IsPermanent (Dict.get peer s)
      → IsPermanent (Dict.get peer (record_score A s peer event now))
  unfolding record_score record_of
  IsPermanent-scored s peer event now h = elim (Option-cases (Dict.get peer s)) [
    | inl e ↦ absurd (rw e at h)
    | inr (r, e) ↦
        let was : r.is_permanently_blacklisted ≡ true = rw e at h in
        let d = apply_decay A now r in
        rw (Dict.get-set_self, e)
          (ground (
            arith,
            judged_lem A now (record d { score = add_delta A d.score event; last_updated = now }),
            decay_same A now r,
          ))
  ]

  IsPermanent-IsKept : IsKept A IsPermanent (λ event. Unit) ⊥
  IsPermanent-IsKept = record {
    decays = λ now r h. (decay_same A now r).0 ∙ h;
    lifts = λ r h. h;
    scores = λ s peer event now fits h. IsPermanent-scored s peer event now h;
    forgives = λ s peer now never h. absurd never;
  }

  -- A peer that is permanently blacklisted stays so through any further events, questions and
  -- decay, until an operator clears it.
  pub blacklisted_for_good :
      (s : ReputationStore A) (peer : Text) (cs : List Call) (later : ℕ)
      → IsPermanent (Dict.get peer s)
      → All (Fits peer (λ event. Unit) ⊥) cs
      → (is_blacklisted A (run A s cs) peer later).1 ≡ true
  unfolding banned_by
  blacklisted_for_good s peer cs later h fits =
      let kept = run-kept A IsPermanent-IsKept peer cs s fits h in
      elim (Option-cases (Dict.get peer (run A s cs))) [
        | inl e ↦ absurd (rw e at kept)
        | inr (r, e) ↦
            let permanent : r.is_permanently_blacklisted ≡ true = rw e at kept in
            is_blacklisted_known A (run A s cs) peer later r e ∙ ground arith
      ]

  is_blacklisted_unknown :
      (s : ReputationStore A) (peer : Text) (now : ℕ)
      → Dict.get peer s ≡ none
      → (is_blacklisted A s peer now).1 ≡ false
  unfolding is_blacklisted
  is_blacklisted_unknown s peer now e = rw (e, is_blacklisted) refl

  -- What the store relies on for scores that never fall: `Good` are the scores from 0 up.
  pub record IsGood (Good : A.Score → Type 0) : Type 0 where
    pub zero_good : Good A.zero_score
    pub raise_good : (x : A.Score) → Good x → Good (A.raise x 1)
    pub decayed_good : (x : A.Score) (elapsed : ℕ) → Good x → Good (A.decayed x elapsed)
    pub above : (x : A.Score) (n : ℕ) → Good x → A.is_below x n ≡ false

  module _ {Good : A.Score → Type 0} (g : IsGood Good) where
    unfoldable IsClean : Option (PeerRecord A) → Type 0
    IsClean none = Unit
    IsClean (some r) =
        Good r.score × (r.blacklisted_until ≡ 0) × (r.is_permanently_blacklisted ≡ false)

    decay-IsClean :
        (now : ℕ) (r : PeerRecord A) → IsClean (some r) → IsClean (some (apply_decay A now r))
    unfolding apply_decay IsClean
    decay-IsClean now r h =
        ground (arith, g.zero_good, g.decayed_good r.score (now - r.last_updated) (h.0))

    judged-IsClean :
        (now : ℕ) (r : PeerRecord A) → IsClean (some r) → IsClean (some (judged A now r))
    unfolding judged IsClean
    judged-IsClean now r h = ground (arith, g.above r.score 200 (h.0), g.above r.score 100 (h.0))

    valid-IsClean :
        (now : ℕ) (r : PeerRecord A)
        → IsClean (some r)
        → IsClean
            (some (record r { score = add_delta A r.score valid_content; last_updated = now }))
    unfolding add_delta IsClean
    valid-IsClean now r h = (g.raise_good r.score (h.0), h.1, h.2)

    record_of-IsClean :
        (s : ReputationStore A) (peer : Text) (now : ℕ)
        → IsClean (Dict.get peer s)
        → IsClean (some (record_of A s peer now))
    unfolding record_of IsClean
    record_of-IsClean s peer now h = elim (Option-cases (Dict.get peer s)) [
      | inl e ↦ rw e (g.zero_good, refl, refl)
      | inr (r, e) ↦ rw e (rw e at h)
    ]

    IsClean-IsKept : IsKept A IsClean (λ event. event ≡ valid_content) Unit
    unfolding record_score clear_blacklist IsClean
    IsClean-IsKept = record {
      decays = decay-IsClean;
      lifts = λ r h. (h.0, refl, h.2);
      scores = λ s peer event now fits h.
          rw (fits, Dict.get-set_self)
            (judged-IsClean now _ (
              valid-IsClean now (apply_decay A now (record_of A s peer now))
                (decay-IsClean now _ (record_of-IsClean s peer now h))));
      forgives = λ s peer now _ h. elim (Option-cases (Dict.get peer s)) [
        | inl e ↦ rw (e, clear_blacklist) h
        | inr (r, e) ↦ rw (e, clear_blacklist, Dict.get-set_self) (g.zero_good, refl, refl)
      ];
    }

    -- A peer that is unknown at first and of which every event is valid content is never blacklisted,
    -- whatever happens to other peers.
    pub never_blacklisted :
        (s : ReputationStore A) (peer : Text) (cs : List Call) (later : ℕ)
        → Dict.get peer s ≡ none
        → All (Fits peer (λ event. event ≡ valid_content) Unit) cs
        → (is_blacklisted A (run A s cs) peer later).1 ≡ false
    unfolding banned_by IsClean
    never_blacklisted s peer cs later unknown fits =
        let kept = run-kept A IsClean-IsKept peer cs s fits (rw unknown tt) in
        elim (Option-cases (Dict.get peer (run A s cs))) [
          | inl e ↦ is_blacklisted_unknown (run A s cs) peer later e
          | inr (r, e) ↦
              let clean : IsClean (some r) = rw e at kept in
              is_blacklisted_known A (run A s cs) peer later r e ∙ ground arith
        ]
