-- ===== src/Reputation/Runs.antt =====
-- What runs of the store's methods keep.
use subspace_transceiver.Prelude.{
  ℕ, ◌≡◌, sym, ◌∙◌, ap, subst, List, [], ◌∷◌, Option, some, arith, Bool-cases, Option-cases, inl,
  inr, All,
}
use subspace_transceiver.Prelude.Dict
use subspace_transceiver.Prelude.Text.{Text, text_eq, text_eq_iff}
use subspace_transceiver.Reputation.{
  ScoreArith, ScoreEvent, PeerRecord, ReputationStore, apply_decay, record_score, get_score,
  is_blacklisted, should_stop_replicating, clear_blacklist,
}

-- A call of the store: an event, the three questions, or an operator's forgiveness.
pub data Call : Type 0 where
  scored : Text → ScoreEvent → (now : ℕ) → Call
  ask_score : Text → (now : ℕ) → Call
  ask_ban : Text → (now : ℕ) → Call
  ask_stop : Text → (now : ℕ) → Call
  forgiven : Text → (now : ℕ) → Call

-- The call is for somebody else, or it is an event of the kind `E`, or, if `F` holds, a forgiveness,
-- or a question.
abbrev pub Fits : Text → (ScoreEvent → Type 0) → Type 0 → Call → Type 0
Fits peer E F (scored p event now) = p ≡ peer → E event
Fits peer E F (forgiven p now) = p ≡ peer → F
Fits peer E F _ = Unit

module _ (A : ScoreArith) where
  abbrev pub step : ReputationStore A → Call → ReputationStore A
  step s (scored peer event now) = record_score A s peer event now
  step s (ask_score peer now) = (get_score A s peer now).0
  step s (ask_ban peer now) = (is_blacklisted A s peer now).0
  step s (ask_stop peer now) = (should_stop_replicating A s peer now).0
  step s (forgiven peer now) = clear_blacklist A s peer now

  abbrev pub run : ReputationStore A → List Call → ReputationStore A
  run s [] = s
  run s (c ∷ cs) = run (step s c) cs

  -- What the methods keep of the record of one peer, if there is one.
  pub record IsKept (P : Option (PeerRecord A) → Type 0) (E : ScoreEvent → Type 0) (F : Type 0)
      : Type 0 where
    pub decays : (now : ℕ) (r : PeerRecord A) → P (some r) → P (some (apply_decay A now r))
    pub lifts : (r : PeerRecord A) → P (some r) → P (some (record r { blacklisted_until = 0 }))
    pub scores :
        (s : ReputationStore A) (peer : Text) (event : ScoreEvent) (now : ℕ)
        → E event
        → P (Dict.get peer s)
        → P (Dict.get peer (record_score A s peer event now))
    pub forgives :
        (s : ReputationStore A) (peer : Text) (now : ℕ)
        → F
        → P (Dict.get peer s)
        → P (Dict.get peer (clear_blacklist A s peer now))

  set-kept :
      (P : Option (PeerRecord A) → Type 0) (peer p : Text) (s : ReputationStore A)
      (q : PeerRecord A)
      → (p ≡ peer → P (some q))
      → P (Dict.get peer s)
      → P (Dict.get peer (Dict.set p q s))
  set-kept P peer p s q good h = elim (Bool-cases (text_eq p peer)) [
    | inl t ↦ rw (Dict.get-set p peer q s, t) (good ((text_eq_iff p peer).0 t))
    | inr f ↦ rw (Dict.get-set p peer q s, f) h
  ]

  module _ {P : Option (PeerRecord A) → Type 0} {E : ScoreEvent → Type 0} {F : Type 0}
      (k : IsKept P E F) (peer : Text) where
    get_score-kept :
        (s : ReputationStore A) (p : Text) (now : ℕ)
        → P (Dict.get peer s)
        → P (Dict.get peer (get_score A s p now).0)
    unfolding get_score
    get_score-kept s p now h = elim (Option-cases (Dict.get p s)) [
      | inl e ↦ rw (e, get_score) h
      | inr (r, e) ↦
          rw (e, get_score)
            (set-kept P peer p s (apply_decay A now r)
              (λ same. k.decays now r (subst P (ap (λ t. Dict.get t s) (sym same) ∙ e) h)) h)
    ]

    is_blacklisted-kept :
        (s : ReputationStore A) (p : Text) (now : ℕ)
        → P (Dict.get peer s)
        → P (Dict.get peer (is_blacklisted A s p now).0)
    unfolding is_blacklisted
    is_blacklisted-kept s p now h = elim (Option-cases (Dict.get p s)) [
      | inl e ↦ rw (e, is_blacklisted) h
      | inr (r, e) ↦
          let lifted =
            set-kept P peer p s (record r { blacklisted_until = 0 })
              (λ same. k.lifts r (subst P (ap (λ t. Dict.get t s) (sym same) ∙ e) h)) h in
          rw (e, is_blacklisted) (ground (arith, lifted, h))
    ]

    scored-kept :
        (s : ReputationStore A) (p : Text) (event : ScoreEvent) (now : ℕ)
        → (p ≡ peer → E event)
        → P (Dict.get peer s)
        → P (Dict.get peer (record_score A s p event now))
    unfolding record_score
    scored-kept s p event now fits h = elim (Bool-cases (text_eq p peer)) [
      | inl t ↦
          let same = (text_eq_iff p peer).0 t in
          subst (λ x. P (Dict.get peer (record_score A s x event now))) (sym same)
            (k.scores s peer event now (fits same) h)
      | inr f ↦ rw (Dict.get-set p peer _ s, f) h
    ]

    forgiven-kept :
        (s : ReputationStore A) (p : Text) (now : ℕ)
        → (p ≡ peer → F)
        → P (Dict.get peer s)
        → P (Dict.get peer (clear_blacklist A s p now))
    unfolding clear_blacklist
    forgiven-kept s p now fits h = elim (Bool-cases (text_eq p peer)) [
      | inl t ↦
          let same = (text_eq_iff p peer).0 t in
          subst (λ x. P (Dict.get peer (clear_blacklist A s x now))) (sym same)
            (k.forgives s peer now (fits same) h)
      | inr f ↦ elim (Option-cases (Dict.get p s)) [
        | inl e ↦ rw (e, clear_blacklist) h
        | inr (r, e) ↦ rw (e, clear_blacklist, Dict.get-set p peer _ s, f) h
      ]
    ]

    step-kept :
        (c : Call) (s : ReputationStore A)
        → Fits peer E F c
        → P (Dict.get peer s)
        → P (Dict.get peer (step s c))
    unfolding should_stop_replicating
    step-kept (scored p event now) s fits h = scored-kept s p event now fits h
    step-kept (ask_score p now) s fits h = get_score-kept s p now h
    step-kept (ask_ban p now) s fits h = is_blacklisted-kept s p now h
    step-kept (ask_stop p now) s fits h = get_score-kept s p now h
    step-kept (forgiven p now) s fits h = forgiven-kept s p now fits h

    pub run-kept :
        (cs : List Call) (s : ReputationStore A)
        → All (Fits peer E F) cs
        → P (Dict.get peer s)
        → P (Dict.get peer (run s cs))
    run-kept [] s fits h = h
    run-kept (c ∷ cs) s fits h = run-kept cs (step s c) (fits.1) (step-kept c s (fits.0) h)
