-- ===== src/Mail/Relay/Removal.antt =====
-- Acknowledging and evicting envelopes, and the consistency of every state that is reached.
use subspace_transceiver.Prelude.{
  ℕ, ◌≡◌, refl, sym, ◌∙◌, Bool, false, List, [], ◌∷◌, Option, none, some, if◌then◌else◌, arith,
  Bool-cases, Option-cases, inl, inr, ◌⊎◌, subst,
}
use subspace_transceiver.Prelude.Dict
use subspace_transceiver.Prelude.Sets.{includes}
use subspace_transceiver.Prelude.Text.{Text, text_eq, text_eq_iff}
use subspace_transceiver.Mail.{MailEnvelope, is_envelope_expired}
use subspace_transceiver.Mail.Relay.{
  RelayStore, new_relay, deposit, drop_envelope, ack, evict_loop, evict,
}
use subspace_transceiver.Mail.Relay.Steps.{RelayStep, deposited, acked, evicted}
use subspace_transceiver.Mail.Relay.Consistency.{
  IsConsistent, IsFresh, store_envelope, stored-IsConsistent, dropped-IsConsistent,
}

-- Acknowledging ids removes exactly the envelopes with those ids, and keeps the maps in agreement.
pub ack_lem :
    (ids : List Text) (s : RelayStore)
    → IsConsistent s
    → IsConsistent (ack ids s).0
      × ((j : Text)
          → Dict.get j (ack ids s).0.envelopes
            ≡ (if includes ids j then none else Dict.get j s.envelopes))
unfolding ack includes
ack_lem [] s c = (c, λ j. refl)
ack_lem (id ∷ ids) s c = elim (Option-cases (Dict.get id s.envelopes)) [
  | inl e ↦
      let (kept, found) = ack_lem ids s c in
      (rw (e, ack) kept, λ j. rw (e, ack) (ground (arith, found j, text_eq_iff id j)))
  | inr (d, e) ↦
      let (kept, found) = ack_lem ids (drop_envelope d id s) (dropped-IsConsistent d id s c e) in
      (
        rw (e, ack) kept,
        λ j. rw (e, ack) (ground (arith, found j, Dict.get-delete id j s.envelopes)),
      )
]

-- Whether the entry with the key holds an expired envelope.
abbrev expired_in : ℕ → Text → List (Text × MailEnvelope) → Bool
expired_in now j [] = false
expired_in now j ((id, e) ∷ entries) =
    if text_eq id j then is_envelope_expired now e else expired_in now j entries

expired_in-absent :
    (now : ℕ) (j : Text) (entries : List (Text × MailEnvelope))
    → Dict.get j entries ≡ none
    → expired_in now j entries ≡ false
unfolding Dict.get
expired_in-absent now j [] h = refl
expired_in-absent now j ((id, e) ∷ entries) h = ground (arith, expired_in-absent now j entries)

-- What an eviction leaves of a lookup.
abbrev pub young : ℕ → Option MailEnvelope → Option MailEnvelope
young now none = none
young now (some e) = if is_envelope_expired now e then none else some e

expired_in-get :
    (now : ℕ) (j : Text) (entries : List (Text × MailEnvelope))
    → (if expired_in now j entries then none else Dict.get j entries)
      ≡ young now (Dict.get j entries)
unfolding Dict.get
expired_in-get now j [] = refl
expired_in-get now j ((id, e) ∷ entries) = ground (arith, expired_in-get now j entries)

-- One round at a time: the entries that are still to come are in the map as they were.
evict_loop_lem :
    (now : ℕ) (entries : List (Text × MailEnvelope)) (s : RelayStore)
    → IsConsistent s
    → Dict.Distinct entries
    → Dict.AllFound entries s.envelopes
    → IsConsistent (evict_loop now entries s).0
      × ((j : Text)
          → Dict.get j (evict_loop now entries s).0.envelopes
            ≡ (if expired_in now j entries then none else Dict.get j s.envelopes))
unfolding evict_loop
evict_loop_lem now [] s c d a = (c, λ j. refl)
evict_loop_lem now ((id, e) ∷ entries) s c d a = elim (Bool-cases (is_envelope_expired now e)) [
  | inl old ↦
      let (kept, found) =
        evict_loop_lem now entries (drop_envelope e id s) (dropped-IsConsistent e id s c a.0) d.1
          (Dict.AllFound-delete id entries s.envelopes d.0 a.1) in
      (
        rw (old, evict_loop) kept,
        λ j.
            rw (old, evict_loop)
              (ground (arith, found j, Dict.get-delete id j s.envelopes, text_eq_iff id j)),
      )
  | inr young ↦
      let (kept, found) = evict_loop_lem now entries s c d.1 a.1 in
      (
        rw (young, evict_loop) kept,
        λ j.
            rw (young, evict_loop)
              (ground (arith, found j, text_eq_iff id j, expired_in-absent now id entries d.0)),
      )
]

-- Evicting at an instant removes exactly the envelopes that have expired by then, and keeps the maps
-- in agreement.
pub evict_lem :
    (now : ℕ) (s : RelayStore)
    → IsConsistent s
    → IsConsistent (evict now s).0
      × ((j : Text) → Dict.get j (evict now s).0.envelopes ≡ young now (Dict.get j s.envelopes))
unfolding evict
evict_lem now s c =
    let (kept, found) =
      evict_loop_lem now s.envelopes s c c.distinct (Dict.AllFound-self s.envelopes c.distinct) in
    (kept, λ j. found j ∙ expired_in-get now j s.envelopes)

deposit_cases :
    (now : ℕ) (e : MailEnvelope) (s : RelayStore)
    → ((deposit now e s).0 ≡ s) ⊎ ((deposit now e s).0 ≡ store_envelope e s)
unfolding deposit
deposit_cases now e s = ground arith

deposit-IsConsistent :
    (now : ℕ) (e : MailEnvelope) (s : RelayStore)
    → IsFresh e s
    → IsConsistent s
    → IsConsistent (deposit now e s).0
deposit-IsConsistent now e s fresh c = elim (deposit_cases now e s) [
  | inl same ↦ subst IsConsistent (sym same) c
  | inr taken ↦ subst IsConsistent (sym taken) (stored-IsConsistent e s c fresh)
]

-- A step whose deposit, if it is one, brings a fresh id.
abbrev pub IsFreshStep : {s t : RelayStore} → RelayStep s t → Type 0
IsFreshStep (deposited now e s) = IsFresh e s
IsFreshStep (acked ids s) = Unit
IsFreshStep (evicted now s) = Unit

pub data FreshReach (s : RelayStore) : RelayStore → Type 0 where
  here : FreshReach s s
  next :
      {t u : RelayStore} → FreshReach s t → (st : RelayStep t u) → IsFreshStep st → FreshReach s u

step-IsConsistent :
    {s t : RelayStore} (st : RelayStep s t) → IsFreshStep st → IsConsistent s → IsConsistent t
step-IsConsistent (deposited now e s) fresh c = deposit-IsConsistent now e s fresh c
step-IsConsistent (acked ids s) fresh c = (ack_lem ids s c).0
step-IsConsistent (evicted now s) fresh c = (evict_lem now s c).0

pub reach-IsConsistent : {s t : RelayStore} → IsConsistent s → FreshReach s t → IsConsistent t
reach-IsConsistent c here = c
reach-IsConsistent c (next r st fresh) = step-IsConsistent st fresh (reach-IsConsistent c r)

pub new_relay-IsConsistent : (per total : Option ℕ) → IsConsistent (new_relay per total)
unfolding new_relay Dict.get includes
new_relay-IsConsistent per total = record {
  named = λ id e h. cc;
  filed = λ id e h. cc;
  held = λ p id h. absurd (ground arith);
  distinct = tt;
}
