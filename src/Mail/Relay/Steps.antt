-- ===== src/Mail/Relay/Steps.antt =====
-- The states that a relay store reaches, and the quotas that they keep.
use subspace_transceiver.Prelude.{
  ℕ, ◌≤◌, ◌≡◌, refl, List, [], ◌∷◌, Option, length, or_else, if◌then◌else◌, arith, Bool-cases,
  Option-cases, inl, inr,
}
use subspace_transceiver.Prelude.Dict
use subspace_transceiver.Prelude.Sets.{add, remove, length-add-le, length-remove-le}
use subspace_transceiver.Prelude.Text.{Text, text_eq, text_eq_iff}
use subspace_transceiver.Mail.{MailEnvelope, is_envelope_expired}
use subspace_transceiver.Mail.Relay.{
  RelayStore, new_relay, ids_of, deposit, forget_id, drop_envelope, ack, evict_loop, evict,
}

pub data RelayStep : RelayStore → RelayStore → Type 0 where
  deposited : (now : ℕ) (e : MailEnvelope) (s : RelayStore) → RelayStep s (deposit now e s).0
  acked : (ids : List Text) (s : RelayStore) → RelayStep s (ack ids s).0
  evicted : (now : ℕ) (s : RelayStore) → RelayStep s (evict now s).0

pub data Reach (s : RelayStore) : RelayStore → Type 0 where
  here : Reach s s
  next : {t u : RelayStore} → Reach s t → RelayStep t u → Reach s u

pub ids_of-forget :
    (q p id : Text) (m : List (Text × List Text))
    → or_else (Dict.get p (forget_id q id m)) []
      ≡ (if text_eq q p then remove id (or_else (Dict.get p m) []) else or_else (Dict.get p m) [])
unfolding remove
ids_of-forget q p id m = elim (Option-cases (Dict.get q m)) [
  | inl e ↦ rw (e, forget_id) (ground (arith, text_eq_iff q p))
  | inr (ids, e) ↦
      rw (e, forget_id) (ground (arith, text_eq_iff q p, Dict.get-set q p (remove id ids) m))
]

-- The quotas of a store, which no operation changes.
pub record IsBounded (per total : ℕ) (s : RelayStore) : Type 0 where
  pub per_same : s.max_per_recipient ≡ per
  pub total_same : s.max_total ≡ total
  pub total_kept : length s.envelopes ≤ total
  pub each_kept : (p : Text) → length (ids_of s p) ≤ per

deposit-IsBounded :
    {per total : ℕ} (now : ℕ) (e : MailEnvelope) (s : RelayStore)
    → IsBounded per total s
    → IsBounded per total (deposit now e s).0
unfolding deposit
deposit-IsBounded now e s b = record {
  per_same = ground (arith, b.per_same);
  total_same = ground (arith, b.total_same);
  total_kept = ground (arith, b.total_kept, b.total_same, Dict.length-set-le e.id e s.envelopes);
  each_kept = λ p. ground (
    arith,
    b.each_kept p,
    b.per_same,
    length-add-le e.id (ids_of s e.to),
    text_eq_iff e.to p,
    Dict.get-set e.to p (add e.id (ids_of s e.to)) s.by_recipient,
  );
}

drop-IsBounded :
    {per total : ℕ} (e : MailEnvelope) (id : Text) (s : RelayStore)
    → IsBounded per total s
    → IsBounded per total (drop_envelope e id s)
drop-IsBounded e id s b = record {
  per_same = b.per_same;
  total_same = b.total_same;
  total_kept = omega (arith, b.total_kept, Dict.length-delete-le id s.envelopes);
  each_kept = λ p. ground (
    arith,
    b.each_kept p,
    ids_of-forget e.to p id s.by_recipient,
    length-remove-le id (ids_of s p),
  );
}

ack-IsBounded :
    {per total : ℕ} (ids : List Text) (s : RelayStore)
    → IsBounded per total s
    → IsBounded per total (ack ids s).0
unfolding ack
ack-IsBounded [] s b = b
ack-IsBounded (id ∷ ids) s b = elim (Option-cases (Dict.get id s.envelopes)) [
  | inl e ↦ rw (e, ack) (ack-IsBounded ids s b)
  | inr (d, e) ↦ rw (e, ack) (ack-IsBounded ids (drop_envelope d id s) (drop-IsBounded d id s b))
]

evict-IsBounded :
    {per total : ℕ} (now : ℕ) (entries : List (Text × MailEnvelope)) (s : RelayStore)
    → IsBounded per total s
    → IsBounded per total (evict_loop now entries s).0
unfolding evict_loop
evict-IsBounded now [] s b = b
evict-IsBounded now ((id, e) ∷ entries) s b = elim (Bool-cases (is_envelope_expired now e)) [
  | inl old ↦
      rw (old, evict_loop)
        (evict-IsBounded now entries (drop_envelope e id s) (drop-IsBounded e id s b))
  | inr young ↦ rw (young, evict_loop) (evict-IsBounded now entries s b)
]

step-IsBounded :
    {per total : ℕ} {s t : RelayStore}
    → RelayStep s t
    → IsBounded per total s
    → IsBounded per total t
unfolding evict
step-IsBounded (deposited now e s) b = deposit-IsBounded now e s b
step-IsBounded (acked ids s) b = ack-IsBounded ids s b
step-IsBounded (evicted now s) b = evict-IsBounded now s.envelopes s b

Reach-IsBounded :
    {per total : ℕ} {s t : RelayStore} → IsBounded per total s → Reach s t → IsBounded per total t
Reach-IsBounded b here = b
Reach-IsBounded b (next r st) = step-IsBounded st (Reach-IsBounded b r)

-- Whatever sequence of deposits, acknowledgements and evictions a new store goes through, it never
-- holds more envelopes than its total quota (100000 if none is given), nor lists more ids for a
-- recipient than the quota of one recipient (1000 if none is given).
pub relay_bounds :
    (per total : Option ℕ) {s : RelayStore}
    → Reach (new_relay per total) s
    → (length s.envelopes ≤ or_else total 100_000)
      × ((p : Text) → length (ids_of s p) ≤ or_else per 1000)
unfolding new_relay Dict.get
relay_bounds per total r =
    let b =
      Reach-IsBounded {per = or_else per 1000} {total = or_else total 100_000}
        (record {
          per_same = refl;
          total_same = refl;
          total_kept = omega arith;
          each_kept = λ p. omega arith;
        })
        r in
    (b.total_kept, b.each_kept)
