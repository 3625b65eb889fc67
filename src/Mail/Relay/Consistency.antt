-- ===== src/Mail/Relay/Consistency.antt =====
-- The two maps of a relay store agree.
use subspace_transceiver.Prelude.{
  ◌≡◌, refl, ap, ◌∙◌, true, not, ◌&&◌, ◌||◌, some, if◌then◌else◌, arith, Bool-cases, inl, inr,
}
use subspace_transceiver.Prelude.Dict
use subspace_transceiver.Prelude.Sets.{includes, add, includes-add, includes-remove}
use subspace_transceiver.Prelude.Text.{Text, text_eq, text_eq_iff}
use subspace_transceiver.Mail.{MailEnvelope}
use subspace_transceiver.Mail.Relay.{RelayStore, ids_of, drop_envelope}
use subspace_transceiver.Mail.Relay.Steps.{ids_of-forget}

-- An envelope stands under its own id and in the set of its recipient, and each id in a recipient's
-- set is that of an envelope for the recipient.
pub record IsConsistent (s : RelayStore) : Type 0 where
  pub named : (id : Text) (e : MailEnvelope) → Dict.get id s.envelopes ≡ some e → e.id ≡ id
  pub filed :
      (id : Text) (e : MailEnvelope)
      → Dict.get id s.envelopes ≡ some e
      → includes (ids_of s e.to) id ≡ true
  pub held :
      (p id : Text)
      → includes (ids_of s p) id ≡ true
      → (e : MailEnvelope) × (Dict.get id s.envelopes ≡ some e) × (e.to ≡ p)
  pub distinct : Dict.Distinct s.envelopes

-- The id is new, or the stored envelope with the id has the same recipient.
abbrev pub IsFresh : MailEnvelope → RelayStore → Type 0
IsFresh e s = (d : MailEnvelope) → Dict.get e.id s.envelopes ≡ some d → d.to ≡ e.to

-- The store that an accepted deposit leaves.
abbrev pub store_envelope : MailEnvelope → RelayStore → RelayStore
store_envelope e s = record s {
  envelopes = Dict.set e.id e s.envelopes;
  by_recipient = Dict.set e.to (add e.id (ids_of s e.to)) s.by_recipient;
}

module _ (e : MailEnvelope) (s : RelayStore) (c : IsConsistent s) (fresh : IsFresh e s) where
  ids_of-stored :
      (p : Text)
      → ids_of (store_envelope e s) p
        ≡ (if text_eq e.to p then add e.id (ids_of s e.to) else ids_of s p)
  ids_of-stored p = ground (arith, Dict.get-set e.to p (add e.id (ids_of s e.to)) s.by_recipient)

  stored-includes :
      (p id : Text)
      → includes (ids_of (store_envelope e s) p) id
        ≡ text_eq e.to p && text_eq e.id id || includes (ids_of s p) id
  stored-includes p id = elim (Bool-cases (text_eq e.to p)) [
    | inl same ↦
        ap (λ ids. includes ids id) (ids_of-stored p)
        ∙ rw (same, ← (text_eq_iff e.to p).0 same) (includes-add e.id id (ids_of s e.to))
    | inr other ↦ ap (λ ids. includes ids id) (ids_of-stored p) ∙ rw other refl
  ]

  stored-held :
      (p id : Text)
      → includes (ids_of (store_envelope e s) p) id ≡ true
      → (d : MailEnvelope) × (Dict.get id (store_envelope e s).envelopes ≡ some d) × (d.to ≡ p)
  stored-held p id h = elim (Bool-cases (text_eq e.id id)) [
    | inl same ↦ (
      e,
      ground (arith, Dict.get-set e.id id e s.envelopes),
      elim (Bool-cases (text_eq e.to p)) [
        | inl to_p ↦ (text_eq_iff e.to p).0 to_p
        | inr not_p ↦
            let (d, found, to_p) = c.held p id (ground (arith, stored-includes p id)) in
            ground (arith, fresh d, text_eq_iff e.id id)
      ],
    )
    | inr other ↦
        let (d, found, to_p) = c.held p id (ground (arith, stored-includes p id)) in
        (d, ground (arith, Dict.get-set e.id id e s.envelopes), to_p)
  ]

  stored-filed :
      (id : Text) (d : MailEnvelope)
      → Dict.get id (store_envelope e s).envelopes ≡ some d
      → includes (ids_of (store_envelope e s) d.to) id ≡ true
  stored-filed id d h = elim (Bool-cases (text_eq e.id id)) [
    | inl same ↦
        let own : d ≡ e = ground (arith, Dict.get-set e.id id e s.envelopes) in
        ground (arith, stored-includes d.to id, text_eq_iff e.to d.to, ap (λ x. x.to) own)
    | inr other ↦
        ground (arith, stored-includes d.to id, Dict.get-set e.id id e s.envelopes, c.filed id d)
  ]

  pub stored-IsConsistent : IsConsistent (store_envelope e s)
  stored-IsConsistent = record {
    named = λ id d h.
        ground (arith, Dict.get-set e.id id e s.envelopes, text_eq_iff e.id id, c.named id d);
    filed = stored-filed;
    held = stored-held;
    distinct = Dict.set-Distinct e.id e s.envelopes c.distinct;
  }

module _ (e : MailEnvelope) (id : Text) (s : RelayStore) (c : IsConsistent s)
    (found : Dict.get id s.envelopes ≡ some e) where
  dropped-includes :
      (p j : Text)
      → includes (ids_of (drop_envelope e id s) p) j
        ≡ not (text_eq e.to p && text_eq id j) && includes (ids_of s p) j
  dropped-includes p j = elim (Bool-cases (text_eq e.to p)) [
    | inl same ↦
        ap (λ ids. includes ids j) (ids_of-forget e.to p id s.by_recipient)
        ∙ rw same (includes-remove id j (ids_of s p))
    | inr other ↦
        ap (λ ids. includes ids j) (ids_of-forget e.to p id s.by_recipient) ∙ rw other (refl)
  ]

  dropped-held :
      (p j : Text)
      → includes (ids_of (drop_envelope e id s) p) j ≡ true
      → (d : MailEnvelope) × (Dict.get j (drop_envelope e id s).envelopes ≡ some d) × (d.to ≡ p)
  dropped-held p j h =
      let (d, there, to_p) = c.held p j (ground (arith, dropped-includes p j)) in
      (
        d,
        ground (
          arith,
          dropped-includes p j,
          Dict.get-delete id j s.envelopes,
          text_eq_iff id j,
          text_eq_iff e.to p,
        ),
        to_p,
      )

  pub dropped-IsConsistent : IsConsistent (drop_envelope e id s)
  dropped-IsConsistent = record {
    named = λ j d h. ground (arith, Dict.get-delete id j s.envelopes, c.named j d);
    filed = λ j d h.
        ground (arith, Dict.get-delete id j s.envelopes, c.filed j d, dropped-includes d.to j);
    held = dropped-held;
    distinct = Dict.delete-Distinct id s.envelopes c.distinct;
  }
