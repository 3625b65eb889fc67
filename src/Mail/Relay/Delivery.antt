-- ===== src/Mail/Relay/Delivery.antt =====
-- What a deposit accepts, and what a check delivers.
use subspace_transceiver.Prelude.{
  ℕ, ◌+◌, ◌*◌, ◌≤◌, ◌<◌, ◌≡◌, ◌≢◌, sym, ap, subst, ◌∙◌, true, false, [], Option, none, some,
  if◌then◌else◌, or_else, arith, inl, inr, ◌↔◌, some_inj, length, Elem,
}
use subspace_transceiver.Prelude.Dict
use subspace_transceiver.Prelude.Sets.{add}
use subspace_transceiver.Prelude.Sort.{IsSorted, sort_by-IsSorted, Elem-sort_by, length-sort_by}
use subspace_transceiver.Prelude.Text.{Text, text_eq, text_eq_iff}
use subspace_transceiver.Mail.{MailEnvelope, is_envelope_expired}
use subspace_transceiver.Mail.Relay.{
  RelayStore, ids_of, deposit, skips, pending, check_loop, is_older, check,
}
use subspace_transceiver.Mail.Relay.Consistency.{IsConsistent, store_envelope}
use subspace_transceiver.Mail.Relay.Loop.{pending_lem, loop_sound, loop_complete, loop_length}

-- A deposit is accepted exactly if the envelope has not expired and both quotas have room. A refused
-- deposit changes nothing; an accepted one makes the store hold the envelope under its id, and no
-- other id is affected.
pub deposit_lem :
    (now : ℕ) (e : MailEnvelope) (s : RelayStore)
    → (((deposit now e s).1 ≡ true) ↔ (
        (now ≤ e.timestamp + e.ttl * 1000)
        × (length s.envelopes < s.max_total)
        × (length (ids_of s e.to) < s.max_per_recipient)))
      × ((deposit now e s).1 ≡ false → (deposit now e s).0 ≡ s)
      × ((deposit now e s).1 ≡ true
          → (j : Text)
          → Dict.get j (deposit now e s).0.envelopes
            ≡ (if text_eq e.id j then some e else Dict.get j s.envelopes))
unfolding deposit is_envelope_expired
deposit_lem now e s =
    (ground arith, λ h. ground arith, λ h j. ground (arith, Dict.get-set e.id j e s.envelopes))

delivered :
    (now : ℕ) (since : Option ℕ) (limit : ℕ) (s : RelayStore) (recipient : Text) (e : MailEnvelope)
    → IsConsistent s
    → Elem e (check_loop now since limit s (ids_of s recipient) [])
    → (Dict.get e.id s.envelopes ≡ some e) × (e.to ≡ recipient) × (skips now since e ≡ false)
delivered now since limit s recipient e c m =
    elim (loop_sound now since limit s (ids_of s recipient) [] e m) [
      | inl nothing ↦ absurd nothing
      | inr (id, there, p) ↦
          let (stored, fits) = (pending_lem now since s id e).0 p in
          let (d, found, to_them) = c.held recipient id there in
          (
            subst (λ j. Dict.get j s.envelopes ≡ some e) (sym (c.named id e stored)) stored,
            ap (λ x. x.to) (some_inj (sym stored ∙ found)) ∙ to_them,
            fits,
          )
    ]

abbrev pub NotYounger : MailEnvelope → MailEnvelope → Type 0
NotYounger e d = e.timestamp ≤ d.timestamp

-- A check of a consistent store delivers only envelopes that the store holds under their id, that
-- are addressed to the recipient, have not expired and are newer than `since` if it is given. They
-- stand oldest first, and there are no more of them than the limit (50 if none is given), if that is
-- positive.
pub check_sound :
    (now : ℕ) (recipient : Text) (since limit : Option ℕ) (s : RelayStore)
    → IsConsistent s
    → IsSorted NotYounger (check now recipient since limit s)
      × (0 < or_else limit 50 → length (check now recipient since limit s) ≤ or_else limit 50)
      × ((e : MailEnvelope)
          → Elem e (check now recipient since limit s)
          → (Dict.get e.id s.envelopes ≡ some e) × (e.to ≡ recipient) × (skips now since e ≡ false))
unfolding check
check_sound now recipient since limit s c =
    let found = check_loop now since (or_else limit 50) s (ids_of s recipient) [] in
    (
      sort_by-IsSorted is_older NotYounger (λ e d h. ground arith) (λ e d h. ground arith)
          (λ e d f h k. omega arith) found,
      λ pos. omega (
        arith,
        length-sort_by is_older found,
        loop_length now since (or_else limit 50) s (ids_of s recipient) [] pos,
      ),
      λ e m.
          delivered now since (or_else limit 50) s recipient e c
            ((Elem-sort_by is_older e found).0 m),
    )

-- A check of a consistent store whose limit is at least the number of ids filed for the recipient
-- delivers every stored envelope for the recipient that has not expired and is newer than `since`.
pub check_complete :
    (now : ℕ) (recipient : Text) (since limit : Option ℕ) (s : RelayStore) (e : MailEnvelope)
    → IsConsistent s
    → Dict.get e.id s.envelopes ≡ some e
    → e.to ≡ recipient
    → skips now since e ≡ false
    → length (ids_of s recipient) ≤ or_else limit 50
    → Elem e (check now recipient since limit s)
unfolding check
check_complete now recipient since limit s e c stored to_them fits room =
    (Elem-sort_by is_older e _).1 (
      loop_complete now since (or_else limit 50) s (ids_of s recipient) [] e.id e
        (rw (← to_them) (c.filed e.id e stored)) ((pending_lem now since s e.id e).1 (stored, fits))
        (omega arith))

accepted_store :
    (now : ℕ) (e : MailEnvelope) (s : RelayStore)
    → (deposit now e s).1 ≡ true
    → ((deposit now e s).0 ≡ store_envelope e s) × (is_envelope_expired now e ≡ false)
unfolding deposit
accepted_store now e s h = (ground arith, ground arith)

-- A deposit that reuses the id of an envelope for somebody else takes that envelope's place: a check
-- for the first recipient (of at most 50 filed ids) then delivers the second envelope, which is
-- addressed to another.
pub deposit_redirects :
    (now : ℕ) (first second : MailEnvelope) (s : RelayStore)
    → IsConsistent s
    → Dict.get first.id s.envelopes ≡ some first
    → length (ids_of s first.to) ≤ 50
    → second.id ≡ first.id
    → second.to ≢ first.to
    → (deposit now second s).1 ≡ true
    → Elem second (check now first.to none none (deposit now second s).0)
unfolding check
deposit_redirects now first second s c stored room id apart accepted =
    let (kept, alive) = accepted_store now second s accepted in
    let t = store_envelope second s in
    let listed : ids_of t first.to ≡ ids_of s first.to =
      ap (λ o. or_else o [])
        (Dict.get-set_ne second.to first.to (add second.id (ids_of s second.to)) s.by_recipient
          apart) in
    let found : Dict.get first.id t.envelopes ≡ some second =
      ground (
        arith,
        Dict.get-set second.id first.id second s.envelopes,
        text_eq_iff second.id first.id,
      ) in
    let taken : pending now none t first.id ≡ some second =
      (pending_lem now none t first.id second).1 (found, ground (arith, alive)) in
    rw (kept, listed)
      ((Elem-sort_by is_older second _).1 (
        loop_complete now none 50 t (ids_of s first.to) [] first.id second
          (c.filed first.id first stored) taken (omega arith)))
