-- ===== src/Mail/Relay/Loop.antt =====
-- The loop of `check`: what it takes, what it keeps, and how much.
use subspace_transceiver.Prelude.{
  ℕ, ◌+◌, ◌≤◌, ◌<◌, ◌≡◌, refl, sym, ap, subst, ◌∙◌, true, false, List, [], ◌∷◌, ◌++◌, Option, none,
  some, arith, leb, Bool-cases, Option-cases, inl, inr, ◌⊎◌, ◌↔◌, some_inj, length, length-append,
  Elem, Elem-append, Elem-append_left, Elem-append_right,
}
use subspace_transceiver.Prelude.Dict
use subspace_transceiver.Prelude.Sets.{includes, length-includes}
use subspace_transceiver.Prelude.Text.{Text, text_eq, text_eq_iff, text_eq_refl}
use subspace_transceiver.Mail.{MailEnvelope}
use subspace_transceiver.Mail.Relay.{RelayStore, skips, pending, check_loop}

pub pending_lem :
    (now : ℕ) (since : Option ℕ) (s : RelayStore) (id : Text) (e : MailEnvelope)
    → (pending now since s id ≡ some e)
      ↔ ((Dict.get id s.envelopes ≡ some e) × (skips now since e ≡ false))
unfolding pending
pending_lem now since s id e = elim (Option-cases (Dict.get id s.envelopes)) [
  | inl missing ↦ rw (missing, pending) (λ h. absurd (cc), λ (h, k). absurd (cc))
  | inr (d, found) ↦ elim (Bool-cases (skips now since d)) [
    | inl passed ↦
        rw (found, pending)
          (rw passed (
            λ h. absurd (cc),
            λ (h, k). absurd (cc (ap (λ x. skips now since x) (some_inj h), passed, k)),
          ))
    | inr taken ↦ rw (found, pending) (rw taken (λ h. (h, rw (← some_inj h) taken), λ (h, k). h))
  ]
]

module _ (now : ℕ) (since : Option ℕ) (limit : ℕ) (s : RelayStore) where
  -- The loop's rounds: an id that is passed over, one that fills the result, and one that does not.
  loop_cases :
      (id : Text) (ids : List Text) (result : List MailEnvelope)
      → ((pending now since s id ≡ none)
          × (check_loop now since limit s (id ∷ ids) result
              ≡ check_loop now since limit s ids result))
        ⊎ ((d : MailEnvelope) × (pending now since s id ≡ some d)
            × (((limit ≤ length result + 1)
                  × (check_loop now since limit s (id ∷ ids) result ≡ result ++ d ∷ []))
                ⊎ ((length result + 1 < limit)
                    × (check_loop now since limit s (id ∷ ids) result
                        ≡ check_loop now since limit s ids (result ++ d ∷ [])))))
  unfolding check_loop
  loop_cases id ids result = elim (Option-cases (pending now since s id)) [
    | inl e ↦ inl (e, rw (e, check_loop) refl)
    | inr (d, e) ↦ inr (
      d,
      e,
      elim (Bool-cases (leb limit (length (result ++ d ∷ [])))) [
        | inl full ↦
            inl (ground (arith, length-append result (d ∷ [])), rw (e, check_loop) (rw full refl))
        | inr room ↦
            inr (ground (arith, length-append result (d ∷ [])), rw (e, check_loop) (rw room refl))
      ],
    )
  ]

  pushed_sound :
      (id : Text) (ids : List Text) (result : List MailEnvelope) (e d : MailEnvelope)
      → pending now since s id ≡ some d
      → Elem e (result ++ d ∷ [])
      → Elem e result
        ⊎ ((j : Text) × (includes (id ∷ ids) j ≡ true) × (pending now since s j ≡ some e))
  unfolding includes
  pushed_sound id ids result e d found m = elim (Elem-append e result (d ∷ []) m) [
    | inl k ↦ inl k
    | inr k ↦ elim k [
      | inl same ↦ inr (id, ground (arith, text_eq_refl id), rw same found)
      | inr nothing ↦ absurd nothing
    ]
  ]

  pub loop_sound :
      (ids : List Text) (result : List MailEnvelope) (e : MailEnvelope)
      → Elem e (check_loop now since limit s ids result)
      → Elem e result ⊎ ((id : Text) × (includes ids id ≡ true) × (pending now since s id ≡ some e))
  unfolding check_loop includes
  loop_sound [] result e m = inl m
  loop_sound (id ∷ ids) result e m = elim (loop_cases id ids result) [
    | inl (missing, same) ↦ elim (loop_sound ids result e (subst (Elem e) same m)) [
      | inl k ↦ inl k
      | inr (j, there, p) ↦ inr (j, ground arith, p)
    ]
    | inr (d, found, how) ↦ elim how [
      | inl (full, same) ↦ pushed_sound id ids result e d found (subst (Elem e) same m)
      | inr (room, same) ↦ elim (loop_sound ids (result ++ d ∷ []) e (subst (Elem e) same m)) [
        | inl k ↦ pushed_sound id ids result e d found k
        | inr (j, there, p) ↦ inr (j, ground arith, p)
      ]
    ]
  ]

  loop_keeps :
      (ids : List Text) (result : List MailEnvelope) (e : MailEnvelope)
      → Elem e result
      → Elem e (check_loop now since limit s ids result)
  unfolding check_loop
  loop_keeps [] result e m = m
  loop_keeps (id ∷ ids) result e m = elim (loop_cases id ids result) [
    | inl (missing, same) ↦ subst (Elem e) (sym same) (loop_keeps ids result e m)
    | inr (d, found, how) ↦ elim how [
      | inl (full, same) ↦ subst (Elem e) (sym same) (Elem-append_left e result (d ∷ []) m)
      | inr (room, same) ↦
          subst (Elem e) (sym same)
            (loop_keeps ids (result ++ d ∷ []) e (Elem-append_left e result (d ∷ []) m))
    ]
  ]

  pub loop_complete :
      (ids : List Text) (result : List MailEnvelope) (id : Text) (e : MailEnvelope)
      → includes ids id ≡ true
      → pending now since s id ≡ some e
      → length result + length ids ≤ limit
      → Elem e (check_loop now since limit s ids result)
  unfolding includes
  loop_complete [] result id e h p room = absurd (ground arith)
  loop_complete (j ∷ ids) result id e h p room = elim (loop_cases j ids result) [
    | inl (missing, same) ↦
        subst (Elem e) (sym same)
          (loop_complete ids result id e (ground (arith, text_eq_iff j id)) p (omega arith))
    | inr (d, found, how) ↦ elim (Bool-cases (text_eq j id)) [
      | inl here ↦
          let own : e ≡ d =
            some_inj (sym p ∙ ap (pending now since s) (sym ((text_eq_iff j id).0 here)) ∙ found) in
          let listed = Elem-append_right e result (d ∷ []) (inl own) in
          elim how [
            | inl (full, same) ↦ subst (Elem e) (sym same) listed
            | inr (more, same) ↦
                subst (Elem e) (sym same) (loop_keeps ids (result ++ d ∷ []) e listed)
          ]
      | inr later ↦
          let rest : includes ids id ≡ true = ground arith in
          elim how [
            | inl (full, same) ↦ absurd (omega (arith, length-includes id ids rest))
            | inr (more, same) ↦ subst (Elem e) (sym same) (
                loop_complete ids (result ++ d ∷ []) id e rest p
                  (omega (arith, length-append result (d ∷ []))))
          ]
    ]
  ]

  pub loop_length :
      (ids : List Text) (result : List MailEnvelope)
      → length result < limit
      → length (check_loop now since limit s ids result) ≤ limit
  unfolding check_loop
  loop_length [] result room = omega arith
  loop_length (id ∷ ids) result room = elim (loop_cases id ids result) [
    | inl (missing, same) ↦ rw same (loop_length ids result room)
    | inr (d, found, how) ↦ elim how [
      | inl (full, same) ↦ rw same (omega (arith, length-append result (d ∷ [])))
      | inr (more, same) ↦
          rw same
            (loop_length ids (result ++ d ∷ []) (omega (arith, length-append result (d ∷ []))))
    ]
  ]
