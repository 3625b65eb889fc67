-- ===== src/Pow/Window.antt =====
-- How long a stamp counts.
use subspace_transceiver.Prelude.{
  ℕ, zero, suc, ◌+◌, ◌≤◌, ◌≡◌, refl, sym, ap, ◌∙◌, true, [], ◌∷◌, ◌++◌, ◌⊎◌, inl, inr, arith,
  Bool-cases,
}
use subspace_transceiver.Prelude.Numerals.{print, print_inj, print-no_dash}
use subspace_transceiver.Prelude.Text.{Text, text_eq, text_eq_iff, codes}
use subspace_transceiver.Schema.{HashcashStamp}
use subspace_transceiver.Pow.{
  window_index, challenge_at, current_challenge, previous_challenge, verify_stamp,
}

-- The text of a window's index, counted from the one before window 0.
abbrev index_text : ℕ → Text
index_text zero = codes "-1"
index_text (suc i) = print 10 i

index_text_inj : (i j : ℕ) → index_text i ≡ index_text j → i ≡ j
index_text_inj zero zero h = refl
index_text_inj zero (suc j) h = absurd (print-no_dash 10 j (codes "1") (sym h))
index_text_inj (suc i) zero h = absurd (print-no_dash 10 i (codes "1") h)
index_text_inj (suc i) (suc j) h = ap suc (print_inj i j h)

append_cancel : (p a b : Text) → p ++ a ≡ p ++ b → a ≡ b
append_cancel [] a b h = h
append_cancel (c ∷ p) a b h = append_cancel p a b (cc)

module _ (sha256 : Text → Text) (no_collisions : (a b : Text) → sha256 a ≡ sha256 b → a ≡ b) where
  previous_at :
      (peer scope : Text) (i : ℕ)
      → previous_challenge sha256 peer scope i ≡ challenge_at sha256 peer scope (index_text i)
  unfolding previous_challenge
  previous_at peer scope zero = refl
  previous_at peer scope (suc i) = refl

  same_index :
      (peer scope : Text) (i j : ℕ)
      → challenge_at sha256 peer scope (index_text i)
        ≡ challenge_at sha256 peer scope (index_text j)
      → i ≡ j
  unfolding challenge_at
  same_index peer scope i j h =
      let texts =
        append_cancel (peer ++ b':' ∷ scope) (b':' ∷ index_text i) (b':' ∷ index_text j)
          (no_collisions _ _ h) in
      index_text_inj i j (append_cancel (b':' ∷ []) _ _ texts)

  -- An accepted stamp carries the challenge of the present window or of the one before.
  accepted_index :
      (stamp : HashcashStamp) (peer scope : Text) (bits window_ms now : ℕ)
      → verify_stamp sha256 stamp peer scope bits window_ms now ≡ true
      → (j : ℕ) × ((j ≡ suc (window_index window_ms now)) ⊎ (j ≡ window_index window_ms now))
        × (stamp.challenge ≡ challenge_at sha256 peer scope (index_text j))
  unfolding verify_stamp current_challenge
  accepted_index stamp peer scope bits window_ms now h =
      let i = window_index window_ms now in
      elim (Bool-cases (text_eq stamp.challenge (challenge_at sha256 peer scope (print 10 i)))) [
        | inl t ↦ (suc i, inl refl, (text_eq_iff _ _).0 t)
        | inr f ↦ (i, inr refl, (text_eq_iff _ _).0 (ground (arith, previous_at peer scope i)))
      ]

  -- A stamp that is accepted for one peer and scope at two instants: their windows are the same or
  -- follow each other, so that no stamp outlives two windows (if SHA-256 has no collisions).
  pub verify_stamp-expires :
      (stamp : HashcashStamp) (peer scope : Text) (bits bits' window_ms now later : ℕ)
      → verify_stamp sha256 stamp peer scope bits window_ms now ≡ true
      → verify_stamp sha256 stamp peer scope bits' window_ms later ≡ true
      → (window_index window_ms later ≤ window_index window_ms now + 1)
        × (window_index window_ms now ≤ window_index window_ms later + 1)
  verify_stamp-expires stamp peer scope bits bits' window_ms now later h k =
      let (i, near, e) = accepted_index stamp peer scope bits window_ms now h in
      let (j, near', e') = accepted_index stamp peer scope bits' window_ms later k in
      let same : i ≡ j = same_index peer scope i j (sym e ∙ e') in ground arith
