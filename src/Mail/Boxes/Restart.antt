-- ===== src/Mail/Boxes/Restart.antt =====
-- What a file box keeps over a restart.
use mathlib.Core.List.{append_assoc, append-nil}
use subspace_transceiver.Prelude.{
  ℕ, ◌≡◌, refl, sym, ap, ◌∙◌, List, [], ◌∷◌, ◌++◌, none, some, some_inj, arith, Bool-cases, inl,
  inr,
}
use subspace_transceiver.Prelude.Dict
use subspace_transceiver.Prelude.Text.{Text, text_eq, text_eq_iff}
use subspace_transceiver.Mail.Boxes.{put_all}

module _ {M : Type 0} (id_of : M → Text) (time_of : M → ℕ) where
  -- Every message stands under its own id, and no id twice.
  unfoldable pub IsKeyed : List (Text × M) → Type 0
  IsKeyed [] = Unit
  IsKeyed ((k, m) ∷ messages) = (id_of m ≡ k) × (Dict.get k messages ≡ none) × IsKeyed messages

  set_new :
      (k : Text) (m : M) (messages : List (Text × M))
      → Dict.get k messages ≡ none
      → Dict.set k m messages ≡ messages ++ (k, m) ∷ []
  unfolding Dict.get Dict.set
  set_new k m [] h = refl
  set_new k m ((j, n) ∷ messages) h = elim (Bool-cases (text_eq j k)) [
    | inl t ↦ absurd (ground (arith, h))
    | inr f ↦ rw f (ap (λ t. (j, n) ∷ t) (set_new k m messages (rw f at h)))
  ]

  get-append_none :
      (k : Text) (xs ys : List (Text × M))
      → Dict.get k xs ≡ none
      → Dict.get k (xs ++ ys) ≡ Dict.get k ys
  unfolding Dict.get
  get-append_none k [] ys h = refl
  get-append_none k ((j, n) ∷ xs) ys h = elim (Bool-cases (text_eq j k)) [
    | inl t ↦ absurd (ground (arith, h))
    | inr f ↦ rw f (get-append_none k xs ys (rw f at h))
  ]

  -- No id of the one list is one of the other.
  unfoldable AreApart : List (Text × M) → List (Text × M) → Type 0
  AreApart xs [] = Unit
  AreApart xs ((k, m) ∷ ys) = (Dict.get k xs ≡ none) × AreApart xs ys

  AreApart-grown :
      (xs ys : List (Text × M)) (k : Text) (m : M)
      → Dict.get k ys ≡ none
      → AreApart xs ys
      → AreApart (xs ++ (k, m) ∷ []) ys
  unfolding AreApart Dict.get
  AreApart-grown xs [] k m h apart = tt
  AreApart-grown xs ((j, n) ∷ ys) k m h apart = elim (Bool-cases (text_eq j k)) [
    | inl t ↦ absurd (ground (arith, h))
    | inr f ↦ (
      get-append_none j xs ((k, m) ∷ []) (apart.0)
          ∙ ground (arith, text_eq_iff k j, text_eq_iff j k),
      AreApart-grown xs ys k m (rw f at h) (apart.1),
    )
  ]

  put_all-values :
      (ys xs : List (Text × M))
      → IsKeyed ys
      → AreApart xs ys
      → put_all id_of time_of (Dict.values ys) xs ≡ xs ++ ys
  unfolding put_all IsKeyed AreApart
  put_all-values [] xs keyed apart = sym (append-nil xs)
  put_all-values ((k, m) ∷ ys) xs keyed apart =
      rw (put_all, keyed.0, set_new k m xs (apart.0))
        (put_all-values ys (xs ++ (k, m) ∷ []) (keyed.2)
            (AreApart-grown xs ys k m (keyed.1) (apart.1))
          ∙ append_assoc xs ((k, m) ∷ []) ys)

  AreApart-empty : (ys : List (Text × M)) → AreApart [] ys
  unfolding AreApart Dict.get
  AreApart-empty [] = tt
  AreApart-empty ((k, m) ∷ ys) = (refl, AreApart-empty ys)

  -- Reading back what was written gives the map.
  pub put_all-read :
      (ys : List (Text × M)) → IsKeyed ys → put_all id_of time_of (Dict.values ys) [] ≡ ys
  put_all-read ys keyed = put_all-values ys [] keyed (AreApart-empty ys)

  pub set-IsKeyed :
      (k : Text) (v : M) (ys : List (Text × M))
      → id_of v ≡ k
      → IsKeyed ys
      → IsKeyed (Dict.set k v ys)
  unfolding IsKeyed Dict.set Dict.get
  set-IsKeyed k v [] e h = (e, refl, tt)
  set-IsKeyed k v ((j, n) ∷ ys) e h = elim (Bool-cases (text_eq j k)) [
    | inl t ↦ rw t (e ∙ sym ((text_eq_iff j k).0 t), h.1, h.2)
    | inr f ↦ rw f (
      h.0,
      ground (arith, Dict.get-set k j v ys, text_eq_iff k j, text_eq_iff j k, h.1),
      set-IsKeyed k v ys e (h.2),
    )
  ]

  pub delete-IsKeyed : (k : Text) (ys : List (Text × M)) → IsKeyed ys → IsKeyed (Dict.delete k ys)
  unfolding IsKeyed Dict.delete
  delete-IsKeyed k [] h = tt
  delete-IsKeyed k ((j, n) ∷ ys) h = elim (Bool-cases (text_eq j k)) [
    | inl t ↦ rw t (delete-IsKeyed k ys (h.2))
    | inr f ↦ rw f (h.0, ground (arith, Dict.get-delete k j ys, h.1), delete-IsKeyed k ys (h.2))
  ]

  pub IsKeyed-get :
      (k : Text) (m : M) (ys : List (Text × M)) → IsKeyed ys → Dict.get k ys ≡ some m → id_of m ≡ k
  unfolding IsKeyed Dict.get
  IsKeyed-get k m [] h e = absurd (ground (arith, e))
  IsKeyed-get k m ((j, n) ∷ ys) h e = elim (Bool-cases (text_eq j k)) [
    | inl t ↦ ap id_of (sym (some_inj (rw t at e))) ∙ h.0 ∙ (text_eq_iff j k).0 t
    | inr f ↦ IsKeyed-get k m ys (h.2) (rw f at e)
  ]
