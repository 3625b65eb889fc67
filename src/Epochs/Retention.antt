-- ===== src/Epochs/Retention.antt =====
-- Which epochs `dropExpiredEpochs` takes away.
use subspace_transceiver.Prelude.{
  ℕ, ◌≡◌, refl, subst, ◌∙◌, inl, inr, Bool, true, false, not, ◌&&◌, ◌||◌, List, [], ◌∷◌, none,
  arith, Bool-cases, if◌then◌else◌,
}
use subspace_transceiver.Prelude.Dict
use subspace_transceiver.Prelude.Sets.{includes}
use subspace_transceiver.Prelude.Text.{Text, text_eq, text_eq_iff}
use subspace_transceiver.Store.{Loro, Store}
use subspace_transceiver.Epochs.{Calendar, Manager, is_past, drop_past, drop_expired_epochs}

module _ {loro : Loro} (calendar : Calendar) where
  get-unlisted :
      (e : Text) (epochs : List (Text × Store loro))
      → includes (Dict.keys epochs) e ≡ false
      → Dict.get e epochs ≡ none
  unfolding includes Dict.get
  get-unlisted e [] h = refl
  get-unlisted e ((k, s) ∷ epochs) h = ground (arith, get-unlisted e epochs)

  -- Whether an epoch is to go.
  abbrev pub is_dropped : ℕ → Manager loro → Text → Bool
  is_dropped now m e = not (text_eq e m.current) && is_past loro calendar now m.retain e

  drop_past-current :
      (now : ℕ) (es : List Text) (m : Manager loro)
      → ((drop_past loro calendar now es m).0).current ≡ m.current
  unfolding drop_past
  drop_past-current now [] m = refl
  drop_past-current now (e ∷ es) m =
      elim (Bool-cases (text_eq e m.current || not (is_past loro calendar now m.retain e))) [
        | inl t ↦ rw t (drop_past-current now es m)
        | inr f ↦ rw f (
            drop_past-current now es
              (record m { epochs = Dict.delete e m.epochs; disk = Dict.delete e m.disk }))
      ]

  -- The test of the loop is the other way round.
  is_dropped-same :
      (now : ℕ) (j e : Text) (m : Manager loro) (b : Bool)
      → text_eq j m.current || not (is_past loro calendar now m.retain j) ≡ b
      → text_eq j e ≡ true
      → is_dropped now m e ≡ not b
  is_dropped-same now j e m b h same =
      subst (λ k. is_dropped now m k ≡ not b) ((text_eq_iff j e).0 same) (ground (arith, h))

  get-drop_past :
      (now : ℕ) (e : Text) (es : List Text) (m : Manager loro)
      → Dict.get e (((drop_past loro calendar now es m).0).epochs)
        ≡ (if includes es e && is_dropped now m e then none else Dict.get e m.epochs)
  unfolding drop_past includes
  get-drop_past now e [] m = refl
  get-drop_past now e (j ∷ es) m =
      elim (Bool-cases (text_eq j m.current || not (is_past loro calendar now m.retain j))) [
        | inl t ↦ rw t (get-drop_past now e es m ∙ ground (arith, is_dropped-same now j e m true t))
        | inr f ↦ rw f (
            get-drop_past now e es
              (record m { epochs = Dict.delete j m.epochs; disk = Dict.delete j m.disk })
            ∙ ground (arith, is_dropped-same now j e m false f, Dict.get-delete j e m.epochs))
      ]

  -- `dropExpiredEpochs` takes away exactly the epochs that are not the current one and began more than
  -- one duration for the current epoch and for each retained one before now.
  pub get-drop_expired_epochs :
      (now : ℕ) (e : Text) (m : Manager loro)
      → Dict.get e (((drop_expired_epochs loro calendar now m).0).epochs)
        ≡ (if is_dropped now m e then none else Dict.get e m.epochs)
  unfolding drop_expired_epochs
  get-drop_expired_epochs now e m =
      get-drop_past now e (Dict.keys m.epochs) m ∙ ground (arith, get-unlisted e m.epochs)

  pub drop_expired_epochs-current :
      (now : ℕ) (m : Manager loro)
      → ((drop_expired_epochs loro calendar now m).0).current ≡ m.current
  unfolding drop_expired_epochs
  drop_expired_epochs-current now m = drop_past-current now (Dict.keys m.epochs) m
