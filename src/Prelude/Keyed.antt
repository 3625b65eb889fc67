-- ===== src/Prelude/Keyed.antt =====
-- A map in which each value stands under its own key, as registries keep them.
use mathlib.Core.Path.{◌≡◌, refl, sym, ap, ◌∙◌}
use mathlib.Core.Logic.{◌↔◌, inl, inr}
use mathlib.Core.Bool.{true}
use mathlib.Core.Option.{some}
use mathlib.Core.List.{List, [], ◌∷◌}
use native.Mathlib.Omega.{arith}
use subspace_transceiver.Prelude.Tests.{Bool-cases, some_inj}
use subspace_transceiver.Prelude.Lists.{Elem}
use subspace_transceiver.Prelude.Text.{Text, text_eq, text_eq_iff}
use subspace_transceiver.Prelude.Dict

module _ {V : Type 0} (key_of : V → Text) where
  unfoldable OwnKeys : List (Text × V) → Type 0
  OwnKeys [] = Unit
  OwnKeys ((k, v) ∷ m) = (key_of v ≡ k) × OwnKeys m

  pub record IsKeyed (m : List (Text × V)) : Type 0 where
    own : OwnKeys m
    distinct : Dict.Distinct m

  pub nothing : IsKeyed []
  unfolding OwnKeys
  nothing = record { own = tt; distinct = tt }

  set-OwnKeys : (v : V) (m : List (Text × V)) → OwnKeys m → OwnKeys (Dict.set (key_of v) v m)
  unfolding OwnKeys Dict.set
  set-OwnKeys v [] h = (refl, tt)
  set-OwnKeys v ((k, old) ∷ m) h = elim (Bool-cases (text_eq k (key_of v))) [
    | inl t ↦ rw t (sym ((text_eq_iff k (key_of v)).0 t), h.1)
    | inr f ↦ rw f (h.0, set-OwnKeys v m h.1)
  ]

  delete-OwnKeys : (k : Text) (m : List (Text × V)) → OwnKeys m → OwnKeys (Dict.delete k m)
  unfolding OwnKeys Dict.delete
  delete-OwnKeys k [] h = h
  delete-OwnKeys k ((j, v) ∷ m) h = elim (Bool-cases (text_eq j k)) [
    | inl t ↦ rw t (delete-OwnKeys k m h.1)
    | inr f ↦ rw f (h.0, delete-OwnKeys k m h.1)
  ]

  pub set-IsKeyed : (v : V) (m : List (Text × V)) → IsKeyed m → IsKeyed (Dict.set (key_of v) v m)
  set-IsKeyed v m h = record {
    own = set-OwnKeys v m h.own;
    distinct = Dict.set-Distinct (key_of v) v m h.distinct;
  }

  pub delete-IsKeyed : (k : Text) (m : List (Text × V)) → IsKeyed m → IsKeyed (Dict.delete k m)
  delete-IsKeyed k m h = record {
    own = delete-OwnKeys k m h.own;
    distinct = Dict.delete-Distinct k m h.distinct;
  }

  values-get :
      (v : V) (m : List (Text × V))
      → OwnKeys m
      → Dict.Distinct m
      → Elem v (Dict.values m)
      → Dict.get (key_of v) m ≡ some v
  unfolding OwnKeys Dict.get
  values-get v [] k d h = absurd h
  values-get v ((j, w) ∷ m) k d (inl e) =
      let same : text_eq j (key_of v) ≡ true =
        (text_eq_iff j (key_of v)).1 (sym (k.0) ∙ ap key_of (sym e)) in
      rw same (ap some (sym e))
  values-get v ((j, w) ∷ m) k d (inr h) =
      let found = values-get v m (k.1) (d.1) h in
      ground (arith, found, d.0, text_eq_iff j (key_of v))

  get-values :
      (k : Text) (v : V) (m : List (Text × V)) → Dict.get k m ≡ some v → Elem v (Dict.values m)
  unfolding Dict.get
  get-values k v [] h = cc
  get-values k v ((j, w) ∷ m) h = elim (Bool-cases (text_eq j k)) [
    | inl t ↦ inl (sym (some_inj (rw t at h)))
    | inr f ↦ inr (get-values k v m (rw f at h))
  ]

  -- The values are those that their own keys give.
  pub values_iff :
      (v : V) (m : List (Text × V))
      → IsKeyed m
      → Elem v (Dict.values m) ↔ (Dict.get (key_of v) m ≡ some v)
  values_iff v m h = (values-get v m h.own h.distinct, get-values (key_of v) v m)
