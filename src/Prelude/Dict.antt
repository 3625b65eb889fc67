-- ===== src/Prelude/Dict.antt =====
-- A JavaScript `Map` keyed by strings, as its list of entries in insertion order, and a `Set` of
-- strings, as the list of its members in insertion order.
use Prim.Native.Nat.{◌+◌, ◌≤◌}
use mathlib.Core.Path.{◌≡◌, refl}
use mathlib.Core.Logic.{◌≢◌, inl, inr}
use mathlib.Core.Option.{Option, none, some}
use mathlib.Core.List.{List, [], ◌∷◌}
use native.Mathlib.Omega.{arith}
use subspace_transceiver.Prelude.Tests.{if◌then◌else◌, Bool-cases}
use subspace_transceiver.Prelude.Lists.{length}
use subspace_transceiver.Prelude.Text.{Text, text_eq, text_eq_iff, text_eq_refl}

module _ {ℓ} {V : Type ℓ} where
  unfoldable pub get : Text → List (Text × V) → Option V
  get k [] = none
  get k ((j, v) ∷ m) = if text_eq j k then some v else get k m

  -- An entry that is there keeps its place.
  unfoldable pub set : Text → V → List (Text × V) → List (Text × V)
  set k v [] = (k, v) ∷ []
  set k v ((j, w) ∷ m) = if text_eq j k then (j, v) ∷ m else (j, w) ∷ set k v m

  unfoldable pub delete : Text → List (Text × V) → List (Text × V)
  delete k [] = []
  delete k ((j, w) ∷ m) = if text_eq j k then delete k m else (j, w) ∷ delete k m

  abbrev pub keys : List (Text × V) → List Text
  keys [] = []
  keys ((k, v) ∷ m) = k ∷ keys m

  abbrev pub values : List (Text × V) → List V
  values [] = []
  values ((k, v) ∷ m) = v ∷ values m

  pub get-set :
      (k j : Text) (v : V) (m : List (Text × V))
      → get j (set k v m) ≡ (if text_eq k j then some v else get j m)
  unfolding get set
  get-set k j v [] = refl
  get-set k j v ((i, w) ∷ m) =
      ground (arith, text_eq_iff k j, text_eq_iff i k, text_eq_iff i j, get-set k j v m)

  pub get-set_self : (k : Text) (v : V) (m : List (Text × V)) → get k (set k v m) ≡ some v
  get-set_self k v m = ground (arith, get-set k k v m, text_eq_refl k)

  pub get-set_ne : (k j : Text) (v : V) (m : List (Text × V)) → k ≢ j → get j (set k v m) ≡ get j m
  get-set_ne k j v m h = ground (arith, get-set k j v m, text_eq_iff k j)

  pub get-delete :
      (k j : Text) (m : List (Text × V))
      → get j (delete k m) ≡ (if text_eq k j then none else get j m)
  unfolding get delete
  get-delete k j [] = ground arith
  get-delete k j ((i, w) ∷ m) =
      ground (arith, text_eq_iff k j, text_eq_iff i k, text_eq_iff i j, get-delete k j m)

  pub get-delete_self : (k : Text) (m : List (Text × V)) → get k (delete k m) ≡ none
  get-delete_self k m = ground (arith, get-delete k k m, text_eq_refl k)

  pub length-set-le : (k : Text) (v : V) (m : List (Text × V)) → length (set k v m) ≤ length m + 1
  unfolding set
  length-set-le k v [] = omega arith
  length-set-le k v ((j, w) ∷ m) = ground (arith, length-set-le k v m)

  pub length-set_known :
      (k : Text) (v : V) (m : List (Text × V)) {w : V}
      → get k m ≡ some w
      → length (set k v m) ≡ length m
  unfolding get set
  length-set_known k v [] h = cc
  length-set_known k v ((j, w) ∷ m) {w = u} h = ground (arith, length-set_known k v m {w = u})

  pub length-delete-le : (k : Text) (m : List (Text × V)) → length (delete k m) ≤ length m
  unfolding delete
  length-delete-le k [] = omega arith
  length-delete-le k ((j, w) ∷ m) = ground (arith, length-delete-le k m)

  -- No key stands twice.
  abbrev pub Distinct : List (Text × V) → Type ℓ
  Distinct [] = Unit
  Distinct ((k, v) ∷ m) = (get k m ≡ none) × Distinct m

  pub set-Distinct : (k : Text) (v : V) (m : List (Text × V)) → Distinct m → Distinct (set k v m)
  unfolding get set
  set-Distinct k v [] d = (refl, tt)
  set-Distinct k v ((j, w) ∷ m) d = elim (Bool-cases (text_eq j k)) [
    | inl same ↦ rw same d
    | inr other ↦
        rw other (
          ground (arith, get-set k j v m, text_eq_iff j k, text_eq_iff k j),
          set-Distinct k v m d.1,
        )
  ]

  pub delete-Distinct : (k : Text) (m : List (Text × V)) → Distinct m → Distinct (delete k m)
  unfolding get delete
  delete-Distinct k [] d = d
  delete-Distinct k ((j, w) ∷ m) d = elim (Bool-cases (text_eq j k)) [
    | inl same ↦ rw same (delete-Distinct k m d.1)
    | inr other ↦ rw other (
      ground (arith, get-delete k j m, text_eq_iff j k, text_eq_iff k j),
      delete-Distinct k m d.1,
    )
  ]

  -- Each entry of the list is the one that the map gives for its key.
  abbrev pub AllFound : List (Text × V) → List (Text × V) → Type ℓ
  AllFound [] m = Unit
  AllFound ((k, v) ∷ entries) m = (get k m ≡ some v) × AllFound entries m

  AllFound-cons :
      (k : Text) (v : V) (entries m : List (Text × V))
      → get k m ≡ none
      → AllFound entries m
      → AllFound entries ((k, v) ∷ m)
  unfolding get
  AllFound-cons k v [] m h a = tt
  AllFound-cons k v ((j, w) ∷ entries) m h a =
      (ground (arith, text_eq_iff k j), AllFound-cons k v entries m h a.1)

  pub AllFound-self : (m : List (Text × V)) → Distinct m → AllFound m m
  unfolding get
  AllFound-self [] d = tt
  AllFound-self ((k, v) ∷ m) d =
      (ground (arith, text_eq_refl k), AllFound-cons k v m m d.0 (AllFound-self m d.1))

  -- Deleting a key that none of the entries has keeps them found.
  pub AllFound-delete :
      (k : Text) (entries m : List (Text × V))
      → get k entries ≡ none
      → AllFound entries m
      → AllFound entries (delete k m)
  unfolding get
  AllFound-delete k [] m h a = tt
  AllFound-delete k ((j, w) ∷ entries) m h a = (
    ground (arith, get-delete k j m, text_eq_iff j k, text_eq_iff k j),
    AllFound-delete k entries m (ground arith) a.1,
  )
