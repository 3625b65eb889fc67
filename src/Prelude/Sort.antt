-- ===== src/Prelude/Sort.antt =====
-- The stable sort of JavaScript arrays: an element goes before the first one that it may precede.
use Prim.Native.Nat.{ℕ, zero, suc, ◌+◌}
use mathlib.Core.Path.{◌≡◌, refl}
use mathlib.Core.Logic.{◌⊎◌, inl, inr, ◌↔◌}
use mathlib.Core.Bool.{Bool, true, false}
use mathlib.Core.List.{List, [], ◌∷◌}
use native.Mathlib.Omega.{arith}
use subspace_transceiver.Prelude.Tests.{if◌then◌else◌, Bool-cases}
use subspace_transceiver.Prelude.Lists.{length, take, Elem, All, All-Elem}

module _ {A : Type 0} (before : A → A → Bool) where
  unfoldable pub insert_by : A → List A → List A
  insert_by x [] = x ∷ []
  insert_by x (y ∷ ys) = if before x y then x ∷ y ∷ ys else y ∷ insert_by x ys

  unfoldable pub sort_by : List A → List A
  unfolding insert_by
  sort_by [] = []
  sort_by (x ∷ xs) = insert_by x (sort_by xs)

  length-insert_by : (x : A) (xs : List A) → length (insert_by x xs) ≡ length xs + 1
  unfolding insert_by
  length-insert_by x [] = omega arith
  length-insert_by x (y ∷ ys) = ground (arith, length-insert_by x ys)

  pub length-sort_by : (xs : List A) → length (sort_by xs) ≡ length xs
  unfolding sort_by
  length-sort_by [] = refl
  length-sort_by (x ∷ xs) = omega (arith, length-insert_by x (sort_by xs), length-sort_by xs)

  Elem-insert_by : (a x : A) (xs : List A) → Elem a (insert_by x xs) ↔ ((a ≡ x) ⊎ Elem a xs)
  unfolding insert_by
  Elem-insert_by a x [] = (λ m. m, λ m. m)
  Elem-insert_by a x (y ∷ ys) = elim (Bool-cases (before x y)) [
    | inl first ↦ rw first (λ m. m, λ m. m)
    | inr later ↦
        let (into, out) = Elem-insert_by a x ys in
        rw later (
          λ m. elim m [
            | inl e ↦ inr (inl e)
            | inr k ↦ elim (into k) [ inl e ↦ inl e | inr j ↦ inr (inr j) ]
          ],
          λ m. elim m [
            | inl e ↦ inr (out (inl e))
            | inr k ↦ elim k [ inl e ↦ inl e | inr j ↦ inr (out (inr j)) ]
          ],
        )
  ]

  pub Elem-sort_by : (a : A) (xs : List A) → Elem a (sort_by xs) ↔ Elem a xs
  unfolding sort_by
  Elem-sort_by a [] = (λ m. m, λ m. m)
  Elem-sort_by a (x ∷ xs) = (
    λ m. elim ((Elem-insert_by a x (sort_by xs)).0 m) [
      | inl e ↦ inl e
      | inr k ↦ inr ((Elem-sort_by a xs).0 k)
    ],
    λ m.
        (Elem-insert_by a x (sort_by xs)).1
          (elim m [ inl e ↦ inl e | inr k ↦ inr ((Elem-sort_by a xs).1 k) ]),
  )

module _ {A : Type 0} (R : A → A → Type 0) where
  -- Each element stands in the relation to all that follow it.
  abbrev pub IsSorted : List A → Type 0
  IsSorted [] = Unit
  IsSorted (x ∷ xs) = All (R x) xs × IsSorted xs

  All-take : (P : A → Type 0) (n : ℕ) (xs : List A) → All P xs → All P (take n xs)
  All-take P zero xs h = tt
  All-take P (suc n) [] h = tt
  All-take P (suc n) (x ∷ xs) h = (h.0, All-take P n xs h.1)

  pub take-IsSorted : (n : ℕ) (xs : List A) → IsSorted xs → IsSorted (take n xs)
  take-IsSorted zero xs h = tt
  take-IsSorted (suc n) [] h = tt
  take-IsSorted (suc n) (x ∷ xs) h = (All-take (R x) n xs h.0, take-IsSorted n xs h.1)

  -- An element of a sorted list is among the first, or each of the first stands in the relation to it.
  pub take-first :
      (a : A) (n : ℕ) (xs : List A)
      → IsSorted xs
      → Elem a xs
      → Elem a (take n xs) ⊎ All (λ x. R x a) (take n xs)
  take-first a zero xs s m = inr tt
  take-first a (suc n) [] s m = absurd m
  take-first a (suc n) (x ∷ xs) s (inl e) = inl (inl e)
  take-first a (suc n) (x ∷ xs) s (inr m) = elim (take-first a n xs s.1 m) [
    | inl listed ↦ inl (inr listed)
    | inr ahead ↦ inr (All-Elem (R x) a xs s.0 m, ahead)
  ]

pub Elem-take : {A : Type 0} (a : A) (n : ℕ) (xs : List A) → Elem a (take n xs) → Elem a xs
Elem-take a zero xs m = absurd m
Elem-take a (suc n) [] m = absurd m
Elem-take a (suc n) (x ∷ xs) (inl e) = inl e
Elem-take a (suc n) (x ∷ xs) (inr m) = inr (Elem-take a n xs m)

-- A sort by a test that decides a total and transitive relation.
module _ {A : Type 0} (before : A → A → Bool) (R : A → A → Type 0)
    (first : (x y : A) → before x y ≡ true → R x y) (later : (x y : A) → before x y ≡ false → R y x)
    (chain : (x y z : A) → R x y → R y z → R x z) where
  All-chain : (x y : A) (zs : List A) → R x y → All (R y) zs → All (R x) zs
  All-chain x y [] r h = tt
  All-chain x y (z ∷ zs) r h = (chain x y z r h.0, All-chain x y zs r h.1)

  All-insert_by : (z x : A) (ys : List A) → R z x → All (R z) ys → All (R z) (insert_by before x ys)
  unfolding insert_by
  All-insert_by z x [] r h = (r, tt)
  All-insert_by z x (y ∷ ys) r h = elim (Bool-cases (before x y)) [
    | inl precedes ↦ rw precedes (r, h)
    | inr follows ↦ rw follows (h.0, All-insert_by z x ys r h.1)
  ]

  insert_by-IsSorted : (x : A) (ys : List A) → IsSorted R ys → IsSorted R (insert_by before x ys)
  unfolding insert_by
  insert_by-IsSorted x [] h = (tt, tt)
  insert_by-IsSorted x (y ∷ ys) h = elim (Bool-cases (before x y)) [
    | inl precedes ↦ let r = first x y precedes in rw precedes ((r, All-chain x y ys r h.0), h)
    | inr follows ↦
        rw follows (All-insert_by y x ys (later x y follows) h.0, insert_by-IsSorted x ys h.1)
  ]

  pub sort_by-IsSorted : (xs : List A) → IsSorted R (sort_by before xs)
  unfolding sort_by
  sort_by-IsSorted [] = tt
  sort_by-IsSorted (x ∷ xs) = insert_by-IsSorted x (sort_by before xs) (sort_by-IsSorted xs)
