-- ===== src/Prelude/Sets.antt =====
-- A JavaScript `Set` of strings, as the list of its members in insertion order.
use Prim.Native.Nat.{◌+◌, ◌≤◌}
use mathlib.Core.Path.{◌≡◌, refl}
use mathlib.Core.Bool.{Bool, true, false, ◌&&◌, ◌||◌, not}
use mathlib.Core.List.{List, [], ◌∷◌}
use native.Mathlib.Omega.{arith}
use subspace_transceiver.Prelude.Tests.{if◌then◌else◌}
use subspace_transceiver.Prelude.Lists.{length}
use subspace_transceiver.Prelude.Text.{Text, text_eq, text_eq_iff}

unfoldable pub includes : List Text → Text → Bool
includes [] a = false
includes (x ∷ xs) a = text_eq x a || includes xs a

-- `s.add(a)`
unfoldable pub add : Text → List Text → List Text
add a [] = a ∷ []
add a (x ∷ xs) = if text_eq x a then x ∷ xs else x ∷ add a xs

-- `s.delete(a)`
unfoldable pub remove : Text → List Text → List Text
remove a [] = []
remove a (x ∷ xs) = if text_eq x a then remove a xs else x ∷ remove a xs

pub includes-add :
    (a b : Text) (xs : List Text) → includes (add a xs) b ≡ text_eq a b || includes xs b
unfolding includes add
includes-add a b [] = refl
includes-add a b (x ∷ xs) =
    ground (arith, includes-add a b xs, text_eq_iff x a, text_eq_iff x b, text_eq_iff a b)

pub includes-remove :
    (a b : Text) (xs : List Text) → includes (remove a xs) b ≡ not (text_eq a b) && includes xs b
unfolding includes remove
includes-remove a b [] = ground arith
includes-remove a b (x ∷ xs) =
    ground (arith, includes-remove a b xs, text_eq_iff x a, text_eq_iff x b, text_eq_iff a b)

pub length-add-le : (a : Text) (xs : List Text) → length (add a xs) ≤ length xs + 1
unfolding add
length-add-le a [] = omega arith
length-add-le a (x ∷ xs) = ground (arith, length-add-le a xs)

pub add-includes : (a : Text) (xs : List Text) → includes xs a ≡ true → add a xs ≡ xs
unfolding includes add
add-includes a [] h = cc
add-includes a (x ∷ xs) h = ground (arith, add-includes a xs)

pub length-remove-le : (a : Text) (xs : List Text) → length (remove a xs) ≤ length xs
unfolding remove
length-remove-le a [] = omega arith
length-remove-le a (x ∷ xs) = ground (arith, length-remove-le a xs)

pub length-includes : (a : Text) (xs : List Text) → includes xs a ≡ true → 1 ≤ length xs
unfolding includes
length-includes a [] h = absurd (ground arith)
length-includes a (x ∷ xs) h = omega arith
