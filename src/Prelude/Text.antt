-- ===== src/Prelude/Text.antt =====
-- Strings as lists of UTF-16 code units, and the string methods that the source calls.
use Prim.Native.Char.{code}
use Prim.Native.Nat.{ℕ, ◌+◌}
use Prim.Native.String.{String}
use mathlib.Core.Path.{◌≡◌, refl, sym, ap, ◌∙◌}
use mathlib.Core.Logic.{◌≢◌, ◌↔◌, inl, inr}
use mathlib.Core.Bool.{Bool, true, false, ◌&&◌, ◌||◌}
use mathlib.Core.List.{List, [], ◌∷◌, ◌++◌, map, append_assoc}
use native.Mathlib.Omega.{arith}
use subspace_transceiver.Prelude.Lists.{All}
use subspace_transceiver.Prelude.Tests.{◌==◌, leb, if◌then◌else◌, Bool-cases}

abbrev pub Text : Type 0
Text = List ℕ

-- The code units of a literal, which is ASCII wherever the source has one.
abbrev pub codes : String → Text
codes String.[] = []
codes (String.◌∷◌ c s) = code c ∷ codes s

-- `a === b`
unfoldable pub text_eq : Text → Text → Bool
text_eq [] [] = true
text_eq [] (y ∷ ys) = false
text_eq (x ∷ xs) [] = false
text_eq (x ∷ xs) (y ∷ ys) = x == y && text_eq xs ys

pub text_eq_iff : (a b : Text) → (text_eq a b ≡ true) ↔ (a ≡ b)
unfolding text_eq
text_eq_iff [] [] = (λ _. refl, λ _. refl)
text_eq_iff [] (y ∷ ys) = ground arith
text_eq_iff (x ∷ xs) [] = ground arith
text_eq_iff (x ∷ xs) (y ∷ ys) = ground (arith, text_eq_iff xs ys)

pub text_eq_refl : (a : Text) → text_eq a a ≡ true
text_eq_refl a = (text_eq_iff a a).1 refl

-- `if (s)`: a string is truthy if it is not empty.
abbrev pub truthy : Text → Bool
truthy [] = false
truthy (c ∷ s) = true

-- `s.startsWith(prefix)`
unfoldable pub starts_with : Text → Text → Bool
starts_with s [] = true
starts_with [] (p ∷ ps) = false
starts_with (c ∷ s) (p ∷ ps) = c == p && starts_with s ps

pub starts_with_iff :
    (s pre : Text) → (starts_with s pre ≡ true) ↔ ((rest : Text) × (s ≡ pre ++ rest))
unfolding starts_with
starts_with_iff s [] = (λ _. (s, refl), λ _. refl)
starts_with_iff [] (p ∷ ps) = (λ h. cc, λ h. cc (h.1))
starts_with_iff (c ∷ s) (p ∷ ps) = (
  λ h. let (rest, e) = (starts_with_iff s ps).0 (ground arith) in (rest, ground arith),
  λ (rest, e). ground (arith, (starts_with_iff s ps).1 (rest, cc)),
)

-- `s.includes(t)`
unfoldable pub contains : Text → Text → Bool
contains [] t = starts_with [] t
contains (c ∷ s) t = starts_with (c ∷ s) t || contains s t

pub contains_iff :
    (s t : Text)
    → (contains s t ≡ true) ↔ ((before : Text) × (after : Text) × (s ≡ before ++ t ++ after))
unfolding contains
contains_iff [] t = (
  λ h. let (after, e) = (starts_with_iff [] t).0 h in ([], after, e),
  λ (before, after, e). (starts_with_iff [] t).1 (tail_of before after e),
)
  where
    tail_of : (before after : Text) → [] ≡ before ++ t ++ after → (rest : Text) × ([] ≡ t ++ rest)
    tail_of [] after e = (after, e)
    tail_of (x ∷ xs) after e = cc e
contains_iff (c ∷ s) t = (
  λ h. elim (Bool-cases (starts_with (c ∷ s) t)) [
    | inl now ↦ let (after, e) = (starts_with_iff (c ∷ s) t).0 now in ([], after, e)
    | inr later ↦
        let (before, after, e) = (contains_iff s t).0 (ground (arith, h, later)) in
        (c ∷ before, after, ap (λ r. c ∷ r) e)
  ],
  λ (before, after, e). found (contains_iff s t).1 before after e,
)
  where
    found :
        ((before : Text) × (after : Text) × (s ≡ before ++ t ++ after) → contains s t ≡ true)
        → (before after : Text) → c ∷ s ≡ before ++ t ++ after
        → starts_with (c ∷ s) t || contains s t ≡ true
    found later [] after e = let h = (starts_with_iff (c ∷ s) t).1 (after, e) in ground (arith, h)
    found later (x ∷ xs) after e = ground (arith, later (xs, after, cc e))

-- One code unit of `s.toLowerCase()`, within ASCII.
abbrev lower_unit : ℕ → ℕ
lower_unit c = if leb b'A' c && leb c b'Z' then c + 32 else c

unfoldable pub to_lower_case : Text → Text
to_lower_case = map lower_unit

abbrev extend_first : ℕ → List Text → List Text
extend_first c [] = (c ∷ []) ∷ []
extend_first c (part ∷ parts) = (c ∷ part) ∷ parts

-- `s.split(sep)` for a separator of one code unit: always one part more than separators.
unfoldable pub split : ℕ → Text → List Text
split sep [] = [] ∷ []
split sep (c ∷ s) = if c == sep then [] ∷ split sep s else extend_first c (split sep s)

-- `parts.join(sep)`
unfoldable pub join : ℕ → List Text → Text
join sep [] = []
join sep (part ∷ []) = part
join sep (part ∷ next ∷ parts) = part ++ sep ∷ join sep (next ∷ parts)

join_cons :
    (sep c : ℕ) (p : Text) (ps : List Text) → join sep ((c ∷ p) ∷ ps) ≡ c ∷ join sep (p ∷ ps)
unfolding join
join_cons sep c p [] = refl
join_cons sep c p (q ∷ ps) = refl

split_nonempty : (sep : ℕ) (s : Text) → (p : Text) × (ps : List Text) × (split sep s ≡ p ∷ ps)
unfolding split
split_nonempty sep [] = ([], [], refl)
split_nonempty sep (c ∷ s) =
    let (p, ps, e) = split_nonempty sep s in
    elim (Bool-cases (c == sep)) [
      | inl t ↦ ([], split sep s, rw t)
      | inr f ↦ (c ∷ p, ps, rw (f, e))
    ]

-- Joining what a split gives back is the text.
pub join-split : (sep : ℕ) (s : Text) → join sep (split sep s) ≡ s
unfolding split join
join-split sep [] = refl
join-split sep (c ∷ s) =
    let (p, ps, e) = split_nonempty sep s in
    ground (arith, join-split sep s, e, join_cons sep c p ps)

-- No code unit of the text is the separator.
abbrev pub Lacks : ℕ → Text → Type 0
Lacks sep [] = Unit
Lacks sep (c ∷ s) = (c ≢ sep) × Lacks sep s

extend_first-Lacks :
    (sep c : ℕ) (ps : List Text)
    → c ≢ sep
    → All (Lacks sep) ps
    → All (Lacks sep) (extend_first c ps)
extend_first-Lacks sep c [] ne h = ((ne, tt), tt)
extend_first-Lacks sep c (p ∷ ps) ne h = ((ne, h.0), h.1)

pub split-Lacks : (sep : ℕ) (s : Text) → All (Lacks sep) (split sep s)
unfolding split
split-Lacks sep [] = (tt, tt)
split-Lacks sep (c ∷ s) = elim (Bool-cases (c == sep)) [
  | inl t ↦ rw t (tt, split-Lacks sep s)
  | inr f ↦ rw f (extend_first-Lacks sep c (split sep s) (ground arith) (split-Lacks sep s))
]

pub split_of_Lacks : (sep : ℕ) (s : Text) → Lacks sep s → split sep s ≡ s ∷ []
unfolding split
split_of_Lacks sep [] h = refl
split_of_Lacks sep (c ∷ s) h = ground (arith, split_of_Lacks sep s)

pub split-append_sep :
    (sep : ℕ) (p rest : Text) → Lacks sep p → split sep (p ++ sep ∷ rest) ≡ p ∷ split sep rest
unfolding split
split-append_sep sep [] rest h = ground arith
split-append_sep sep (c ∷ p) rest h = ground (arith, split-append_sep sep p rest)

extend_first-append :
    (c : ℕ) (p : Text) (ps rest : List Text)
    → extend_first c ((p ∷ ps) ++ rest) ≡ extend_first c (p ∷ ps) ++ rest
extend_first-append c p ps rest = refl

-- A split at every separator splits both sides of one.
pub split-append :
    (sep : ℕ) (p rest : Text) → split sep (p ++ sep ∷ rest) ≡ split sep p ++ split sep rest
unfolding split
split-append sep [] rest = ground arith
split-append sep (c ∷ p) rest =
    let (q, qs, e) = split_nonempty sep p in
    elim (Bool-cases (c == sep)) [
      | inl t ↦ rw t (ap (λ ps. [] ∷ ps) (split-append sep p rest))
      | inr f ↦ rw (f, split-append sep p rest, e) refl
    ]

join-append :
    (sep : ℕ) (p : Text) (ps : List Text) (x : Text) (xs : List Text)
    → join sep ((p ∷ ps) ++ x ∷ xs) ≡ join sep (p ∷ ps) ++ sep ∷ join sep (x ∷ xs)
unfolding join
join-append sep p [] x xs = refl
join-append sep p (q ∷ ps) x xs =
    ap (λ t. p ++ sep ∷ t) (join-append sep q ps x xs)
    ∙ sym (append_assoc p (sep ∷ join sep (q ∷ ps)) (sep ∷ join sep (x ∷ xs)))

-- If the parts of a text begin with those of another and go on, the text goes on with a separator after
-- the other.
pub split_prefix :
    (sep : ℕ) (s p : Text) (x : Text) (xs : List Text)
    → split sep s ≡ split sep p ++ x ∷ xs
    → s ≡ p ++ sep ∷ join sep (x ∷ xs)
split_prefix sep s p x xs h =
    let (q, qs, e) = split_nonempty sep p in
    sym (join-split sep s)
    ∙ ap (join sep) h
    ∙ ap (λ parts. join sep (parts ++ x ∷ xs)) e
    ∙ join-append sep q qs x xs
    ∙ ap (λ t. t ++ sep ∷ join sep (x ∷ xs)) (ap (join sep) (sym e) ∙ join-split sep p)
