-- ===== src/Lexicon/Meta.antt =====
-- packages/core/src/lexicon.ts: the validation of a schema itself, on whatever value was parsed.
use subspace_transceiver.Prelude.{
  ℕ, ◌≡◌, refl, ◌↔◌, inl, inr, Bool, true, false, not, ◌&&◌, ◌==◌, List, [], ◌∷◌, ◌++◌, none, some,
  if◌then◌else◌, or_else, arith, Bool-cases, Option-cases, some_inj, sym, ◌∙◌, ==_iff, ap,
}
use subspace_transceiver.Prelude.Text.{Text, codes, truthy}
use subspace_transceiver.Nsid.{is_valid_nsid}
use subspace_transceiver.Lexicon.Values.{
  Value, Number, finite, infinite, not_a_number, unit, less, is_integer, as_text, as_number, lookup,
}

-- `typeof value === 'object' && value !== null`
unfoldable pub is_object : Value → Bool
is_object (Value.array xs) = true
is_object (Value.object o) = true
is_object _ = false

-- `value.k`, for a name that arrays have not.
unfoldable pub property_of : Text → Value → Value
property_of k (Value.object o) = or_else (lookup k o) Value.undefined
property_of k _ = Value.undefined

unfoldable pub is_truthy : Value → Bool
is_truthy Value.undefined = false
is_truthy Value.null = false
is_truthy (Value.boolean b) = b
is_truthy (Value.number (finite negative units)) = not (units == 0)
is_truthy (Value.number not_a_number) = false
is_truthy (Value.string s) = truthy s
is_truthy _ = true

abbrev pub one : Number
one = finite false unit

-- `value === 1`
unfoldable pub is_one : Value → Bool
is_one (Value.number (finite false units)) = units == unit
is_one _ = false

pub data SchemaProblem : Type 0 where
  not_an_object lexicon_not_one invalid_id invalid_revision defs_not_object main_missing :
      SchemaProblem

unfoldable pub is_nsid_value : Value → Bool
is_nsid_value value = elim (as_text value) [ none ↦ false | some s ↦ is_valid_nsid s ]

unfoldable pub is_revision : Value → Bool
is_revision value = elim (as_number value) [
  | none ↦ false
  | some n ↦ not (less n one) && is_integer n
]

abbrev problem_unless : Bool → SchemaProblem → List SchemaProblem
problem_unless test problem = if test then [] else problem ∷ []

unfoldable pub check_defs : Value → List SchemaProblem
check_defs defs =
    if is_object defs
    then problem_unless (is_truthy (property_of (codes "main") defs)) SchemaProblem.main_missing
    else SchemaProblem.defs_not_object ∷ []

unfoldable pub validate_lexicon_schema : Value → List SchemaProblem
validate_lexicon_schema s =
    if is_object s
    then problem_unless (is_one (property_of (codes "lexicon") s)) SchemaProblem.lexicon_not_one
      ++ problem_unless (is_nsid_value (property_of (codes "id") s)) SchemaProblem.invalid_id
      ++ problem_unless (is_revision (property_of (codes "revision") s))
          SchemaProblem.invalid_revision
      ++ check_defs (property_of (codes "defs") s)
    else SchemaProblem.not_an_object ∷ []

-- What a schema has to be.
pub record IsSchema (s : Value) : Type 0 where
  pub version : property_of (codes "lexicon") s ≡ Value.number one
  pub named :
      (id : Text) × (property_of (codes "id") s ≡ Value.string id) × (is_valid_nsid id ≡ true)
  pub revised :
      (n : Number) × (property_of (codes "revision") s ≡ Value.number n)
      × (less n one ≡ false)
      × (is_integer n ≡ true)
  pub main : is_truthy (property_of (codes "main") (property_of (codes "defs") s)) ≡ true

units_of : Value → ℕ
units_of (Value.number (finite s m)) = m
units_of _ = 0

is_one_iff : (v : Value) → (is_one v ≡ true) ↔ (v ≡ Value.number one)
unfolding is_one units_of
is_one_iff (Value.number (finite false m)) = (
  λ h. ap (λ k. Value.number (finite false k)) ((==_iff m unit).0 h),
  λ e. (==_iff m unit).1 (ap units_of e),
)
is_one_iff (Value.number (finite true m)) = (λ h. cc, λ h. cc)
is_one_iff (Value.number (infinite s)) = (λ h. cc, λ h. cc)
is_one_iff (Value.number not_a_number) = (λ h. cc, λ h. cc)
is_one_iff Value.undefined = (λ h. cc, λ h. cc)
is_one_iff Value.null = (λ h. cc, λ h. cc)
is_one_iff Value.method = (λ h. cc, λ h. cc)
is_one_iff (Value.boolean b) = (λ h. cc, λ h. cc)
is_one_iff (Value.string b) = (λ h. cc, λ h. cc)
is_one_iff (Value.array b) = (λ h. cc, λ h. cc)
is_one_iff (Value.object b) = (λ h. cc, λ h. cc)

as_text-some : (v : Value) (s : Text) → as_text v ≡ some s → v ≡ Value.string s
unfolding as_text
as_text-some (Value.string b) s h = ap Value.string (some_inj h)
as_text-some Value.undefined s h = cc
as_text-some Value.null s h = cc
as_text-some Value.method s h = cc
as_text-some (Value.boolean b) s h = cc
as_text-some (Value.number b) s h = cc
as_text-some (Value.array b) s h = cc
as_text-some (Value.object b) s h = cc

as_number-some : (v : Value) (n : Number) → as_number v ≡ some n → v ≡ Value.number n
unfolding as_number
as_number-some (Value.number b) n h = ap Value.number (some_inj h)
as_number-some Value.undefined n h = cc
as_number-some Value.null n h = cc
as_number-some Value.method n h = cc
as_number-some (Value.boolean b) n h = cc
as_number-some (Value.string b) n h = cc
as_number-some (Value.array b) n h = cc
as_number-some (Value.object b) n h = cc

is_nsid_value_iff :
    (v : Value)
    → (is_nsid_value v ≡ true) ↔ ((id : Text) × (v ≡ Value.string id) × (is_valid_nsid id ≡ true))
unfolding is_nsid_value as_text
is_nsid_value_iff v = (
  λ h. elim (Option-cases (as_text v)) [
    | inl e ↦ absurd (cc (rw (e, is_nsid_value) at h))
    | inr (s, e) ↦ (s, as_text-some v s e, rw (e, is_nsid_value) at h)
  ],
  λ (id, e, valid). rw (e, valid) refl,
)

is_revision_iff :
    (v : Value)
    → (is_revision v ≡ true)
      ↔ ((n : Number) × (v ≡ Value.number n) × (less n one ≡ false) × (is_integer n ≡ true))
unfolding is_revision as_number
is_revision_iff v = (
  λ h. elim (Option-cases (as_number v)) [
    | inl e ↦ absurd (cc (rw (e, is_revision) at h))
    | inr (n, e) ↦
        let both : not (less n one) && is_integer n ≡ true = rw (e, is_revision) at h in
        (n, as_number-some v n e, ground (arith, both), ground (arith, both))
  ],
  λ (n, e, small, whole). rw (e, small, whole) refl,
)

-- Only an object has a property that is truthy.
property_of-is_object :
    (k : Text) (v : Value) → is_truthy (property_of k v) ≡ true → is_object v ≡ true
unfolding property_of is_truthy is_object
property_of-is_object k (Value.object o) h = refl
property_of-is_object k (Value.array o) h = refl
property_of-is_object k Value.undefined h = cc
property_of-is_object k Value.null h = cc
property_of-is_object k Value.method h = cc
property_of-is_object k (Value.boolean b) h = cc
property_of-is_object k (Value.number b) h = cc
property_of-is_object k (Value.string b) h = cc

append-nil_iff : (xs ys : List SchemaProblem) → ((xs ++ ys) ≡ []) ↔ ((xs ≡ []) × (ys ≡ []))
append-nil_iff [] ys = (λ h. (refl, h), λ h. h.1)
append-nil_iff (x ∷ xs) ys = (λ h. cc, λ h. cc)

problem_unless_iff : (b : Bool) (p : SchemaProblem) → (problem_unless b p ≡ []) ↔ (b ≡ true)
problem_unless_iff true p = (λ h. refl, λ h. refl)
problem_unless_iff false p = (λ h. cc, λ h. cc)

check_defs_iff :
    (v : Value) → (check_defs v ≡ []) ↔ (is_truthy (property_of (codes "main") v) ≡ true)
unfolding check_defs
check_defs_iff v =
    let main =
      problem_unless_iff (is_truthy (property_of (codes "main") v)) SchemaProblem.main_missing in
    elim (Bool-cases (is_object v)) [
      | inl t ↦ rw t main
      | inr f ↦
          rw f (λ h. cc, λ h. absurd (ground (arith, property_of-is_object (codes "main") v h)))
    ]

four_iff :
    (xs ys zs us : List SchemaProblem)
    → ((xs ++ ys ++ zs ++ us) ≡ []) ↔ ((xs ≡ []) × (ys ≡ []) × (zs ≡ []) × (us ≡ []))
four_iff xs ys zs us = (
  λ h.
      let (a, u) = (append-nil_iff (xs ++ ys ++ zs) us).0 h in
      let (b, z) = (append-nil_iff (xs ++ ys) zs).0 a in
      let (x, y) = (append-nil_iff xs ys).0 b in (x, y, z, u),
  λ (x, y, z, u). rw (x, y, z, u) refl,
)

object_iff : (s : Value) → is_object s ≡ true → (validate_lexicon_schema s ≡ []) ↔ IsSchema s
unfolding validate_lexicon_schema
object_iff s t =
    let version = is_one_iff (property_of (codes "lexicon") s) in
    let id = is_nsid_value_iff (property_of (codes "id") s) in
    let revision = is_revision_iff (property_of (codes "revision") s) in
    let defs = check_defs_iff (property_of (codes "defs") s) in
    let parts = four_iff _ _ _ (check_defs (property_of (codes "defs") s)) in
    rw t (
      λ h.
          let (a, b, c, d) = parts.0 h in
          record {
            version = version.0 ((problem_unless_iff _ SchemaProblem.lexicon_not_one).0 a);
            named = id.0 ((problem_unless_iff _ SchemaProblem.invalid_id).0 b);
            revised = revision.0 ((problem_unless_iff _ SchemaProblem.invalid_revision).0 c);
            main = defs.0 d;
          },
      λ ok. parts.1 (
        (problem_unless_iff _ SchemaProblem.lexicon_not_one).1 (version.1 ok.version),
        (problem_unless_iff _ SchemaProblem.invalid_id).1 (id.1 ok.named),
        (problem_unless_iff _ SchemaProblem.invalid_revision).1 (revision.1 ok.revised),
        defs.1 ok.main,
      ),
    )

-- What is no object has no property.
property_of-other : (k : Text) (v : Value) → is_object v ≡ false → property_of k v ≡ Value.undefined
unfolding property_of is_object
property_of-other k (Value.object o) h = cc
property_of-other k (Value.array o) h = cc
property_of-other k Value.undefined h = refl
property_of-other k Value.null h = refl
property_of-other k Value.method h = refl
property_of-other k (Value.boolean b) h = refl
property_of-other k (Value.number b) h = refl
property_of-other k (Value.string b) h = refl

-- `validateLexiconSchema` finds nothing wrong exactly if the value is an object of which `lexicon` is
-- the number 1, `id` a valid NSID, `revision` a whole number from 1 on, and `defs.main` truthy.
pub validate_lexicon_schema_iff : (s : Value) → (validate_lexicon_schema s ≡ []) ↔ IsSchema s
unfolding validate_lexicon_schema
validate_lexicon_schema_iff s = elim (Bool-cases (is_object s)) [
  | inl t ↦ object_iff s t
  | inr f ↦ (
    λ h. cc (rw (f, validate_lexicon_schema) at h),
    λ ok. cc (sym (property_of-other (codes "lexicon") s f) ∙ ok.version),
  )
]
