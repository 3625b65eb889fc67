-- ===== src/Lexicon/Conforms.antt =====
-- What it means that a value is of the type of a schema, without messages and paths, and that the
-- validation decides it.
use subspace_transceiver.Prelude.{
  ℕ, zero, suc, ◌≤◌, ◌≡◌, refl, sym, subst, ◌↔◌, ◌⊎◌, inl, inr, Bool, true, false, not, List, [],
  ◌∷◌, ◌++◌, Option, none, some, some_inj, ltb, leb, unless_given, arith, Bool-cases, Option-cases,
  Elem, or_else,
}
use subspace_transceiver.Prelude
use subspace_transceiver.Prelude.Sets.{includes}
use subspace_transceiver.Prelude.Text.{Text}
use subspace_transceiver.Lexicon.Values.{
  Value, Fields, Items, nil, cons, Number, less, as_text, as_integer, is_boolean, as_items,
  as_fields, is_nullish, count, lookup, is_in,
}
use subspace_transceiver.Lexicon.{
  FieldType, Constraints, FieldSchema, field, ItemSchema, any_item, each, Properties, end, property,
  LexiconSchema, Problem, problem_if, exceeds, Cause, check_string, check_integer, missing,
  each_item, inner, unless_nullish, validate_field, validate_items, validate_properties,
  validate_record_data, is_valid,
}

-- What an optional constraint asks for.
abbrev pub Given : {A : Type 0} → Option A → (A → Type 0) → Type 0
Given none P = Unit
Given (some a) P = P a

abbrev pub TextFits : Constraints → Text → Type 0
TextFits c s =
    Given c.max_length (λ m. Prelude.length s ≤ m)
    × Given c.min_length (λ m. m ≤ Prelude.length s)
    × Given c.enum (λ allowed. includes allowed s ≡ true)

abbrev pub IntegerFits : Constraints → Number → Type 0
IntegerFits c n = Given c.minimum (λ m. less n m ≡ false) × Given c.maximum (λ m. less m n ≡ false)

abbrev pub AllItems : (Value → Type 0) → Items → Type 0
AllItems P nil = Unit
AllItems P (cons x xs) = P x × AllItems P xs

-- A value that is null or undefined is of every type.
abbrev OrNullish : Value → Type 0 → Type 0
OrNullish value P = (is_nullish value ≡ true) ⊎ P

unfoldable mutual
  pub Conforms : FieldSchema → Value → Type 0
  Conforms (field FieldType.unknown_type c items props) value = Unit
  Conforms (field FieldType.ref_type c items props) value = Unit
  Conforms (field FieldType.union_type c items props) value = Unit
  Conforms (field FieldType.string_type c items props) value =
      OrNullish value ((s : Text) × (as_text value ≡ some s) × TextFits c s)
  Conforms (field FieldType.bytes_type c items props) value =
      OrNullish value ((s : Text) × (as_text value ≡ some s))
  Conforms (field FieldType.integer_type c items props) value =
      OrNullish value ((n : Number) × (as_integer value ≡ some n) × IntegerFits c n)
  Conforms (field FieldType.boolean_type c items props) value =
      OrNullish value (is_boolean value ≡ true)
  Conforms (field FieldType.array_type c items props) value = OrNullish value (
      (xs : Items) × (as_items value ≡ some xs)
      × (Given c.max_items (λ m. count xs ≤ m) × ItemsConform items xs))
  Conforms (field FieldType.object_type c items props) value = OrNullish value (
      (o : Fields) × (as_fields value ≡ some o)
      × (((r : Text) → Elem r (or_else c.required []) → is_in r o ≡ true) × FieldsConform props o))

  pub ItemsConform : ItemSchema → Items → Type 0
  ItemsConform any_item xs = Unit
  ItemsConform (each s) xs = AllItems (Conforms s) xs

  -- Every entry that the schema names and the object has is of its type.
  pub FieldsConform : Properties → Fields → Type 0
  FieldsConform end o = Unit
  FieldsConform (property k s props) o =
      ((value : Value) → lookup k o ≡ some value → Conforms s value) × FieldsConform props o

append-nil_iff : (xs ys : List Problem) → ((xs ++ ys) ≡ []) ↔ ((xs ≡ []) × (ys ≡ []))
append-nil_iff [] ys = (λ h. (refl, h), λ h. h.1)
append-nil_iff (x ∷ xs) ys = (λ h. cc, λ h. cc)

problem_if_iff :
    (b : Bool) (path : Text) (cause : Cause) → (problem_if b path cause ≡ []) ↔ (b ≡ false)
problem_if_iff true path cause = (λ h. cc, λ h. cc)
problem_if_iff false path cause = (λ h. refl, λ h. refl)

unless_nullish_iff :
    (value : Value) (errors : List Problem) {P : Type 0}
    → ((errors ≡ []) ↔ P)
    → (unless_nullish value errors ≡ []) ↔ OrNullish value P
unless_nullish_iff value errors h = elim (Bool-cases (is_nullish value)) [
  | inl t ↦ rw t (λ _. inl refl, λ _. refl)
  | inr f ↦ rw f (λ e. inr (h.0 e), λ o. elim o [ inl t ↦ cc | inr p ↦ h.1 p ])
]

exceeds_iff : (limit : Option ℕ) (n : ℕ) → (exceeds limit n ≡ false) ↔ Given limit (λ m. n ≤ m)
exceeds_iff none n = (λ _. tt, λ _. refl)
exceeds_iff (some m) n = ground arith

falls_short_iff :
    (limit : Option ℕ) (n : ℕ)
    → (not (unless_given limit (λ m. not (ltb n m))) ≡ false) ↔ Given limit (λ m. m ≤ n)
falls_short_iff none n = (λ _. tt, λ _. refl)
falls_short_iff (some m) n = ground arith

fails_iff :
    {A : Type 0} (o : Option A) (test : A → Bool)
    → (not (unless_given o (λ a. not (test a))) ≡ false) ↔ Given o (λ a. test a ≡ false)
fails_iff none test = (λ _. tt, λ _. refl)
fails_iff (some a) test = ground arith

misses_iff :
    {A : Type 0} (o : Option A) (test : A → Bool)
    → (not (unless_given o test) ≡ false) ↔ Given o (λ a. test a ≡ true)
misses_iff none test = (λ _. tt, λ _. refl)
misses_iff (some a) test = ground arith

-- Two groups of errors are empty when both of their conditions hold.
both_iff :
    (xs ys : List Problem) {P Q : Type 0}
    → ((xs ≡ []) ↔ P)
    → ((ys ≡ []) ↔ Q)
    → ((xs ++ ys) ≡ []) ↔ (P × Q)
both_iff xs ys p q = (
  λ h. let (a, b) = (append-nil_iff xs ys).0 h in (p.0 a, q.0 b),
  λ h. (append-nil_iff xs ys).1 (p.1 (h.0), q.1 (h.1)),
)

problem_if_then :
    (b : Bool) (path : Text) (cause : Cause) {P : Type 0}
    → ((b ≡ false) ↔ P)
    → (problem_if b path cause ≡ []) ↔ P
problem_if_then b path cause h =
    (λ e. h.0 ((problem_if_iff b path cause).0 e), λ p. (problem_if_iff b path cause).1 (h.1 p))

-- A check that looks at the value as one kind of thing.
view_iff :
    {A : Type 0} (o : Option A) (bad : List Problem) (errors : A → List Problem) (P : A → Type 0)
    → ((bad ≡ []) → ⊥)
    → ((a : A) → (errors a ≡ []) ↔ P a)
    → (elim o [ none ↦ bad | some a ↦ errors a ] ≡ []) ↔ ((a : A) × (o ≡ some a) × P a)
view_iff none bad errors P wrong h = (λ e. absurd (wrong e), λ p. cc (p.1))
view_iff (some a) bad errors P wrong h =
    (λ e. (a, refl, (h a).0 e), λ (b, same, p). (h a).1 (subst P (sym (some_inj same)) p))

three_iff :
    (xs ys zs : List Problem) {P Q R : Type 0}
    → ((xs ≡ []) ↔ P)
    → ((ys ≡ []) ↔ Q)
    → ((zs ≡ []) ↔ R)
    → ((xs ++ ys ++ zs) ≡ []) ↔ (P × Q × R)
three_iff xs ys zs p q r = (
  λ h.
      let (a, c) = (append-nil_iff (xs ++ ys) zs).0 h in
      let (x, y) = (append-nil_iff xs ys).0 a in (p.0 x, q.0 y, r.0 c),
  λ (x, y, z). (append-nil_iff (xs ++ ys) zs).1 ((append-nil_iff xs ys).1 (p.1 x, q.1 y), r.1 z),
)

is_given_iff :
    {A : Type 0} (o : Option A) (bad : List Problem)
    → ((bad ≡ []) → ⊥)
    → (elim o [ none ↦ bad | some a ↦ [] ] ≡ []) ↔ ((a : A) × (o ≡ some a))
is_given_iff none bad wrong = (λ e. absurd (wrong e), λ p. cc (p.1))
is_given_iff (some a) bad wrong = (λ _. (a, refl), λ _. refl)

check_string_iff :
    (c : Constraints) (path : Text) (value : Value)
    → (check_string c path value ≡ []) ↔ ((s : Text) × (as_text value ≡ some s) × TextFits c s)
unfolding check_string
check_string_iff c path value =
    view_iff (as_text value) _ _ (TextFits c) (λ h. cc)
      (λ s.
        three_iff _ _ _
          (problem_if_then _ path Cause.too_long (exceeds_iff c.max_length (Prelude.length s)))
          (problem_if_then _ path Cause.too_short (falls_short_iff c.min_length (Prelude.length s)))
          (problem_if_then _ path Cause.not_listed
            (misses_iff c.enum (λ allowed. includes allowed s))))

check_integer_iff :
    (c : Constraints) (path : Text) (value : Value)
    → (check_integer c path value ≡ [])
      ↔ ((n : Number) × (as_integer value ≡ some n) × IntegerFits c n)
unfolding check_integer
check_integer_iff c path value =
    view_iff (as_integer value) _ _ (IntegerFits c) (λ h. cc)
      (λ n.
        both_iff _ _ (problem_if_then _ path Cause.too_small (fails_iff c.minimum (λ m. less n m)))
          (problem_if_then _ path Cause.too_large (fails_iff c.maximum (λ m. less m n))))

missing_iff :
    (name : Text → Text) (rs : List Text) (o : Fields)
    → (missing name rs o ≡ []) ↔ ((r : Text) → Elem r rs → is_in r o ≡ true)
unfolding missing
missing_iff name [] o = (λ _ r m. absurd m, λ _. refl)
missing_iff name (r ∷ rs) o =
    let rest = missing_iff name rs o in
    elim (Bool-cases (is_in r o)) [
      | inl t ↦ rw t (
        λ h k m. elim m [ inl e ↦ subst (λ x. is_in x o ≡ true) (sym e) t | inr m ↦ rest.0 h k m ],
        λ h. rest.1 (λ k m. h k (inr m)),
      )
      | inr f ↦ rw f (λ h. cc, λ h. absurd (ground (arith, h r (inl refl))))
    ]

each_item_iff :
    (check : Text → Value → List Problem) (P : Value → Type 0) (path : Text) (i : ℕ) (xs : Items)
    → ((p : Text) (v : Value) → (check p v ≡ []) ↔ P v)
    → (each_item check path i xs ≡ []) ↔ AllItems P xs
unfolding each_item
each_item_iff check P path i nil h = (λ _. tt, λ _. refl)
each_item_iff check P path i (cons x xs) h =
    both_iff _ _ (h _ x) (each_item_iff check P path (suc i) xs h)

-- The entry of an object at a name of the schema, which need not be there.
found_iff :
    (o : Option Value) (errors : Value → List Problem) (P : Value → Type 0)
    → ((v : Value) → (errors v ≡ []) ↔ P v)
    → (elim o [ none ↦ [] | some v ↦ errors v ] ≡ []) ↔ ((v : Value) → o ≡ some v → P v)
found_iff none errors P h = (λ _ v e. cc, λ _. refl)
found_iff (some a) errors P h =
    (λ e v same. subst P (some_inj same) ((h a).0 e), λ p. (h a).1 (p a refl))

mutual
  unfolding validate_field Conforms

  validate_field_lem :
      (s : FieldSchema) (path : Text) (value : Value)
      → (validate_field s path value ≡ []) ↔ Conforms s value
  validate_field_lem (field FieldType.unknown_type c items props) path value = (λ _. tt, λ _. refl)
  validate_field_lem (field FieldType.ref_type c items props) path value = (λ _. tt, λ _. refl)
  validate_field_lem (field FieldType.union_type c items props) path value = (λ _. tt, λ _. refl)
  validate_field_lem (field FieldType.string_type c items props) path value =
      unless_nullish_iff value _ (check_string_iff c path value)
  validate_field_lem (field FieldType.bytes_type c items props) path value =
      unless_nullish_iff value _ (is_given_iff (as_text value) _ (λ h. cc))
  validate_field_lem (field FieldType.integer_type c items props) path value =
      unless_nullish_iff value _ (check_integer_iff c path value)
  validate_field_lem (field FieldType.boolean_type c items props) path value =
      unless_nullish_iff value _ (problem_if_then _ path Cause.wrong_type (ground arith))
  validate_field_lem (field FieldType.array_type c items props) path value =
      unless_nullish_iff value _ (
        view_iff (as_items value) _ _
          (λ xs. Given c.max_items (λ m. count xs ≤ m) × ItemsConform items xs) (λ h. cc)
          (λ xs.
            both_iff _ _
              (problem_if_then _ path Cause.too_many (exceeds_iff c.max_items (count xs)))
              (validate_items_lem items path xs)))
  validate_field_lem (field FieldType.object_type c items props) path value =
      unless_nullish_iff value _ (
        view_iff (as_fields value) _ _
          (λ o.
            ((r : Text) → Elem r (or_else c.required []) → is_in r o ≡ true)
            × FieldsConform props o)
          (λ h. cc)
          (λ o.
            both_iff _ _ (missing_iff (inner path) (or_else c.required []) o)
              (validate_properties_lem props (inner path) o)))

  validate_items_lem :
      (items : ItemSchema) (path : Text) (xs : Items)
      → (validate_items items path xs ≡ []) ↔ ItemsConform items xs
  validate_items_lem any_item path xs = (λ _. tt, λ _. refl)
  validate_items_lem (each s) path xs =
      each_item_iff (validate_field s) (Conforms s) path 0 xs (λ p v. validate_field_lem s p v)

  validate_properties_lem :
      (props : Properties) (name : Text → Text) (o : Fields)
      → (validate_properties props name o ≡ []) ↔ FieldsConform props o
  validate_properties_lem end name o = (λ _. tt, λ _. refl)
  validate_properties_lem (property k s props) name o =
      both_iff _ _
        (found_iff (lookup k o) (validate_field s (name k)) (Conforms s)
          (λ v. validate_field_lem s (name k) v))
        (validate_properties_lem props name o)

-- What a valid record of a schema is: the required names are there, and what is there is of its type.
unfoldable pub RecordConforms : Fields → LexiconSchema → Type 0
RecordConforms given schema =
    ((r : Text) → Elem r (or_else schema.main.required []) → is_in r given ≡ true)
    × FieldsConform schema.main.properties given

is_valid_iff : (errors : List Problem) → (is_valid errors ≡ true) ↔ (errors ≡ [])
is_valid_iff [] = (λ _. refl, λ _. refl)
is_valid_iff (p ∷ ps) = (λ h. cc, λ h. cc)

-- `validateRecordData` calls a record valid exactly if it has every required name and each of its
-- entries that the schema names is of the type that the schema gives, to any depth.
pub validate_record_data_iff :
    (given : Fields) (schema : LexiconSchema)
    → (is_valid (validate_record_data given schema) ≡ true) ↔ RecordConforms given schema
unfolding validate_record_data RecordConforms
validate_record_data_iff given schema =
    let errors =
      both_iff (missing (λ k. k) (or_else schema.main.required []) given)
        (validate_properties schema.main.properties (λ k. k) given)
        (missing_iff (λ k. k) (or_else schema.main.required []) given)
        (validate_properties_lem schema.main.properties (λ k. k) given) in
    let empty = is_valid_iff (validate_record_data given schema) in
    (λ h. errors.0 (empty.0 h), λ c. empty.1 (errors.1 c))
