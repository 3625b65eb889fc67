-- ===== src/Lexicon.antt =====
-- packages/core/src/lexicon.ts: schemas, and the validation of a record against one. The values are
-- those of `JSON.parse`, with `undefined` and the methods that an object inherits. An optional field of
-- a schema is an `Option`, or a data type where it holds schemas again.
pub mod Values
pub mod Conforms
pub mod Meta
pub mod BuiltIn
pub mod Registry
mod Tests
use subspace_transceiver.Prelude.{
  ℕ, zero, suc, Bool, true, false, not, ◌&&◌, List, [], ◌∷◌, ◌++◌, Option, none, some, ltb,
  if◌then◌else◌, unless_given, or_else,
}
use subspace_transceiver.Prelude.Numerals.{print}
use subspace_transceiver.Prelude.Sets.{includes}
use subspace_transceiver.Prelude.Text.{Text, codes}
use subspace_transceiver.Prelude
use subspace_transceiver.Lexicon.Values.{
  Value, Fields, Items, nil, cons, Number, less, is_integer, as_text, as_integer, is_boolean,
  as_items, as_fields, is_nullish, count, lookup, is_in,
}

pub data FieldType : Type 0 where
  string_type integer_type boolean_type array_type object_type bytes_type ref_type union_type :
      FieldType
  unknown_type : FieldType

-- The fields of `FieldSchema` that hold no schema.
pub record Constraints : Type 0 where
  pub description : Option Text
  pub max_length : Option ℕ
  pub min_length : Option ℕ
  pub enum : Option (List Text)
  pub format : Option Text
  pub minimum : Option Number
  pub maximum : Option Number
  pub max_items : Option ℕ
  pub required : Option (List Text)
  pub ref : Option Text
  pub refs : Option (List Text)

mutual
  pub data FieldSchema : Type 0 where
    field : FieldType → Constraints → ItemSchema → Properties → FieldSchema

  -- `items?: FieldSchema`
  pub data ItemSchema : Type 0 where
    any_item : ItemSchema
    each : FieldSchema → ItemSchema

  -- The entries of a `Record<string, FieldSchema>`; no entries where it is not given.
  pub data Properties : Type 0 where
    end : Properties
    property : Text → FieldSchema → Properties → Properties

-- `RecordDefinition`, less its constant fields.
pub record RecordDefinition : Type 0 where
  pub description : Option Text
  pub required : Option (List Text)
  pub properties : Properties

-- `LexiconSchema`, less the constant `lexicon: 1` and the definitions that no code reads.
pub record LexiconSchema : Type 0 where
  pub id : Text
  pub description : Option Text
  pub revision : Number
  pub main : RecordDefinition

-- The messages, less their words.
pub data Cause : Type 0 where
  missing_field wrong_type too_long too_short not_listed too_small too_large too_many : Cause

pub record Problem : Type 0 where
  pub path : Text
  pub cause : Cause

-- `if (test) errors.push(...)`
abbrev pub problem_if : Bool → Text → Cause → List Problem
problem_if test path cause = if test then record { path = path; cause = cause } ∷ [] else []

abbrev pub exceeds : Option ℕ → ℕ → Bool
exceeds limit n = not (unless_given limit (λ m. not (ltb m n)))

unfoldable pub check_string : Constraints → Text → Value → List Problem
check_string c path value = elim (as_text value) [
  | none ↦ problem_if true path Cause.wrong_type
  | some s ↦
      let size = Prelude.length s in
      problem_if (exceeds c.max_length size) path Cause.too_long
      ++ problem_if (not (unless_given c.min_length (λ m. not (ltb size m)))) path Cause.too_short
      ++ problem_if (not (unless_given c.enum (λ allowed. includes allowed s))) path
          Cause.not_listed
]

unfoldable pub check_integer : Constraints → Text → Value → List Problem
check_integer c path value = elim (as_integer value) [
  | none ↦ problem_if true path Cause.wrong_type
  | some n ↦
      problem_if (not (unless_given c.minimum (λ m. not (less n m)))) path Cause.too_small
      ++ problem_if (not (unless_given c.maximum (λ m. not (less m n)))) path Cause.too_large
]

-- The loop over the required names; `name` gives the path of a name.
unfoldable pub missing : (Text → Text) → List Text → Fields → List Problem
missing name [] object = []
missing name (r ∷ rs) object =
    problem_if (not (is_in r object)) (name r) Cause.missing_field ++ missing name rs object

-- `value.forEach((item, i) => errors.push(...check(item, path[i])))`
unfoldable pub each_item : (Text → Value → List Problem) → Text → ℕ → Items → List Problem
each_item check path i nil = []
each_item check path i (cons x xs) =
    check (path ++ codes "[" ++ print 10 i ++ codes "]") x ++ each_item check path (suc i) xs

abbrev pub inner : Text → Text → Text
inner path k = path ++ codes "." ++ k

-- `value === null || value === undefined` gives no errors.
abbrev pub unless_nullish : Value → List Problem → List Problem
unless_nullish value errors = if is_nullish value then [] else errors

unfoldable mutual
  pub validate_field : FieldSchema → Text → Value → List Problem
  validate_field (field unknown_type c items props) path value = []
  validate_field (field string_type c items props) path value =
      unless_nullish value (check_string c path value)
  validate_field (field integer_type c items props) path value =
      unless_nullish value (check_integer c path value)
  validate_field (field boolean_type c items props) path value =
      unless_nullish value (problem_if (not (is_boolean value)) path Cause.wrong_type)
  validate_field (field array_type c items props) path value =
      unless_nullish value (elim (as_items value) [
        | none ↦ problem_if true path Cause.wrong_type
        | some xs ↦
            problem_if (exceeds c.max_items (count xs)) path Cause.too_many
            ++ validate_items items path xs
      ])
  validate_field (field object_type c items props) path value =
      unless_nullish value (elim (as_fields value) [
        | none ↦ problem_if true path Cause.wrong_type
        | some object ↦
            missing (inner path) (or_else c.required []) object
            ++ validate_properties props (inner path) object
      ])
  validate_field (field bytes_type c items props) path value =
      unless_nullish value
        (elim (as_text value) [ none ↦ problem_if true path Cause.wrong_type | some s ↦ [] ])
  validate_field (field ref_type c items props) path value = []
  validate_field (field union_type c items props) path value = []

  pub validate_items : ItemSchema → Text → Items → List Problem
  validate_items any_item path xs = []
  validate_items (each s) path xs = each_item (validate_field s) path 0 xs

  pub validate_properties : Properties → (Text → Text) → Fields → List Problem
  validate_properties end name object = []
  validate_properties (property k s props) name object =
      elim (lookup k object) [ none ↦ [] | some value ↦ validate_field s (name k) value ]
      ++ validate_properties props name object

-- The paths of the fields of the record are their names.
unfoldable pub validate_record_data : Fields → LexiconSchema → List Problem
validate_record_data given schema =
    missing (λ k. k) (or_else schema.main.required []) given
    ++ validate_properties schema.main.properties (λ k. k) given

-- `valid: errors.length === 0`
abbrev pub is_valid : List Problem → Bool
is_valid [] = true
is_valid (p ∷ ps) = false
