-- ===== src/Lexicon/Tests.antt =====
-- Records and schemas validated, and the theorems at concrete inputs.
use subspace_transceiver.Prelude.{◌^◌, ◌≡◌, ◌↔◌, refl, true, false, [], ◌∷◌, none, some}
use subspace_transceiver.Prelude.Dict
use subspace_transceiver.Prelude.Numerals.{print}
use subspace_transceiver.Prelude.Sets.{includes}
use subspace_transceiver.Prelude.Text.{codes, text_eq, split}
use subspace_transceiver.Nsid.{is_valid_nsid, is_valid_segment, ends_with}
use subspace_transceiver.Lexicon.Values.{
  Value, Fields, done, entry, nil, cons, Number, finite, is_integer, less, as_text, as_number,
  as_integer, as_items, as_fields, is_boolean, is_nullish, count, own, lookup, is_in,
}
use subspace_transceiver.Lexicon.{
  FieldType, field, any_item, each, end, property, LexiconSchema, Cause, validate_field,
  check_string, check_integer, missing, each_item, validate_record_data, is_valid,
}
use subspace_transceiver.Lexicon.Conforms.{RecordConforms, validate_record_data_iff}
use subspace_transceiver.Lexicon.Meta.{
  is_one, is_object, is_truthy, is_nsid_value, is_revision, check_defs, property_of, IsSchema,
  validate_lexicon_schema, validate_lexicon_schema_iff,
}
use subspace_transceiver.Lexicon.BuiltIn.{
  built_in_schemas, with_base_properties, no_constraints, whole_number,
}
use subspace_transceiver.Lexicon.Registry.{
  Directory, resolve, new_registry, put_schemas, schema_value,
}
use subspace_transceiver.Lexicon.Registry.Loading.{first_given, first_cached}

opened : Unit {0}
unfolding validate_field check_string check_integer missing each_item validate_record_data
    is_integer less as_text as_number as_integer as_items as_fields is_boolean is_nullish count own
    lookup is_in includes text_eq
opened = tt

-- A schema with an object in an array.
abbrev note : LexiconSchema
note = record {
  id = codes "com.example.note";
  description = none;
  revision = whole_number 1;
  main = record {
    description = none;
    required = some (codes "title" ∷ []);
    properties =
        property (codes "title")
          (field FieldType.string_type (record no_constraints { max_length = some 3 }) any_item end)
          (property (codes "tags")
            (field FieldType.array_type no_constraints
              (each (
                field FieldType.object_type
                  (record no_constraints { required = some (codes "name" ∷ []) }) any_item end))
              end)
            end);
  };
}

abbrev good : Fields
good = entry (codes "title") (Value.string (codes "abc")) (
    entry (codes "tags")
      (Value.array (cons (Value.object (entry (codes "name") Value.null done)) nil)) done)

abbrev bad : Fields
bad =
    entry (codes "tags")
      (Value.array (cons (Value.object done) (cons (Value.number (whole_number 1)) nil))) done

good_valid : validate_record_data good note ≡ []
unfolding opened
good_valid = refl

bad_invalid :
    validate_record_data bad note
    ≡ record { path = codes "title"; cause = Cause.missing_field }
      ∷ record { path = codes "tags[0].name"; cause = Cause.missing_field }
      ∷ record { path = codes "tags[1]"; cause = Cause.wrong_type }
      ∷ []
unfolding opened print
bad_invalid = refl

validate_record_data_iff_example :
    (is_valid (validate_record_data good note) ≡ true) ↔ RecordConforms good note
validate_record_data_iff_example = validate_record_data_iff good note

note_valid : IsSchema (schema_value note)
unfolding opened validate_lexicon_schema schema_value is_valid_nsid is_valid_segment split is_one
    is_object is_truthy is_nsid_value is_revision check_defs property_of
note_valid = (validate_lexicon_schema_iff (schema_value note)).0 refl

abbrev skill_schema : LexiconSchema
skill_schema = record {
  id = codes "net.subspace.memory.pattern";
  description = none;
  revision = whole_number 1;
  main = record {
    description = none;
    required = some (codes "content" ∷ codes "topic" ∷ []);
    properties = with_base_properties end;
  };
}

abbrev half : Number
half = finite false (2 ^ 1073)

abbrev half_sure : Fields
half_sure =
    entry (codes "content") (Value.string (codes "text")) (
      entry (codes "topic") (Value.array nil) (entry (codes "confidence") (Value.number half) done))

half_found : lookup (codes "confidence") half_sure ≡ some (Value.number half)
unfolding opened
half_found = refl

half_fractional : is_integer half ≡ false
unfolding opened
half_fractional = refl

abbrev note_2 : LexiconSchema
note_2 = record note { revision = whole_number 2 }

-- The directory lists the first revision before the second.
abbrev directory : Directory
directory =
    (codes "com_example_note_r1.json", some note)
    ∷ (codes "com_example_note_r2.json", some note_2)
    ∷ []

older_found :
    first_given
      (resolve (codes "com.example.note") (new_registry built_in_schemas))
      (first_cached (codes "com.example.note") directory)
    ≡ some note
unfolding opened resolve new_registry put_schemas first_cached ends_with Dict.get Dict.set
older_found = refl
