-- ===== src/Lexicon/BuiltIn.antt =====
-- packages/core/src/lexicon.ts: the built-in schemas, and what the memory schemas say of a confidence.
use Prim.Native.String.{String}
use subspace_transceiver.Prelude.{
  ℕ, ◌≡◌, subst, inl, inr, ◌*◌, false, List, [], ◌∷◌, none, some, Bool-cases,
}
use subspace_transceiver.Prelude.Text.{Text, codes}
use subspace_transceiver.Lexicon.Values.{
  Value, Fields, Number, finite, unit, is_integer, as_integer, as_number, is_nullish, lookup,
}
use subspace_transceiver.Lexicon.{
  FieldType, Constraints, FieldSchema, field, any_item, each, Properties, end, property,
  LexiconSchema, validate_record_data, is_valid,
}
use subspace_transceiver.Lexicon.Conforms.{
  Conforms, FieldsConform, RecordConforms, validate_record_data_iff,
}

abbrev pub whole_number : ℕ → Number
whole_number n = finite false (n * unit)

abbrev pub no_constraints : Constraints
no_constraints = record {
  description = none;
  max_length = none;
  min_length = none;
  enum = none;
  format = none;
  minimum = none;
  maximum = none;
  max_items = none;
  required = none;
  ref = none;
  refs = none;
}

abbrev described : String → Constraints
described text = record no_constraints { description = some (codes text) }

abbrev plain : FieldType → Constraints → FieldSchema
plain t c = field t c any_item end

abbrev text_field : String → FieldSchema
text_field about = plain FieldType.string_type (described about)

abbrev integer_field : String → FieldSchema
integer_field about = plain FieldType.integer_type (described about)

abbrev short_text : ℕ → FieldSchema
short_text n = plain FieldType.string_type (record no_constraints { max_length = some n })

abbrev pub confidence_field : FieldSchema
confidence_field = plain FieldType.integer_type (record (described "Confidence score 0-1") {
  minimum = some (whole_number 0);
  maximum = some (whole_number 1);
})

-- `{ ...MEMORY_RECORD_BASE_PROPERTIES, ...more }`
abbrev pub with_base_properties : Properties → Properties
with_base_properties more =
    property (codes "content")
      (plain FieldType.string_type (record (described "Text content") { max_length = some 65536 }))
      (property (codes "topic")
        (field FieldType.array_type (described "Semantic tags")
          (each (plain FieldType.string_type no_constraints)) end)
        (property (codes "confidence") confidence_field more))

abbrev names : List String → List Text
names [] = []
names (s ∷ ss) = codes s ∷ names ss

abbrev lexicon : String → String → List String → Properties → LexiconSchema
lexicon id about required properties = record {
  id = codes id;
  description = some (codes about);
  revision = whole_number 1;
  main = record { description = none; required = some (names required); properties = properties };
}

-- The dash in the first description is an em dash in the source.
abbrev pub built_in_schemas : List LexiconSchema
built_in_schemas =
    lexicon "net.subspace.memory.skill" "Portable agent knowledge - reusable across projects"
      ("content" ∷ "topic" ∷ [])
      (with_base_properties
        (property (codes "language") (text_field "Programming language (for code skills)") end))
    ∷ lexicon "net.subspace.memory.context" "Conversation or session context"
        ("content" ∷ "topic" ∷ [])
        (with_base_properties (property (codes "sessionId") (text_field "Session identifier") end))
    ∷ lexicon "net.subspace.memory.pattern" "Recognized behavioral or data pattern"
        ("content" ∷ "topic" ∷ []) (with_base_properties end)
    ∷ lexicon "net.subspace.memory.result" "Task or computation result" ("content" ∷ "topic" ∷ [])
        (with_base_properties end)
    ∷ lexicon "net.subspace.memory.document" "Rich document" ("content" ∷ "topic" ∷ []) (
        with_base_properties
          (property (codes "mimeType") (text_field "MIME type of the content") end))
    ∷ lexicon "net.subspace.memory.thread" "Conversation thread" ("topic" ∷ [])
        (with_base_properties end)
    ∷ lexicon "net.subspace.schema.definition" "A Lexicon schema definition record"
        ("lexicon" ∷ "id" ∷ "revision" ∷ "defs" ∷ [])
        (property (codes "lexicon")
          (plain FieldType.integer_type (record no_constraints {
            minimum = some (whole_number 1);
            maximum = some (whole_number 1);
          }))
          (property (codes "id") (text_field "NSID of the schema") (
            property (codes "description") (plain FieldType.string_type no_constraints) (
              property (codes "revision")
                (plain FieldType.integer_type
                  (record no_constraints { minimum = some (whole_number 1) }))
                (property (codes "defs")
                  (plain FieldType.object_type (described "Type definitions")) end)))))
    ∷ lexicon "net.subspace.blob.manifest" "Binary blob manifest" ("topic" ∷ []) (
        with_base_properties (
          property (codes "blobCid") (text_field "IPFS CID of the blob") (
            property (codes "mimeType") (text_field "MIME type")
              (property (codes "size") (integer_field "Byte size") end))))
    ∷ lexicon "net.subspace.identity.profile" "Agent profile and identity" ("topic" ∷ []) (
        with_base_properties (
          property (codes "displayName") (short_text 128) (
            property (codes "bio") (short_text 512) (
              property (codes "website")
                (plain FieldType.string_type
                  (record no_constraints { format = some (codes "uri") }))
                end))))
    ∷ lexicon "net.subspace.mail.envelope" "A mail envelope for store-and-forward messaging"
        ("from" ∷ "to" ∷ "payload" ∷ "ephemeralPubKey" ∷ "nonce" ∷ "authTag" ∷ "signature"
          ∷ "timestamp" ∷ "ttl" ∷ [])
        (property (codes "from") (text_field "Sender PeerId") (
          property (codes "to") (text_field "Recipient PeerId") (
            property (codes "payload") (text_field "Base64 encrypted payload") (
              property (codes "ephemeralPubKey") (text_field "Base64 ephemeral X25519 public key") (
                property (codes "nonce") (text_field "Base64 AES-GCM nonce") (
                  property (codes "authTag") (text_field "Base64 AES-GCM auth tag") (
                    property (codes "signature") (text_field "Hex Ed25519 signature") (
                      property (codes "timestamp") (integer_field "Unix ms timestamp") (
                        property (codes "ttl") (integer_field "TTL in seconds") (
                          property (codes "contentType") (text_field "Content type hint")
                            end))))))))))
    ∷ []

fractional-Conforms :
    (n : Number) → is_integer n ≡ false → Conforms confidence_field (Value.number n) → ⊥
unfolding Conforms is_nullish as_integer as_number
fractional-Conforms n fraction (inl h) = cc
fractional-Conforms n fraction (inr (m, e, fits)) = cc (rw fraction at e)

base-Conforms :
    (more : Properties) (given : Fields) (value : Value)
    → FieldsConform (with_base_properties more) given
    → lookup (codes "confidence") given ≡ some value
    → Conforms confidence_field value
unfolding Conforms
base-Conforms more given value h found = (((h.1).1).0) value found

-- Under a schema that starts from the base properties of the memory records, a record with a
-- confidence that is no whole number, as 0.5, is not valid.
pub fractional_confidence :
    (schema : LexiconSchema) (more : Properties) (given : Fields) (n : Number)
    → schema.main.properties ≡ with_base_properties more
    → lookup (codes "confidence") given ≡ some (Value.number n)
    → is_integer n ≡ false
    → is_valid (validate_record_data given schema) ≡ false
unfolding RecordConforms
fractional_confidence schema more given n base found fraction =
    elim (Bool-cases (is_valid (validate_record_data given schema))) [
      | inl t ↦
          let conforms = (validate_record_data_iff given schema).0 t in
          absurd (
            fractional-Conforms n fraction (
              base-Conforms more given (Value.number n)
                (subst (λ p. FieldsConform p given) base (conforms.1)) found))
      | inr f ↦ f
    ]
