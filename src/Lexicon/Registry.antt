-- ===== src/Lexicon/Registry.antt =====
-- packages/core/src/schema-registry.ts: the registries in memory and on file. A directory is the list
-- of its files in the order of `readdir`, each with the schema that it parses to, or `none` where it
-- is malformed. What `save` writes is kept as the list of the schemas that it was given.
pub mod Loading
pub mod Reach
use subspace_transceiver.Prelude.{
  ◌≡◌, Bool, true, false, List, [], ◌∷◌, ◌++◌, Option, none, some, filter, if◌then◌else◌,
}
use subspace_transceiver.Prelude.Dict
use subspace_transceiver.Prelude.Text.{Text, codes}
use subspace_transceiver.Nsid.{ends_with, nsid_matches}
use subspace_transceiver.Lexicon.Values.{Value, Fields, done, entry}
use subspace_transceiver.Lexicon.{LexiconSchema, Problem, validate_record_data, is_valid}
use subspace_transceiver.Lexicon.Meta.{one, SchemaProblem, validate_lexicon_schema}

-- `Map<string, LexiconSchema>`
abbrev pub Schemas : Type 0
Schemas = List (Text × LexiconSchema)

-- The loop of the constructor.
unfoldable pub put_schemas : List LexiconSchema → Schemas → Schemas
put_schemas [] schemas = schemas
put_schemas (s ∷ rest) schemas = put_schemas rest (Dict.set s.id s schemas)

unfoldable pub new_registry : List LexiconSchema → Schemas
new_registry built_ins = put_schemas built_ins []

unfoldable pub resolve : Text → Schemas → Option LexiconSchema
resolve nsid schemas = Dict.get nsid schemas

-- The value that a schema is, as far as `validateLexiconSchema` reads it.
unfoldable pub schema_value : LexiconSchema → Value
schema_value s = Value.object (
    entry (codes "lexicon") (Value.number one) (
      entry (codes "id") (Value.string s.id) (
        entry (codes "revision") (Value.number s.revision) (
          entry (codes "defs") (Value.object (entry (codes "main") (Value.object done) done))
            done))))

-- What `register` throws, or the map that it leaves.
pub data Registered : Type 0 where
  invalid_schema : List SchemaProblem → Registered
  registered : Schemas → Registered

abbrev accept : LexiconSchema → Schemas → List SchemaProblem → Registered
accept s schemas [] = registered (Dict.set s.id s schemas)
accept s schemas (p ∷ ps) = invalid_schema (p ∷ ps)

unfoldable pub register : LexiconSchema → Schemas → Registered
unfolding validate_lexicon_schema
register s schemas = accept s schemas (validate_lexicon_schema (schema_value s))

unfoldable pub list : Schemas → List LexiconSchema
list schemas = Dict.values schemas

pub record Verdict : Type 0 where
  pub valid : Bool
  pub errors : List Problem
  pub unknown_schema : Bool

unfoldable pub validate_record : Text → Fields → Schemas → Verdict
unfolding resolve
validate_record nsid given schemas = elim (resolve nsid schemas) [
  | none ↦ record { valid = true; errors = []; unknown_schema = true }
  | some s ↦
      let problems = validate_record_data given s in
      record { valid = is_valid problems; errors = problems; unknown_schema = false }
]

unfoldable pub find_schemas_by_pattern : Schemas → Text → List LexiconSchema
unfolding list
find_schemas_by_pattern schemas pattern = filter (λ s. nsid_matches s.id pattern) (list schemas)

pub record FileRegistry : Type 0 where
  pub schemas : Schemas
  pub loaded : Bool
  pub saved : List LexiconSchema

abbrev pub Directory : Type 0
Directory = List (Text × Option LexiconSchema)

-- `if (!this.schemas.has(schema.id)) this.schemas.set(schema.id, schema)`
unfoldable pub add_missing : LexiconSchema → Schemas → Schemas
add_missing s schemas = elim (Dict.get s.id schemas) [
  | none ↦ Dict.set s.id s schemas
  | some old ↦ schemas
]

-- The loop of `load`.
unfoldable pub read_files : Directory → Schemas → Schemas
read_files [] schemas = schemas
read_files ((file, none) ∷ files) schemas = read_files files schemas
read_files ((file, some s) ∷ files) schemas =
    read_files files (if ends_with file (codes ".json") then add_missing s schemas else schemas)

unfoldable pub load : Directory → FileRegistry → FileRegistry
load directory r =
    if r.loaded then r else record r { schemas = read_files directory r.schemas; loaded = true }

-- The map after a registration that may have been refused.
abbrev pub after : Schemas → Registered → Schemas
after schemas (invalid_schema problems) = schemas
after schemas (registered next) = next

-- `register` of the registry on file: whether it throws, and the registry that it leaves.
unfoldable pub register_file : LexiconSchema → FileRegistry → Registered × FileRegistry
unfolding register
register_file s r =
    let outcome = register s r.schemas in
    (
      outcome,
      elim outcome [
        | invalid_schema problems ↦ r
        | registered next ↦ record r { schemas = next; saved = r.saved ++ s ∷ [] }
      ],
    )

-- `createFileRegistry`
unfoldable pub create_file_registry : List LexiconSchema → Directory → FileRegistry
unfolding load new_registry
create_file_registry built_ins directory =
    load directory (record { schemas = new_registry built_ins; loaded = false; saved = [] })
