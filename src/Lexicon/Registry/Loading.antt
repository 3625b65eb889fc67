-- ===== src/Lexicon/Registry/Loading.antt =====
-- Which schema a registry on file resolves to after it has read its directory.
use subspace_transceiver.Prelude.{
  ◌≡◌, refl, sym, ◌∙◌, inl, inr, ◌&&◌, List, [], ◌∷◌, Option, none, some, arith, Bool-cases,
  Option-cases, if◌then◌else◌,
}
use subspace_transceiver.Prelude.Dict
use subspace_transceiver.Prelude.Text.{Text, codes, text_eq, text_eq_iff}
use subspace_transceiver.Nsid.{ends_with}
use subspace_transceiver.Lexicon.{LexiconSchema}
use subspace_transceiver.Lexicon.Registry.{
  Schemas, Directory, resolve, add_missing, read_files, load, new_registry, create_file_registry,
}

-- The first well-formed `.json` file of the directory with the id.
unfoldable pub first_cached : Text → Directory → Option LexiconSchema
first_cached id [] = none
first_cached id ((file, none) ∷ files) = first_cached id files
first_cached id ((file, some s) ∷ files) =
    if ends_with file (codes ".json") && text_eq s.id id then some s else first_cached id files

abbrev pub first_given : Option LexiconSchema → Option LexiconSchema → Option LexiconSchema
first_given none other = other
first_given (some s) other = some s

resolve-add_missing :
    (id : Text) (s : LexiconSchema) (schemas : Schemas)
    → resolve id (add_missing s schemas)
      ≡ first_given (resolve id schemas) (if text_eq s.id id then some s else none)
unfolding resolve add_missing
resolve-add_missing id s schemas = elim (Option-cases (Dict.get s.id schemas)) [
  | inl e ↦
      rw (e, add_missing) (ground (arith, Dict.get-set s.id id s schemas, text_eq_iff s.id id))
  | inr (old, e) ↦ rw (e, add_missing) (ground (arith, text_eq_iff s.id id))
]

first_given-none : (o : Option LexiconSchema) → first_given o none ≡ o
first_given-none none = refl
first_given-none (some s) = refl

resolve-read_files :
    (id : Text) (files : Directory) (schemas : Schemas)
    → resolve id (read_files files schemas)
      ≡ first_given (resolve id schemas) (first_cached id files)
unfolding read_files first_cached
resolve-read_files id [] schemas = sym (first_given-none (resolve id schemas))
resolve-read_files id ((file, none) ∷ files) schemas = resolve-read_files id files schemas
resolve-read_files id ((file, some s) ∷ files) schemas =
    elim (Bool-cases (ends_with file (codes ".json"))) [
      | inl t ↦ rw t (
          resolve-read_files id files (add_missing s schemas)
          ∙ ground (arith, resolve-add_missing id s schemas))
      | inr f ↦ rw f (resolve-read_files id files schemas)
    ]

-- A registry on file resolves an id to the built-in schema of that id if there is one, and otherwise to
-- the first well-formed `.json` file of its directory with that id, whatever its revision and that of
-- the files after it.
pub create_file_registry-resolve :
    (id : Text) (built_ins : List LexiconSchema) (directory : Directory)
    → resolve id ((create_file_registry built_ins directory).schemas)
      ≡ first_given (resolve id (new_registry built_ins)) (first_cached id directory)
unfolding create_file_registry load
create_file_registry-resolve id built_ins directory =
    resolve-read_files id directory (new_registry built_ins)
