-- ===== src/Lexicon/Registry/Reach.antt =====
-- What a registry holds after any registrations, refused ones included.
use subspace_transceiver.Prelude.{
  ◌≡◌, refl, sym, ap, subst, ◌∙◌, ◌↔◌, inl, inr, Bool, true, not, ◌&&◌, List, [], ◌∷◌, Option, some,
  Bool-cases, if◌then◌else◌, Elem, Elem-filter, filter-Elem,
}
use subspace_transceiver.Prelude.Dict
use subspace_transceiver.Prelude.Keyed.{IsKeyed, nothing, set-IsKeyed, values_iff}
use subspace_transceiver.Prelude.Text.{Text, text_eq}
use subspace_transceiver.Nsid.{is_valid_nsid, nsid_matches}
use subspace_transceiver.Lexicon.Values.{is_integer, less, lookup, own, as_text, as_number}
use subspace_transceiver.Lexicon.{LexiconSchema}
use subspace_transceiver.Lexicon.Meta.{
  one, is_object, is_one, is_truthy, is_nsid_value, is_revision, check_defs, property_of,
  validate_lexicon_schema,
}
use subspace_transceiver.Lexicon.Registry.{
  Schemas, put_schemas, new_registry, resolve, schema_value, register, after, list,
  find_schemas_by_pattern,
}

unfoldable pub is_registrable : LexiconSchema → Bool
is_registrable s = is_valid_nsid s.id && (not (less s.revision one) && is_integer s.revision)

-- A registration is accepted exactly if the id is a valid NSID and the revision a whole number from 1 on.
register_lem :
    (s : LexiconSchema) (m : Schemas)
    → after m (register s m) ≡ (if is_registrable s then Dict.set s.id s m else m)
unfolding register is_registrable validate_lexicon_schema schema_value is_object property_of is_one
    is_nsid_value is_revision check_defs is_truthy lookup own text_eq as_text as_number
register_lem s m = elim (Bool-cases (is_valid_nsid s.id)) [
  | inl t ↦ elim (Bool-cases (not (less s.revision one) && is_integer s.revision)) [
    | inl u ↦ rw (t, u) refl
    | inr v ↦ rw (t, v) refl
  ]
  | inr f ↦ rw f refl
]

-- Registrations one after another; one that throws changes nothing.
unfoldable pub register_all : List LexiconSchema → Schemas → Schemas
register_all [] m = m
register_all (s ∷ ss) m = register_all ss (after m (register s m))

-- The last registrable schema of the list with the id.
unfoldable pub latest : Text → List LexiconSchema → Option LexiconSchema → Option LexiconSchema
latest id [] found = found
latest id (s ∷ ss) found =
    latest id ss (if is_registrable s && text_eq s.id id then some s else found)

resolve-registered :
    (id : Text) (s : LexiconSchema) (m : Schemas)
    → resolve id (if is_registrable s then Dict.set s.id s m else m)
      ≡ (if is_registrable s && text_eq s.id id then some s else resolve id m)
unfolding resolve
resolve-registered id s m = elim (Bool-cases (is_registrable s)) [
  | inl t ↦ rw t (Dict.get-set s.id id s m)
  | inr f ↦ rw f refl
]

-- After registrations, the refused ones among them, an id resolves to the last schema with that id
-- that has a valid NSID and a positive whole revision, and to what it resolved to before if there is
-- none.
pub resolve-register_all :
    (id : Text) (ss : List LexiconSchema) (m : Schemas)
    → resolve id (register_all ss m) ≡ latest id ss (resolve id m)
unfolding register_all latest
resolve-register_all id [] m = refl
resolve-register_all id (s ∷ ss) m =
    resolve-register_all id ss (after m (register s m))
    ∙ ap (latest id ss) (ap (resolve id) (register_lem s m) ∙ resolve-registered id s m)

-- Every schema stands under its own id, and no id twice.
IsRegistry : Schemas → Type 0
IsRegistry = IsKeyed (λ s. s.id)

set-IsRegistry : (s : LexiconSchema) (m : Schemas) → IsRegistry m → IsRegistry (Dict.set s.id s m)
unfolding IsRegistry
set-IsRegistry = set-IsKeyed (λ s. s.id)

put_schemas-IsRegistry :
    (built_ins : List LexiconSchema) (m : Schemas)
    → IsRegistry m
    → IsRegistry (put_schemas built_ins m)
unfolding put_schemas
put_schemas-IsRegistry [] m h = h
put_schemas-IsRegistry (s ∷ ss) m h =
    put_schemas-IsRegistry ss (Dict.set s.id s m) (set-IsRegistry s m h)

register_all-IsRegistry :
    (ss : List LexiconSchema) (m : Schemas) → IsRegistry m → IsRegistry (register_all ss m)
unfolding register_all
register_all-IsRegistry [] m h = h
register_all-IsRegistry (s ∷ ss) m h =
    register_all-IsRegistry ss (after m (register s m))
      (subst IsRegistry (sym (register_lem s m)) (kept s m h))
  where
    kept :
        (s : LexiconSchema) (m : Schemas)
        → IsRegistry m
        → IsRegistry (if is_registrable s then Dict.set s.id s m else m)
    kept s m h = elim (Bool-cases (is_registrable s)) [
      | inl t ↦ rw t (set-IsRegistry s m h)
      | inr f ↦ rw f h
    ]

-- A registry that starts from any built-in schemas finds by a pattern exactly the schemas that their own
-- id resolves to and matches.
pub find_schemas_by_pattern_iff :
    (built_ins ss : List LexiconSchema) (pattern : Text) (s : LexiconSchema)
    → Elem s (find_schemas_by_pattern (register_all ss (new_registry built_ins)) pattern) ↔ (
        (resolve s.id (register_all ss (new_registry built_ins)) ≡ some s)
        × (nsid_matches s.id pattern ≡ true))
unfolding find_schemas_by_pattern list resolve new_registry IsRegistry
find_schemas_by_pattern_iff built_ins ss pattern s =
    let m = register_all ss (new_registry built_ins) in
    let ok =
      register_all-IsRegistry ss (new_registry built_ins)
        (put_schemas-IsRegistry built_ins [] (nothing (λ s. s.id))) in
    (
      λ h.
          let (listed, matches) =
            Elem-filter (λ t. nsid_matches t.id pattern) s (Dict.values m) h in
          ((values_iff (λ s. s.id) s m ok).0 listed, matches),
      λ h.
          filter-Elem (λ t. nsid_matches t.id pattern) s (Dict.values m)
            ((values_iff (λ s. s.id) s m ok).1 h.0) (h.1),
    )
