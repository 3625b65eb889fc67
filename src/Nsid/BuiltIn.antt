-- ===== src/Nsid/BuiltIn.antt =====
-- The two directions of the table of built-in names.
use subspace_transceiver.Prelude.{◌≡◌, ◌↔◌, refl, List, [], ◌∷◌, none, some, arith}
use subspace_transceiver.Prelude.Dict
use subspace_transceiver.Prelude.Text.{Text, text_eq, text_eq_iff}
use subspace_transceiver.Nsid.{built_in_nsids, memory_type_to_nsid, find_type, nsid_to_memory_type}

-- No key and no value stands twice.
abbrev IsOneToOne : List (Text × Text) → Type 0
IsOneToOne [] = Unit
IsOneToOne ((kind, n) ∷ entries) =
    (Dict.get kind entries ≡ none) × (find_type n entries ≡ none) × IsOneToOne entries

find_type_iff :
    (kind nsid : Text) (entries : List (Text × Text))
    → IsOneToOne entries
    → (Dict.get kind entries ≡ some nsid) ↔ (find_type nsid entries ≡ some kind)
unfolding find_type Dict.get
find_type_iff kind nsid [] h = ground arith
find_type_iff kind nsid ((k, n) ∷ entries) h =
    ground (arith, find_type_iff kind nsid entries (h.2), text_eq_iff k kind, text_eq_iff n nsid)

built_in-IsOneToOne : IsOneToOne built_in_nsids
unfolding find_type Dict.get text_eq
built_in-IsOneToOne = (
  refl,
  refl,
  (
    refl,
    refl,
    (
      refl,
      refl,
      (
        refl,
        refl,
        (
          refl,
          refl,
          (refl, refl, (refl, refl, (refl, refl, (refl, refl, (refl, refl, (refl, refl, tt)))))),
        ),
      ),
    ),
  ),
)

-- A memory type has a built-in name exactly if the name has that memory type: the two conversions undo
-- each other.
pub memory_type_to_nsid_iff :
    (kind nsid : Text)
    → (memory_type_to_nsid kind ≡ some nsid) ↔ (nsid_to_memory_type nsid ≡ some kind)
unfolding memory_type_to_nsid nsid_to_memory_type
memory_type_to_nsid_iff kind nsid = find_type_iff kind nsid built_in_nsids built_in-IsOneToOne
