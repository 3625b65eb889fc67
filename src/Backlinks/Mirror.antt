-- ===== src/Backlinks/Mirror.antt =====
-- The index mirrors the links of the chunks it was built from.
use subspace_transceiver.Prelude.{◌≡◌, refl, ◌∙◌, Bool, not, ◌&&◌, ◌||◌, List, [], ◌∷◌, any, arith}
use subspace_transceiver.Prelude.Dict
use subspace_transceiver.Prelude.Sets.{includes}
use subspace_transceiver.Prelude.Text.{Text, text_eq}
use subspace_transceiver.Schema.{MemoryChunk}
use subspace_transceiver.Backlinks.{Index, get_backlinks, index_chunk, remove_chunk, build}
use subspace_transceiver.Backlinks.Edges.{
  has_edge, links_to, index_chunk-has_edge, remove_chunk-has_edge,
}

-- A live chunk of the list with this id points at the target.
abbrev pub is_linked : List MemoryChunk → Text → Text → Bool
is_linked chunks target id =
    any (λ c. not c.tombstone && links_to c target && text_eq c.id id) chunks

build-has_edge :
    (chunks : List MemoryChunk) (i : Index) (target id : Text)
    → has_edge (build chunks i) target id ≡ is_linked chunks target id || has_edge i target id
unfolding build
build-has_edge [] i target id = refl
build-has_edge (c ∷ chunks) i target id =
    ground
      (arith, build-has_edge chunks (index_chunk c i) target id, index_chunk-has_edge c i target id)

-- An index built from the chunks of a store lists, as backlinks of a target, exactly the ids of the
-- store's chunks that are no tombstones and have the target among the links that `getLinks` gives.
pub get_backlinks-build :
    (chunks : List MemoryChunk) (target id : Text)
    → includes (get_backlinks (build chunks []) target) id ≡ is_linked chunks target id
unfolding get_backlinks includes Dict.get
get_backlinks-build chunks target id = build-has_edge chunks [] target id ∙ ground arith

-- Indexing a chunk again changes no backlink, and removing it leaves the backlinks that it had no part
-- in: those from other ids, and those to targets that it does not link to.
pub remove_chunk-index_chunk :
    (c : MemoryChunk) (i : Index) (target id : Text)
    → (has_edge (index_chunk c (index_chunk c i)) target id ≡ has_edge (index_chunk c i) target id)
      × (has_edge (remove_chunk c (index_chunk c i)) target id
          ≡ not (links_to c target && text_eq c.id id) && has_edge i target id)
remove_chunk-index_chunk c i target id = (
  ground (
    arith,
    index_chunk-has_edge c (index_chunk c i) target id,
    index_chunk-has_edge c i target id,
  ),
  ground (
    arith,
    remove_chunk-has_edge c (index_chunk c i) target id,
    index_chunk-has_edge c i target id,
  ),
)
