-- ===== src/Backlinks/Tests.antt =====
-- A small graph of chunks, and the theorems at concrete inputs.
use subspace_transceiver.Prelude.{◌≡◌, refl, true, List, [], ◌∷◌, none, some}
use subspace_transceiver.Prelude.Dict
use subspace_transceiver.Prelude.Sets.{includes, add, remove}
use subspace_transceiver.Prelude.Text.{Text, codes, text_eq}
use subspace_transceiver.Schema.{MemoryChunk, ContentLink}
use subspace_transceiver.Samples.{chunk_at}
use subspace_transceiver.Backlinks.{
  get_backlinks, add_edge, add_links, index_chunk, keep_sources, remove_edge, remove_links,
  remove_chunk, build, get_links,
}
use subspace_transceiver.Backlinks.Mirror.{is_linked, get_backlinks-build}

backlinks : Unit {0}
unfolding get_backlinks add_edge add_links index_chunk keep_sources remove_edge remove_links
    remove_chunk build get_links Dict.get Dict.set Dict.delete includes add remove text_eq
backlinks = tt

abbrev link_to : Text → ContentLink
link_to target = record { target = target; rel = codes "related"; label = none }

-- `two` supersedes `one`; `three` links to both.
abbrev one_id : Text
one_id = codes "c1"

abbrev two_id : Text
two_id = codes "chunk2"

abbrev three_id : Text
three_id = codes "chunk-3"

abbrev two : MemoryChunk
two = chunk_at two_id 20 (some one_id)

abbrev three : MemoryChunk
three = record (chunk_at three_id 30 none) { links = some (link_to one_id ∷ link_to two_id ∷ []) }

abbrev graph : List MemoryChunk
graph =
    chunk_at one_id 10 none ∷ two ∷ three ∷ record two { id = codes "dead"; tombstone = true } ∷ []

sources_of_one : get_backlinks (build graph []) one_id ≡ two_id ∷ three_id ∷ []
unfolding backlinks
sources_of_one = refl

after_removal : remove_chunk three (build graph []) ≡ (one_id, two_id ∷ []) ∷ []
unfolding backlinks
after_removal = refl

get_backlinks-build_example :
    includes (get_backlinks (build graph []) two_id) three_id ≡ is_linked graph two_id three_id
get_backlinks-build_example = get_backlinks-build graph two_id three_id
