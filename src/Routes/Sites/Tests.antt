-- ===== src/Routes/Sites/Tests.antt =====
-- A site with two versions of a note, and the theorems at concrete inputs.
use subspace_transceiver.Prelude.{
  ◌≡◌, refl, false, List, [], ◌∷◌, ◌++◌, none, some, Elem, inl, inr, arith, map,
}
use subspace_transceiver.Prelude.Sets.{add, includes}
use subspace_transceiver.Prelude.Sort.{sort_by, insert_by}
use subspace_transceiver.Prelude.Text.{Text, codes, text_eq, starts_with, split, join}
use subspace_transceiver.Schema.{MemoryChunk}
use subspace_transceiver.Samples.{first, second, other_second}
use subspace_transceiver.Discovery.{new_manager}
use subspace_transceiver.Uri.{
  agent_scheme, index_of, cut_did, cut_peer, path_parts, parse_agent_uri, build_agent_uri,
}
use subspace_transceiver.Uri.Parts.{IsPart}
use subspace_transceiver.Uri.Roundtrip.{IsAuthority}
use subspace_transceiver.Routes.{Reads, keep_new}
use subspace_transceiver.Routes.Search.{SearchSession, SendQuery}
use subspace_transceiver.Routes.Sites.{
  stores_in, first_in, first_listed, first_sent, first_answer, ask_network, Resolution,
  resolve_parsed, resolve, tally_site, tally_sites, text_le, get_site, asked_of, get_collection,
}
use subspace_transceiver.Routes.Resolved.{IsResolved, resolve-IsResolved, resolve-build}

routes : Unit {0}
unfolding text_eq starts_with split join index_of cut_did cut_peer path_parts parse_agent_uri
    build_agent_uri stores_in first_in first_listed first_sent first_answer ask_network
    resolve_parsed resolve tally_site tally_sites text_le get_site asked_of get_collection keep_new
    add includes sort_by insert_by
routes = tt

abbrev peer : Text
peer = codes "peer-00001"

-- Two versions of one note, and a chunk of the same peer in another collection.
abbrev note : MemoryChunk → MemoryChunk
note c = record c {
  source = record {
    agent_id = codes "agent";
    peer_id = peer;
    project = none;
    session_id = none;
    timestamp = c.source.timestamp;
  };
  collection = some (codes "notes");
  slug = some (codes "a");
}

abbrev old : MemoryChunk
old = note first

abbrev new : MemoryChunk
new = note second

abbrev recipe : MemoryChunk
recipe = record (note other_second) { collection = some (codes "food") }

abbrev reads_of : List MemoryChunk → Reads
reads_of cs = record { get = λ id. none; list = cs; query = λ q. cs }

abbrev sessions : List SearchSession
sessions =
    record {
      id = codes "net";
      skill = reads_of (old ∷ new ∷ []);
      project = reads_of (recipe ∷ []);
      peers = [];
      discovery = new_manager none;
    }
    ∷ []

abbrev send : SendQuery
send id p q pow = none

abbrev raw : Text
raw = codes "peer-00001/notes/a"

-- An address leads to the version that is listed first, also where another one supersedes it.
resolved_old : resolve send raw sessions ≡ Resolution.resolved old
unfolding routes
resolved_old = refl

unresolved_slug : resolve send (codes "peer-00001/notes/b") sessions ≡ Resolution.unresolved
unfolding routes
unresolved_slug = refl

short_peer : resolve send (codes "peer/notes") sessions ≡ Resolution.malformed
unfolding routes
short_peer = refl

site_collections : (get_site peer sessions).collections ≡ codes "food" ∷ codes "notes" ∷ []
unfolding routes
site_collections = refl

collection_newest_first :
    map (λ c. c.id) (get_collection peer (codes "notes") none 50 sessions)
    ≡ codes "c" ∷ codes "b" ∷ codes "a" ∷ []
unfolding routes
collection_newest_first = refl

resolve-IsResolved_example : IsResolved send raw sessions (resolve send raw sessions)
resolve-IsResolved_example = resolve-IsResolved send raw sessions

peer-IsAuthority : IsAuthority peer
peer-IsAuthority = record { lacks = omega arith; long = omega arith }

notes-IsPart : IsPart (codes "notes")
notes-IsPart = record { nonempty = refl; lacks = omega arith }

a-IsPart : IsPart (codes "a")
a-IsPart = record { nonempty = refl; lacks = (λ h. ground arith, tt) }

built : agent_scheme ++ raw ≡ build_agent_uri peer (some (codes "notes")) (some (codes "a"))
unfolding routes
built = refl

stored : Elem (reads_of (old ∷ new ∷ [])) (stores_in sessions)
unfolding stores_in
stored = inl refl

resolve-build_example :
    (e : MemoryChunk) × (resolve send raw sessions ≡ Resolution.resolved e)
    × (e.tombstone ≡ false)
    × (e.source.peer_id ≡ peer)
    × (e.collection ≡ some (codes "notes"))
    × (e.slug ≡ some (codes "a"))
resolve-build_example =
    resolve-build send raw peer (codes "notes") (codes "a") sessions (reads_of (old ∷ new ∷ [])) new
      built peer-IsAuthority notes-IsPart a-IsPart stored (inr (inl refl)) refl refl refl refl
