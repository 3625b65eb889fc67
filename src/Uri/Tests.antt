-- ===== src/Uri/Tests.antt =====
-- Addresses parsed and built, and the theorems at concrete inputs.
use subspace_transceiver.Prelude.{◌≡◌, refl, true, false, some, arith}
use subspace_transceiver.Prelude.Text.{Text, codes, text_eq, starts_with, split, join}
use subspace_transceiver.Uri.{
  index_of, cut_did, cut_peer, path_parts, parse_agent_uri, build_agent_uri, build_blob_uri,
  is_agent_uri, is_blob_uri,
}
use subspace_transceiver.Uri.Parts.{IsPart}
use subspace_transceiver.Uri.Roundtrip.{IsAuthority, address}

uris : Unit {0}
unfolding text_eq starts_with split join index_of cut_did cut_peer path_parts parse_agent_uri
    build_agent_uri build_blob_uri is_agent_uri is_blob_uri
uris = tt

abbrev did : Text
did = codes "did:key:z6"

abbrev untidy : Text
untidy = codes "agent://did:key:z6//a/b/c"

untidy_parsed :
    parse_agent_uri untidy ≡ some (address did (some (codes "a")) (some (codes "b")) untidy)
unfolding uris
untidy_parsed = refl

too_short : is_agent_uri (codes "agent://peer/notes") ≡ false
unfolding uris
too_short = refl

did-IsAuthority : IsAuthority did
did-IsAuthority = record { lacks = omega arith; long = omega arith }

single-IsPart : IsPart (codes "a")
single-IsPart = record { nonempty = refl; lacks = (λ h. ground arith, tt) }

blob : is_blob_uri (build_blob_uri did (codes "0a1b")) ≡ true
unfolding uris
blob = refl
