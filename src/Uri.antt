-- ===== src/Uri.antt =====
-- packages/core/src/uri.ts: agent:// addresses. Where the code throws, the result is `none`.
pub mod Parts
pub mod Roundtrip
pub mod Normal
mod Tests
use subspace_transceiver.Prelude.{
  ℕ, suc, zero, Bool, true, false, not, ◌&&◌, List, [], ◌∷◌, ◌++◌, Option, none, some, ltb, ◌==◌,
  length, take, drop, filter, if◌then◌else◌, or_else,
}
use mathlib.Core.Option.{map as option_map}
use subspace_transceiver.Prelude.Text.{Text, codes, text_eq, truthy, starts_with, split, join}

pub record AgentUri : Type 0 where
  pub peer_id : Text
  pub collection : Option Text
  pub slug : Option Text
  pub raw : Text
  pub is_did_key : Bool

abbrev pub agent_scheme : Text
agent_scheme = codes "agent://"

abbrev pub did_prefix : Text
did_prefix = codes "did:"

abbrev pub slash : ℕ
slash = b'/'

-- `s.indexOf(c)`; `none` for -1.
unfoldable pub index_of : ℕ → Text → Option ℕ
index_of c [] = none
index_of c (d ∷ s) = if d == c then some 0 else option_map suc (index_of c s)

abbrev pub first_of : List Text → Text
first_of [] = []
first_of (part ∷ parts) = part

-- The authority and the rest, for a DID: cut at the first slash.
unfoldable pub cut_did : Text → Text × Text
cut_did s = elim (index_of slash s) [
  | none ↦ (s, [])
  | some did_end ↦ (take did_end s, drop (suc did_end) s)
]

-- The authority and the rest, for a peer id: the first of the parts between slashes, and the others.
unfoldable pub cut_peer : Text → Text × Text
cut_peer s = let parts = split slash s in (first_of parts, join slash (drop 1 parts))

-- `const [collection, slug] = rest.split('/').filter(Boolean)`
unfoldable pub path_parts : Text → List Text
path_parts rest = filter truthy (split slash rest)

abbrev pub collection_of : List Text → Option Text
collection_of [] = none
collection_of (part ∷ parts) = some part

abbrev pub slug_of : List Text → Option Text
slug_of (part ∷ next ∷ parts) = some next
slug_of _ = none

unfoldable pub parse_agent_uri : Text → Option AgentUri
parse_agent_uri uri =
    if not (starts_with uri agent_scheme)
    then none
    else let without_scheme = drop (length agent_scheme) uri in
      let is_did_key = starts_with without_scheme did_prefix in
      let (peer_id, rest) =
        if is_did_key then cut_did without_scheme else cut_peer without_scheme in
      if ltb (length peer_id) 10
      then none
      else some (record {
        peer_id = peer_id;
        collection = collection_of (path_parts rest);
        slug = slug_of (path_parts rest);
        raw = uri;
        is_did_key = is_did_key;
      })

-- `if (part) uri += '/' + part`
abbrev pub append_part : Option Text → Text → Text
append_part none uri = uri
append_part (some part) uri = if truthy part then uri ++ slash ∷ part else uri

-- Whether a part is given and not empty.
abbrev pub is_given : Option Text → Bool
is_given part = truthy (or_else part [])

unfoldable pub build_agent_uri : Text → Option Text → Option Text → Text
build_agent_uri peer_id collection slug =
    let uri = agent_scheme ++ peer_id in
    if is_given collection then append_part slug (append_part collection uri) else uri

unfoldable pub build_blob_uri : Text → Text → Text
build_blob_uri peer_id sha256hex = (agent_scheme ++ peer_id) ++ codes "/blobs/" ++ sha256hex

unfoldable pub is_agent_uri : Text → Bool
is_agent_uri s = elim (parse_agent_uri s) [ none ↦ false | some u ↦ true ]

unfoldable pub is_blob_uri : Text → Bool
is_blob_uri uri = elim (parse_agent_uri uri) [
  | none ↦ false
  | some u ↦ elim u.collection [
    | none ↦ false
    | some collection ↦ text_eq collection (codes "blobs") && is_given u.slug
  ]
]
