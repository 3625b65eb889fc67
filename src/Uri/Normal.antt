-- ===== src/Uri/Normal.antt =====
-- What every parsed address looks like.
use subspace_transceiver.Prelude.{
  ℕ, ◌≡◌, refl, subst, List, [], ◌∷◌, none, some, some_inj, ltb, ◌==◌, length, take, drop, filter,
  if◌then◌else◌, arith, Bool-cases, Option-cases, inl, inr, All,
}
use subspace_transceiver.Prelude.Text.{Text, truthy, starts_with, split, split-Lacks, Lacks}
use subspace_transceiver.Uri.{
  AgentUri, agent_scheme, did_prefix, slash, index_of, first_of, cut_did, cut_peer, path_parts,
  collection_of, slug_of, parse_agent_uri, build_agent_uri,
}
use subspace_transceiver.Uri.Parts.{IsPart}
use subspace_transceiver.Uri.Roundtrip.{IsAuthority, address, parse_agent_uri-build, parsed_bare}

filter-IsPart : (parts : List Text) → All (Lacks slash) parts → All IsPart (filter truthy parts)
filter-IsPart [] h = tt
filter-IsPart (part ∷ parts) h = elim (Bool-cases (truthy part)) [
  | inl t ↦ rw t (record { nonempty = t; lacks = h.0 }, filter-IsPart parts (h.1))
  | inr f ↦ rw f (filter-IsPart parts (h.1))
]

path_parts-IsPart : (rest : Text) → All IsPart (path_parts rest)
unfolding path_parts
path_parts-IsPart rest = filter-IsPart (split slash rest) (split-Lacks slash rest)

-- Before the first slash there is none.
take-index_of : (s : Text) (n : ℕ) → index_of slash s ≡ some n → Lacks slash (take n s)
unfolding index_of
take-index_of [] n h = absurd (cc)
take-index_of (c ∷ s) n h = elim (Bool-cases (c == slash)) [
  | inl t ↦ subst (λ m. Lacks slash (take m (c ∷ s))) (some_inj (rw t at h)) tt
  | inr f ↦ elim (Option-cases (index_of slash s)) [
    | inl e ↦ absurd (ground (arith, e))
    | inr (m, e) ↦
        subst (λ k. Lacks slash (take k (c ∷ s))) (some_inj (rw (f, e) at h))
          (ground arith, take-index_of s m e)
  ]
]

index_of-none : (s : Text) → index_of slash s ≡ none → Lacks slash s
unfolding index_of
index_of-none [] h = tt
index_of-none (c ∷ s) h = elim (Bool-cases (c == slash)) [
  | inl t ↦ absurd (ground arith)
  | inr f ↦ elim (Option-cases (index_of slash s)) [
    | inl e ↦ (ground arith, index_of-none s e)
    | inr (m, e) ↦ absurd (ground (arith, e))
  ]
]

cut_did-Lacks : (s : Text) → Lacks slash (cut_did s).0
unfolding cut_did
cut_did-Lacks s = elim (Option-cases (index_of slash s)) [
  | inl e ↦ rw (e, cut_did) (index_of-none s e)
  | inr (n, e) ↦ rw (e, cut_did) (take-index_of s n e)
]

first_of-Lacks : (parts : List Text) → All (Lacks slash) parts → Lacks slash (first_of parts)
first_of-Lacks [] h = tt
first_of-Lacks (part ∷ parts) h = h.0

cut_peer-Lacks : (s : Text) → Lacks slash (cut_peer s).0
unfolding cut_peer
cut_peer-Lacks s = first_of-Lacks (split slash s) (split-Lacks slash s)

-- The fields of a parsed address, as they were cut out.
record IsCut (u : AgentUri) : Type 0 where
  authority : IsAuthority u.peer_id
  rest : Text
  collection_cut : u.collection ≡ collection_of (path_parts rest)
  slug_cut : u.slug ≡ slug_of (path_parts rest)

unfoldable cut_of : Text → Text × Text
cut_of s = if starts_with s did_prefix then cut_did s else cut_peer s

cut_of-Lacks : (s : Text) → Lacks slash (cut_of s).0
unfolding cut_of
cut_of-Lacks s = elim (Bool-cases (starts_with s did_prefix)) [
  | inl t ↦ rw t (cut_did-Lacks s)
  | inr f ↦ rw f (cut_peer-Lacks s)
]

parsed-IsCut : (uri : Text) (u : AgentUri) → parse_agent_uri uri ≡ some u → IsCut u
unfolding parse_agent_uri cut_of
parsed-IsCut uri u h = elim (Bool-cases (starts_with uri agent_scheme)) [
  | inr f ↦ absurd (ground arith)
  | inl t ↦
      let s = drop (length agent_scheme) uri in
      elim (Bool-cases (ltb (length (cut_of s).0) 10)) [
        | inl short ↦ absurd (ground arith)
        | inr long ↦ subst IsCut (some_inj (rw (t, long, parse_agent_uri) at h)) (record {
          authority = record { lacks = cut_of-Lacks s; long = ground arith };
          rest = (cut_of s).1;
          collection_cut = refl;
          slug_cut = refl;
        })
      ]
]

bare_again :
    (p : Text)
    → IsAuthority p
    → parse_agent_uri (build_agent_uri p none none)
      ≡ some (address p none none (build_agent_uri p none none))
unfolding build_agent_uri
bare_again p auth = parsed_bare p auth

-- The parts of a path give back the address that they make up.
rebuilt :
    (p : Text) (parts : List Text)
    → IsAuthority p
    → All IsPart parts
    → parse_agent_uri (build_agent_uri p (collection_of parts) (slug_of parts))
      ≡ some (
          address p
            (collection_of parts)
            (slug_of parts)
            (build_agent_uri p (collection_of parts) (slug_of parts)))
rebuilt p [] auth h = bare_again p auth
rebuilt p (c ∷ []) auth h = (parse_agent_uri-build p c c auth (h.0) (h.0)).1
rebuilt p (c ∷ s ∷ parts) auth h = (parse_agent_uri-build p c s auth (h.0) (h.1.0)).2

-- Whatever address the parser accepts, building an address from the authority, the collection and the
-- slug that it found and parsing that gives the same three: extra slashes and further parts are all
-- that is lost.
pub build-parse_agent_uri :
    (uri : Text) (u : AgentUri)
    → parse_agent_uri uri ≡ some u
    → parse_agent_uri (build_agent_uri u.peer_id u.collection u.slug)
      ≡ some (address u.peer_id u.collection u.slug (build_agent_uri u.peer_id u.collection u.slug))
build-parse_agent_uri uri u h =
    let cut = parsed-IsCut uri u h in
    rw (cut.collection_cut, cut.slug_cut)
      (rebuilt u.peer_id (path_parts cut.rest) cut.authority (path_parts-IsPart cut.rest))
