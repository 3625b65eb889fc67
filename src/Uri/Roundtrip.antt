-- ===== src/Uri/Roundtrip.antt =====
-- Building an address and parsing it.
use mathlib.Core.List.{append_assoc}
use subspace_transceiver.Prelude.{
  ◌≤◌, ◌≡◌, refl, sym, ◌∙◌, false, List, [], ◌∷◌, ◌++◌, Option, none, some, ltb, length, arith,
  Bool-cases, inl, inr,
}
use subspace_transceiver.Prelude.Text.{Text, starts_with, split, Lacks}
use subspace_transceiver.Uri.{
  AgentUri, agent_scheme, did_prefix, slash, cut_did, cut_peer, path_parts, collection_of, slug_of,
  parse_agent_uri, build_agent_uri,
}
use subspace_transceiver.Uri.Parts.{
  cut_did_bare, cut_did-append, cut_peer_bare, cut_peer-append, starts_with-append, IsPart,
  path_parts-one, path_parts-two,
}

-- An authority: no slash, ten code units or more.
pub record IsAuthority (p : Text) : Type 0 where
  pub lacks : Lacks slash p
  pub long : 10 ≤ length p

-- The address with these parts.
abbrev pub address : Text → Option Text → Option Text → Text → AgentUri
address peer_id collection slug raw = record {
  peer_id = peer_id;
  collection = collection;
  slug = slug;
  raw = raw;
  is_did_key = starts_with peer_id did_prefix;
}

-- Both ways of cutting off the authority agree.
parsed :
    (s p rest : Text)
    → IsAuthority p
    → cut_did s ≡ (p, rest)
    → cut_peer s ≡ (p, rest)
    → starts_with s did_prefix ≡ starts_with p did_prefix
    → parse_agent_uri (agent_scheme ++ s)
      ≡ some (
          address p
            (collection_of (path_parts rest))
            (slug_of (path_parts rest))
            (agent_scheme ++ s))
unfolding parse_agent_uri starts_with
parsed s p rest auth did peer same =
    let long : ltb (length p) 10 ≡ false = ground (arith, auth.long) in
    elim (Bool-cases (starts_with s did_prefix)) [
      | inl t ↦ rw (t, did, long, sym same ∙ t) refl
      | inr f ↦ rw (f, peer, long, sym same ∙ f) refl
    ]

pub parsed_bare :
    (p : Text)
    → IsAuthority p
    → parse_agent_uri (agent_scheme ++ p) ≡ some (address p none none (agent_scheme ++ p))
unfolding path_parts split
parsed_bare p auth =
    parsed p p [] auth (cut_did_bare p auth.lacks) (cut_peer_bare p auth.lacks) refl

did_prefix-Lacks : Lacks slash did_prefix
did_prefix-Lacks =
    (λ h. ground arith, (λ h. ground arith, (λ h. ground arith, (λ h. ground arith, tt))))

parsed_path :
    (p rest : Text)
    → IsAuthority p
    → parse_agent_uri (agent_scheme ++ (p ++ slash ∷ rest))
      ≡ some (
          address p
            (collection_of (path_parts rest))
            (slug_of (path_parts rest))
            (agent_scheme ++ (p ++ slash ∷ rest)))
parsed_path p rest auth =
    parsed (p ++ slash ∷ rest) p rest auth (cut_did-append p rest auth.lacks)
      (cut_peer-append p rest auth.lacks) (starts_with-append p rest did_prefix did_prefix-Lacks)

parsed_parts :
    (p rest : Text) (parts : List Text)
    → IsAuthority p
    → path_parts rest ≡ parts
    → parse_agent_uri (agent_scheme ++ (p ++ slash ∷ rest))
      ≡ some (address p (collection_of parts) (slug_of parts) (agent_scheme ++ (p ++ slash ∷ rest)))
parsed_parts p rest parts auth e = rw (← e) (parsed_path p rest auth)

-- Parsing what `buildAgentURI` writes gives back the authority and the path, for a peer id or a DID
-- without slashes and of at least ten code units, and parts that are not empty and have no slash; with
-- no collection a slug is not written.
pub parse_agent_uri-build :
    (p c s : Text)
    → IsAuthority p
    → IsPart c
    → IsPart s
    → (parse_agent_uri (build_agent_uri p none (some s))
        ≡ some (address p none none (build_agent_uri p none (some s))))
      × (parse_agent_uri (build_agent_uri p (some c) none)
          ≡ some (address p (some c) none (build_agent_uri p (some c) none)))
      × (parse_agent_uri (build_agent_uri p (some c) (some s))
          ≡ some (address p (some c) (some s) (build_agent_uri p (some c) (some s))))
unfolding build_agent_uri
parse_agent_uri-build p c s auth hc hs = (
  parsed_bare p auth,
  rw (hc.nonempty) (parsed_parts p c (c ∷ []) auth (path_parts-one c hc)),
  rw (hc.nonempty, hs.nonempty, append_assoc p (slash ∷ c) (slash ∷ s))
      (parsed_parts p (c ++ slash ∷ s) (c ∷ s ∷ []) auth (path_parts-two c s hc hs)),
)
