-- ===== src/Routes/Resolved.antt =====
-- What `GET /resolve/*` makes of an address.
use subspace_transceiver.Prelude.{
  and_iff, ◌≡◌, ◌⊎◌, inl, inr, refl, sym, ap, subst, ◌∙◌, Bool, true, false, not, ◌&&◌, Bool-cases,
  List, ◌++◌, Option, none, some, Elem, arith,
}
use subspace_transceiver.Prelude.Text.{Text, truthy}
use subspace_transceiver.Schema.{MemoryChunk}
use subspace_transceiver.Uri.{AgentUri, agent_scheme, parse_agent_uri, build_agent_uri}
use subspace_transceiver.Uri.Parts.{IsPart}
use subspace_transceiver.Uri.Roundtrip.{IsAuthority, address, parse_agent_uri-build}
use subspace_transceiver.Routes.{Reads}
use subspace_transceiver.Routes.Search.{SearchSession, SendQuery}
use subspace_transceiver.Routes.Sites.{
  stores_in, first_listed, find_local, names, is_addressed, first_answer, peer_query, ask_network,
  Resolution, resolution, resolve_parsed, resolve,
}
use subspace_transceiver.Routes.Outcomes.{
  Outcome, PartIs, IsNamed, Answers, names_iff, Outcome_map, first_listed-Outcome,
  first_answer-Outcome,
}

-- A chunk of a store that is alive and that the address names.
abbrev pub IsStored : AgentUri → List SearchSession → MemoryChunk → Type 0
IsStored u sessions c =
    (s : Reads) × Elem s (stores_in sessions) × Elem c s.list × (c.tombstone ≡ false) × IsNamed u c

-- A chunk with exactly the parts of the address, in the answer of a peer.
abbrev pub IsSentFor :
    SendQuery → Text → Option Text → Option Text → List SearchSession → MemoryChunk → Type 0
IsSentFor send peer none slug sessions c = ⊥
IsSentFor send peer (some collection) none sessions c = ⊥
IsSentFor send peer (some collection) (some slug) sessions c =
    (truthy collection ≡ true)
    × (truthy slug ≡ true)
    × Answers (is_addressed peer collection slug) send (peer_query peer collection) sessions c

local-Outcome :
    (u : AgentUri) (sessions : List SearchSession)
    → Outcome (IsStored u sessions) (find_local (names u) sessions)
local-Outcome u sessions =
    let fits : MemoryChunk → Bool = λ c. not c.tombstone && names u c in
    Outcome_map (λ c. (s : Reads) × Elem s (stores_in sessions) × Elem c s.list × (fits c ≡ true))
      (IsStored u sessions) (first_listed fits (stores_in sessions))
      (λ c (s, m, n, t).
        let (alive, named) = (and_iff (not c.tombstone) (names u c)).0 t in
        (s, m, n, ground (arith, alive), (names_iff u c).0 named))
      (λ c h. (
        h.0,
        h.1,
        h.2,
        (and_iff (not c.tombstone) (names u c)).1 (ground (arith, h.3), (names_iff u c).1 (h.4)),
      ))
      (first_listed-Outcome fits (stores_in sessions))

network-Outcome :
    (send : SendQuery) (peer : Text) (collection slug : Option Text) (sessions : List SearchSession)
    → Outcome
        (IsSentFor send peer collection slug sessions)
        (ask_network send peer collection slug sessions)
unfolding ask_network
network-Outcome send peer none slug sessions = λ c h. h
network-Outcome send peer (some collection) none sessions = λ c h. h
network-Outcome send peer (some collection) (some slug) sessions =
    elim (Bool-cases (truthy collection && truthy slug)) [
      | inl t ↦
          let (k, l) = (and_iff (truthy collection) (truthy slug)).0 t in
          rw t (
            Outcome_map
              (Answers (is_addressed peer collection slug) send (peer_query peer collection)
                sessions)
              (IsSentFor send peer (some collection) (some slug) sessions)
              (first_answer (is_addressed peer collection slug) send (peer_query peer collection)
                sessions)
              (λ c h. (k, l, h)) (λ c h. h.2)
              (first_answer-Outcome (is_addressed peer collection slug) send
                (peer_query peer collection) sessions))
      | inr f ↦ rw f (λ c h. cc (f, (and_iff (truthy collection) (truthy slug)).1 (h.0, h.1)))
    ]

-- What the reply to an address says.
abbrev pub IsResolved : SendQuery → Text → List SearchSession → Resolution → Type 0
IsResolved send raw sessions Resolution.malformed = parse_agent_uri (agent_scheme ++ raw) ≡ none
IsResolved send raw sessions (Resolution.resolved c) =
    (u : AgentUri) × (parse_agent_uri (agent_scheme ++ raw) ≡ some u)
    × (IsStored u sessions c
        ⊎ (((d : MemoryChunk) → IsStored u sessions d → ⊥)
            × IsSentFor send u.peer_id u.collection u.slug sessions c))
IsResolved send raw sessions Resolution.unresolved =
    (u : AgentUri) × (parse_agent_uri (agent_scheme ++ raw) ≡ some u)
    × ((d : MemoryChunk) → IsStored u sessions d → ⊥)
    × ((d : MemoryChunk) → IsSentFor send u.peer_id u.collection u.slug sessions d → ⊥)

module _ (send : SendQuery) (raw : Text) (sessions : List SearchSession) where
  resolution-IsResolved :
      (u : AgentUri) (here sent : Option MemoryChunk)
      → parse_agent_uri (agent_scheme ++ raw) ≡ some u
      → Outcome (IsStored u sessions) here
      → Outcome (IsSentFor send u.peer_id u.collection u.slug sessions) sent
      → IsResolved send raw sessions (resolution here sent)
  resolution-IsResolved u (some c) sent e h k = (u, e, inl h)
  resolution-IsResolved u none (some c) e h k = (u, e, inr (h, k))
  resolution-IsResolved u none none e h k = (u, e, h, k)

  resolve_parsed-IsResolved :
      (o : Option AgentUri)
      → parse_agent_uri (agent_scheme ++ raw) ≡ o
      → IsResolved send raw sessions (resolve_parsed send o sessions)
  unfolding resolve_parsed
  resolve_parsed-IsResolved none e = e
  resolve_parsed-IsResolved (some u) e =
      resolution-IsResolved u (find_local (names u) sessions)
        (ask_network send u.peer_id u.collection u.slug sessions) e (local-Outcome u sessions)
        (network-Outcome send u.peer_id u.collection u.slug sessions)

-- A reply 400 of `GET /resolve/*` means that the address does not parse; a chunk is one that is stored and
-- alive and that the address names or, where there is none and the address has a collection and a slug,
-- one with these that a peer sends; and 404 that neither is there.
pub resolve-IsResolved :
    (send : SendQuery) (raw : Text) (sessions : List SearchSession)
    → IsResolved send raw sessions (resolve send raw sessions)
unfolding resolve
resolve-IsResolved send raw sessions =
    resolve_parsed-IsResolved send raw sessions (parse_agent_uri (agent_scheme ++ raw)) refl

part_of : (t : Text) (b : Option Text) → truthy t ≡ true → PartIs (some t) b → b ≡ some t
part_of t b h (inl e) = cc (h, ap truthy e)
part_of t b h (inr e) = e

stored_resolution :
    (p c s raw : Text) (sessions : List SearchSession) (here sent : Option MemoryChunk)
    (d : MemoryChunk)
    → IsPart c
    → IsPart s
    → Outcome (IsStored (address p (some c) (some s) raw) sessions) here
    → IsStored (address p (some c) (some s) raw) sessions d
    → (e : MemoryChunk) × (resolution here sent ≡ Resolution.resolved e)
      × (e.tombstone ≡ false)
      × (e.source.peer_id ≡ p)
      × (e.collection ≡ some c)
      × (e.slug ≡ some s)
stored_resolution p c s raw sessions none sent d hc hs absent h = absurd (absent d h)
stored_resolution p c s raw sessions (some e) sent d hc hs
      (store, at, listed, alive, (peer, col, slug)) h =
    (
      e,
      refl,
      alive,
      peer,
      part_of c e.collection hc.nonempty col,
      part_of s e.slug hs.nonempty slug,
    )

-- The address that buildAgentURI writes for a stored chunk that is alive resolves, to a chunk of the same
-- peer, collection and slug, if the peer's id has ten code units and no slash, and the collection and the slug
-- are not empty and have none.
pub resolve-build :
    (send : SendQuery) (raw p c s : Text) (sessions : List SearchSession) (store : Reads)
    (d : MemoryChunk)
    → agent_scheme ++ raw ≡ build_agent_uri p (some c) (some s)
    → IsAuthority p
    → IsPart c
    → IsPart s
    → Elem store (stores_in sessions)
    → Elem d store.list
    → d.tombstone ≡ false
    → d.source.peer_id ≡ p
    → d.collection ≡ some c
    → d.slug ≡ some s
    → (e : MemoryChunk) × (resolve send raw sessions ≡ Resolution.resolved e)
      × (e.tombstone ≡ false)
      × (e.source.peer_id ≡ p)
      × (e.collection ≡ some c)
      × (e.slug ≡ some s)
unfolding resolve resolve_parsed
resolve-build send raw p c s sessions store d built auth hc hs at listed alive peer col slug =
    let u = address p (some c) (some s) (build_agent_uri p (some c) (some s)) in
    let e : parse_agent_uri (agent_scheme ++ raw) ≡ some u =
      ap parse_agent_uri built ∙ (parse_agent_uri-build p c s auth hc hs).2 in
    let stored : IsStored u sessions d = (store, at, listed, alive, (peer, inr col, inr slug)) in
    subst
      (λ o.
        (e : MemoryChunk) × (resolve_parsed send o sessions ≡ Resolution.resolved e)
        × (e.tombstone ≡ false)
        × (e.source.peer_id ≡ p)
        × (e.collection ≡ some c)
        × (e.slug ≡ some s))
      (sym e)
      (stored_resolution p c s (build_agent_uri p (some c) (some s)) sessions
        (find_local (names u) sessions) (ask_network send p (some c) (some s) sessions) d hc hs
        (local-Outcome u sessions) stored)
