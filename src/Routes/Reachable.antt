-- ===== src/Routes/Reachable.antt =====
-- Whom `GET /discovery/peers` lists.
use subspace_transceiver.Prelude.{
  ℕ, ◌+◌, ◌≤◌, ◌<◌, ◌≡◌, ◌≢◌, inl, inr, refl, sym, subst, true, Bool-cases, List, [], ◌∷◌, ◌++◌,
  Option, none, some, Elem, Elem-append_left, Elem-append_right, arith,
}
use subspace_transceiver.Prelude.Sets.{includes, add, includes-add}
use subspace_transceiver.Prelude.Text.{Text, text_eq, text_eq_iff}
use subspace_transceiver.Discovery.{
  DiscoveryManifest, PeerIndexEntry, DiscoveryManagerOptions, DiscoveryManager, admits,
  handle_gossip_message, receive, get_known_peers,
}
use subspace_transceiver.Discovery.Known.{get_known_peers-receive}
use subspace_transceiver.Routes.Peers.{
  ListedPeer, listed_peer, add_entries, add_sessions, get_discovery_peers,
}

-- The peer stands in the list.
abbrev pub IsListedPeer : Text → List ListedPeer → Type 0
IsListedPeer peer ps = (p : ListedPeer) × Elem p ps × (p.peer_id ≡ peer)

-- Each peer that is seen stands in the list.
AreListed : List Text × List ListedPeer → Type 0
AreListed acc = (peer : Text) → includes (acc.0) peer ≡ true → IsListedPeer peer (acc.1)

add_entries-lists :
    (entries : List PeerIndexEntry) (seen : List Text) (ps : List ListedPeer)
    → AreListed (seen, ps)
    → AreListed (add_entries entries (seen, ps))
      × ((peer : Text)
          → IsListedPeer peer ps
          → IsListedPeer peer ((add_entries entries (seen, ps)).1))
      × ((e : PeerIndexEntry)
          → Elem e entries
          → IsListedPeer e.peer_id ((add_entries entries (seen, ps)).1))
unfolding add_entries AreListed
add_entries-lists [] seen ps h = (h, λ peer k. k, λ e m. absurd m)
add_entries-lists (e ∷ entries) seen ps h = elim (Bool-cases (includes seen e.peer_id)) [
  | inl t ↦
      let (all, keeps, takes) = add_entries-lists entries seen ps h in
      rw (t, add_entries)
        (
          all,
          keeps,
          λ d m. elim m [
            | inl same ↦
                keeps d.peer_id (subst (λ x. IsListedPeer x.peer_id ps) (sym same) (h e.peer_id t))
            | inr n ↦ takes d n
          ],
        )
  | inr f ↦
      let more = ps ++ listed_peer e ∷ [] in
      let here : IsListedPeer e.peer_id more = (
        listed_peer e,
        Elem-append_right (listed_peer e) ps (listed_peer e ∷ []) (inl refl),
        refl,
      ) in
      let grows : (peer : Text) → IsListedPeer peer ps → IsListedPeer peer more =
        λ peer (p, m, q). (p, Elem-append_left p ps (listed_peer e ∷ []) m, q) in
      let (all, keeps, takes) = add_entries-lists entries (add e.peer_id seen) more (λ peer t.
        elim (Bool-cases (text_eq e.peer_id peer)) [
          | inl same ↦ subst (λ x. IsListedPeer x more) ((text_eq_iff e.peer_id peer).0 same) here
          | inr other ↦
              grows peer (h peer (ground (arith, includes-add e.peer_id peer seen, t, other)))
        ]) in
      rw (f, add_entries)
        (
          all,
          λ peer k. keeps peer (grows peer k),
          λ d m. elim m [
            | inl same ↦ keeps d.peer_id (subst (λ x. IsListedPeer x.peer_id more) (sym same) here)
            | inr n ↦ takes d n
          ],
        )
]

add_sessions-lists :
    (now : ℕ) (ds : List DiscoveryManager) (acc : List Text × List ListedPeer)
    → AreListed acc
    → AreListed (add_sessions now ds acc)
      × ((peer : Text)
          → IsListedPeer peer (acc.1)
          → IsListedPeer peer ((add_sessions now ds acc).1))
      × ((d : DiscoveryManager) (e : PeerIndexEntry)
          → Elem d ds
          → Elem e (get_known_peers now d)
          → IsListedPeer e.peer_id ((add_sessions now ds acc).1))
unfolding add_sessions
add_sessions-lists now [] acc h = (h, λ peer k. k, λ d e m n. absurd m)
add_sessions-lists now (d ∷ ds) (seen, ps) h =
    let (own, keep, take) = add_entries-lists (get_known_peers now d) seen ps h in
    let (all, keeps, takes) =
      add_sessions-lists now ds (add_entries (get_known_peers now d) (seen, ps)) own in
    (
      all,
      λ peer k. keeps peer (keep peer k),
      λ b e m n. elim m [
        | inl same ↦ keeps e.peer_id (take e (subst (λ x. Elem e (get_known_peers now x)) same n))
        | inr k ↦ takes b e k n
      ],
    )

-- A peer that a session of a network knows is listed.
get_discovery_peers-lists :
    (now : ℕ) (ds : List DiscoveryManager) (global : Option DiscoveryManager) (d : DiscoveryManager)
    (e : PeerIndexEntry)
    → Elem d ds
    → Elem e (get_known_peers now d)
    → IsListedPeer e.peer_id (get_discovery_peers now ds global)
unfolding get_discovery_peers AreListed includes
get_discovery_peers-lists now ds none d e m n =
    let (all, keeps, takes) = add_sessions-lists now ds ([], []) (λ peer t. cc t) in takes d e m n
get_discovery_peers-lists now ds (some g) d e m n =
    let (all, keeps, takes) = add_sessions-lists now ds ([], []) (λ peer t. cc t) in
    let (seen, ps) = add_sessions now ds ([], []) in
    let (last, keep, take) =
      add_entries-lists (get_known_peers now g) ((add_sessions now ds ([], [])).0)
        ((add_sessions now ds ([], [])).1) all in
    keep e.peer_id (takes d e m n)

-- A peer whose manifest a session of a network has admitted is listed by `GET /discovery/peers` until five
-- minutes have passed, whatever messages arrive at that session later and whatever the other sessions know.
pub get_discovery_peers-receive :
    (sha256 : Text → Text) (opts : DiscoveryManagerOptions) (m : DiscoveryManifest) (now asked : ℕ)
    (messages : List (ℕ × Option DiscoveryManifest)) (d after : DiscoveryManager)
    (sessions : List DiscoveryManager) (global : Option DiscoveryManager)
    → m.peer_id ≢ opts.local_peer_id
    → admits sha256 opts now m ≡ true
    → ((t : ℕ) (message : Option DiscoveryManifest) → Elem (t, message) messages → now ≤ t)
    → asked < now + 300000
    → after ≡ receive sha256 opts messages (handle_gossip_message sha256 opts now (some m) d)
    → Elem after sessions
    → IsListedPeer m.peer_id (get_discovery_peers asked sessions global)
get_discovery_peers-receive sha256 opts m now asked messages d after sessions global apart admitted
      later soon e among =
    let (entry, known, own) =
      get_known_peers-receive sha256 opts m now asked messages d apart admitted later soon in
    subst (λ p. IsListedPeer p (get_discovery_peers asked sessions global)) own
      (get_discovery_peers-lists asked sessions global after entry among
        (subst (λ x. Elem entry (get_known_peers asked x)) (sym e) known))
