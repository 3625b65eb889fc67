-- ===== src/Routes/Graph/Reach.antt =====
-- What `POST /memory/graph` returns: the chunks within the depth, and no others.
use subspace_transceiver.Prelude.{
  ℕ, zero, suc, ◌≤◌, ◌≡◌, refl, sym, ap, subst, ◌∙◌, ◌↔◌, inl, inr, List, [], ◌∷◌, Option, some,
  some_inj, arith, Bool-cases, Elem,
}
use subspace_transceiver.Prelude.Dict
use subspace_transceiver.Prelude.Sets.{includes}
use subspace_transceiver.Prelude.Text.{Text}
use subspace_transceiver.Schema.{MemoryChunk}
use subspace_transceiver.Routes.{Session, stores_of}
use subspace_transceiver.Routes.Graph.{Walk, visit, traverse, rounds, collect, capped, graph}
use subspace_transceiver.Routes.Graph.Ends.{
  queue-cases, traverse-nil, traverse-cons, traverse-out, traverse_ends,
}
use subspace_transceiver.Routes.Graph.Walks.{Steps, begin, step, visit-Fresh}
use subspace_transceiver.Routes.Graph.Rounds.{Inv, skip-Inv, Fresh-Inv}

module _ (chunks : List (Text × MemoryChunk)) (rels : Option (List Text)) (max_depth : ℕ)
    (from : Text) where
  visit-Inv :
      (id : Text) (depth : ℕ) (q : List (Text × ℕ)) (done : List (Text × ℕ)) (w : Walk)
      → w.queue ≡ (id, depth) ∷ q
      → Inv chunks rels max_depth from done w
      → (later : List (Text × ℕ)) × Inv chunks rels max_depth from later
          (visit chunks rels max_depth id depth (record w { queue = q }))
  unfolding visit
  visit-Inv id depth q done w e h = elim (Bool-cases (includes w.visited id)) [
    | inl t ↦ (done, rw t (skip-Inv chunks rels max_depth from id depth q done w e t h))
    | inr f ↦ (
      (id, depth) ∷ done,
      Fresh-Inv chunks rels max_depth from id depth q done w _ e
          (visit-Fresh chunks rels max_depth id depth (record w { queue = q }) f) h,
    )
  ]

  traverse-Inv :
      (fuel : ℕ) (done : List (Text × ℕ)) (w t : Walk)
      → Inv chunks rels max_depth from done w
      → traverse chunks rels max_depth fuel w ≡ some t
      → (all : List (Text × ℕ)) × Inv chunks rels max_depth from all t × (t.queue ≡ [])
  traverse-Inv zero done w t h ends = elim (queue-cases w.queue) [
    | inl e ↦ (
      done,
      subst (Inv chunks rels max_depth from done)
          (some_inj (sym (traverse-nil chunks rels max_depth 0 w e) ∙ ends)) h,
      ap (λ x. x.queue) (some_inj (sym ends ∙ traverse-nil chunks rels max_depth 0 w e)) ∙ e,
    )
    | inr (entry, q, e) ↦ absurd (cc (sym ends ∙ traverse-out chunks rels max_depth w entry q e))
  ]
  traverse-Inv (suc fuel) done w t h ends = elim (queue-cases w.queue) [
    | inl e ↦ (
      done,
      subst (Inv chunks rels max_depth from done)
          (some_inj (sym (traverse-nil chunks rels max_depth (suc fuel) w e) ∙ ends)) h,
      ap (λ x. x.queue) (some_inj (sym ends ∙ traverse-nil chunks rels max_depth (suc fuel) w e))
          ∙ e,
    )
    | inr ((id, depth), q, e) ↦
        let (later, kept) = visit-Inv id depth q done w e h in
        traverse-Inv fuel later _ t kept
          (sym (traverse-cons chunks rels max_depth fuel w id depth q e) ∙ ends)
  ]

  begin-Inv :
      Inv chunks rels max_depth from []
        (record { visited = []; nodes = []; edges = []; queue = (from, 0) ∷ [] })
  unfolding includes
  begin-Inv = record {
    walked = λ v d m. elim m [
      | inl same ↦
          subst (λ (p : Text × ℕ). Steps chunks rels from p.1 p.0 × (p.1 ≤ max_depth)) (sym same)
            (begin, omega arith)
      | inr m ↦ absurd m
    ];
    reached = λ v d m. absurd m;
    below = λ u d v e m n. absurd m;
    level = (tt, tt);
    closed = λ u d v m deep linked. absurd m;
    started = inr (inl refl);
    visited = λ v. (λ h. cc, λ (d, m). absurd m);
    nodes = λ c. (λ m. absurd m, λ (v, d, m, e). absurd m);
  }

  -- With an empty queue every walk within the depth has been followed.
  all_reached :
      (all : List (Text × ℕ)) (t : Walk) (k : ℕ) (v : Text)
      → Inv chunks rels max_depth from all t
      → t.queue ≡ []
      → Steps chunks rels from k v
      → k ≤ max_depth
      → (d : ℕ) × (d ≤ k) × Elem (v, d) all
  all_reached all t zero v h e begin short = elim h.started [
    | inl m ↦ (0, omega arith, m)
    | inr m ↦ absurd (subst (Elem (from, 0)) e m)
  ]
  all_reached all t (suc k) v h e (step {u = u} path linked) short =
      let (d, close, m) = all_reached all t k u h e path (omega (arith, short)) in
      let (j, near, place) = h.closed u d v m (omega (arith, close, short)) linked in
      elim place [
        | inl m ↦ (j, omega (arith, near, close), m)
        | inr m ↦ absurd (subst (Elem (v, j)) e m)
      ]

-- `POST /memory/graph` returns, and the nodes of its answer are exactly the chunks of the stores that so
-- many links lead to from the start as the depth of the request allows, 3 if there is none and 5 at
-- most; only links with one of the wanted relations count, and none to an agent URI. (Of the chunks with
-- one id the last one counts.)
pub graph_lem :
    (start : Text) (rels : Option (List Text)) (depth : Option ℕ) (sessions : List Session)
    → (t : Walk) × (graph start rels depth sessions ≡ some t)
      × ((c : MemoryChunk)
          → Elem c t.nodes ↔ (
              (k : ℕ) × (v : Text) × (k ≤ capped depth)
              × Steps (collect (stores_of sessions) []) rels start k v
              × (Dict.get v (collect (stores_of sessions) []) ≡ some c)))
unfolding graph
graph_lem start rels depth sessions =
    let chunks = collect (stores_of sessions) [] in
    let limit = capped depth in
    let (t, ends) = traverse_ends chunks rels limit start in
    let (all, h, e) =
      traverse-Inv chunks rels limit start (suc (rounds chunks)) [] _ t
        (begin-Inv chunks rels limit start) ends in
    (
      t,
      ends,
      λ c. (
        λ m.
            let (v, d, at, found) = (h.nodes c).0 m in
            let (path, short) = h.reached v d at in (d, v, short, path, found),
        λ (k, v, short, path, found).
            let (d, close, at) = all_reached chunks rels limit start all t k v h e path short in
            (h.nodes c).1 (v, d, at, found),
      ),
    )
