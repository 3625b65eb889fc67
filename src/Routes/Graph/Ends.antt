-- ===== src/Routes/Graph/Ends.antt =====
-- The walk ends: each round takes an entry from the queue, and a chunk adds its links only once.
use mathlib.Core.List.{append_assoc, append-nil}
use subspace_transceiver.Prelude.{
  ℕ, zero, suc, ◌+◌, ◌≤◌, ◌≡◌, refl, sym, ap, subst, ◌∙◌, ◌⊎◌, inl, inr, false, not, ◌&&◌, List, [],
  ◌∷◌, ◌++◌, Option, none, some, some_inj, arith, Bool-cases, Option-cases, if◌then◌else◌, length,
  length-append, leb,
}
use subspace_transceiver.Prelude.Dict
use subspace_transceiver.Prelude.Sets.{includes, add, includes-add}
use subspace_transceiver.Prelude.Text.{Text, text_eq, text_eq_iff}
use subspace_transceiver.Schema.{MemoryChunk, ContentLink}
use subspace_transceiver.Backlinks.{get_links}
use subspace_transceiver.Routes.Graph.{Walk, is_followed, follow, expand, visit, traverse, rounds}

-- The links of the chunks that have not been visited.
unfoldable left : List (Text × MemoryChunk) → List Text → ℕ
left [] visited = 0
left ((id, c) ∷ chunks) visited =
    (if includes visited id then 0 else length (get_links c)) + left chunks visited

left-add :
    (id : Text) (chunks : List (Text × MemoryChunk)) (visited : List Text)
    → left chunks (add id visited) ≤ left chunks visited
unfolding left
left-add id [] visited = omega arith
left-add id ((j, c) ∷ chunks) visited =
    ground (arith, left-add id chunks visited, includes-add id j visited)

left-add_known :
    (id : Text) (chunks : List (Text × MemoryChunk)) (visited : List Text) (c : MemoryChunk)
    → includes visited id ≡ false
    → Dict.get id chunks ≡ some c
    → length (get_links c) + left chunks (add id visited) ≤ left chunks visited
unfolding left Dict.get
left-add_known id [] visited c new h = cc
left-add_known id ((j, b) ∷ chunks) visited c new h = elim (Bool-cases (text_eq j id)) [
  | inl t ↦
      let same : b ≡ c = some_inj (rw t at h) in
      let links : length (get_links b) ≡ length (get_links c) =
        ap (λ x. length (get_links x)) same in
      let new' : includes visited j ≡ false =
        subst (λ k. includes visited k ≡ false) (sym ((text_eq_iff j id).0 t)) new in
      ground (
        arith,
        links,
        new',
        left-add id chunks visited,
        includes-add id j visited,
        text_eq_iff id j,
        text_eq_iff j id,
      )
  | inr f ↦ ground (
    arith,
    left-add_known id chunks visited c new (rw f at h),
    includes-add id j visited,
    text_eq_iff id j,
    text_eq_iff j id,
  )
]

abbrev offered : Option (List Text) → Text → ℕ → ContentLink → Walk → Walk
offered rels id depth link w =
    if is_followed rels link && not (includes w.visited link.target)
    then record w {
      edges =
          w.edges
          ++ record { source = id; target = link.target; rel = link.rel; label = link.label } ∷ [];
      queue = w.queue ++ (link.target, suc depth) ∷ [];
    }
    else w

-- What the links of a chunk add to the queue.
unfoldable pub pushed : Option (List Text) → List Text → ℕ → List ContentLink → List (Text × ℕ)
pushed rels visited depth [] = []
pushed rels visited depth (link ∷ links) =
    if is_followed rels link && not (includes visited link.target)
    then (link.target, suc depth) ∷ pushed rels visited depth links
    else pushed rels visited depth links

pub follow-visited :
    (rels : Option (List Text)) (id : Text) (depth : ℕ) (links : List ContentLink) (w : Walk)
    → (follow rels id depth links w).visited ≡ w.visited
unfolding follow
follow-visited rels id depth [] w = refl
follow-visited rels id depth (l ∷ links) w =
    follow-visited rels id depth links (offered rels id depth l w) ∙ ground arith

pub follow-nodes :
    (rels : Option (List Text)) (id : Text) (depth : ℕ) (links : List ContentLink) (w : Walk)
    → (follow rels id depth links w).nodes ≡ w.nodes
unfolding follow
follow-nodes rels id depth [] w = refl
follow-nodes rels id depth (l ∷ links) w =
    follow-nodes rels id depth links (offered rels id depth l w) ∙ ground arith

pub follow-queue :
    (rels : Option (List Text)) (id : Text) (depth : ℕ) (links : List ContentLink) (w : Walk)
    → (follow rels id depth links w).queue ≡ w.queue ++ pushed rels w.visited depth links
unfolding follow pushed
follow-queue rels id depth [] w = sym (append-nil w.queue)
follow-queue rels id depth (l ∷ links) w =
    elim (Bool-cases (is_followed rels l && not (includes w.visited l.target))) [
      | inl t ↦
          follow-queue rels id depth links (offered rels id depth l w)
          ∙ rw t (append_assoc w.queue _ _)
      | inr f ↦ follow-queue rels id depth links (offered rels id depth l w) ∙ rw f refl
    ]

length-pushed :
    (rels : Option (List Text)) (visited : List Text) (depth : ℕ) (links : List ContentLink)
    → length (pushed rels visited depth links) ≤ length links
unfolding pushed
length-pushed rels visited depth [] = omega arith
length-pushed rels visited depth (l ∷ links) =
    ground (arith, length-pushed rels visited depth links)

pub queue-cases :
    (q : List (Text × ℕ))
    → (q ≡ []) ⊎ ((entry : Text × ℕ) × (rest : List (Text × ℕ)) × (q ≡ entry ∷ rest))
queue-cases [] = inl refl
queue-cases (entry ∷ rest) = inr (entry, rest, refl)

module _ (chunks : List (Text × MemoryChunk)) (rels : Option (List Text)) (max_depth : ℕ) where
  measure : Walk → ℕ
  measure w = length w.queue + left chunks w.visited

  expand-shrinks :
      (id : Text) (depth : ℕ) (c : MemoryChunk) (w : Walk)
      → measure (expand chunks rels max_depth id depth c w)
        ≤ length w.queue + length (get_links c) + left chunks w.visited
  unfolding measure expand
  expand-shrinks id depth c w =
      let grown = record w { nodes = w.nodes ++ c ∷ [] } in
      let queue = follow-queue rels id depth (get_links c) grown in
      let visited = follow-visited rels id depth (get_links c) grown in
      let size = length-append w.queue (pushed rels w.visited depth (get_links c)) in
      let small = length-pushed rels w.visited depth (get_links c) in
      elim (Bool-cases (leb max_depth depth)) [
        | inl t ↦ rw t (omega arith)
        | inr f ↦ rw (f, queue, visited, size) (omega (arith, small))
      ]

  expanded :
      (n l : ℕ) (v u : Walk)
      → length v.queue + left chunks v.visited ≤ length u.queue + n + l
      → n + l ≤ left chunks u.visited
      → length v.queue + left chunks v.visited ≤ length u.queue + left chunks u.visited
  expanded n l v u h k = omega (arith, h, k)

  visit-shrinks :
      (id : Text) (depth : ℕ) (w : Walk)
      → measure (visit chunks rels max_depth id depth w) ≤ measure w
  unfolding measure visit
  visit-shrinks id depth w = elim (Bool-cases (includes w.visited id)) [
    | inl t ↦ rw t (omega arith)
    | inr f ↦ elim (Option-cases (Dict.get id chunks)) [
      | inl e ↦ rw (f, e, visit) (omega (arith, left-add id chunks w.visited))
      | inr (c, e) ↦
          let seen = record w { visited = add id w.visited } in
          let shrunk = expand-shrinks id depth c seen in
          let known = left-add_known id chunks w.visited c f e in
          rw (f, e, visit)
            (expanded (length (get_links c)) (left chunks (add id w.visited))
              (expand chunks rels max_depth id depth c seen) w shrunk known)
    ]
  ]

  no_room :
      (entry : Text × ℕ) (q queue : List (Text × ℕ)) → queue ≡ entry ∷ q → length queue ≤ 0 → ⊥
  no_room entry q queue e h =
      let size : length queue ≡ suc (length q) = ap length e in omega (arith, size, h)

  room :
      (id : Text) (depth : ℕ) (q : List (Text × ℕ)) (u : Walk) (n : ℕ)
      → u.queue ≡ (id, depth) ∷ q
      → length u.queue + left chunks u.visited ≤ suc n
      → measure (visit chunks rels max_depth id depth (record u { queue = q }))
        ≤ length q + left chunks u.visited
      → measure (visit chunks rels max_depth id depth (record u { queue = q })) ≤ n
  room id depth q u n e h k =
      let size : length u.queue ≡ suc (length q) = ap length e in omega (arith, size, h, k)

  pub traverse-nil :
      (fuel : ℕ) (w : Walk) → w.queue ≡ [] → traverse chunks rels max_depth fuel w ≡ some w
  unfolding traverse
  traverse-nil zero w e =
      ap (λ (q : List (Text × ℕ)). elim q [ [] ↦ some w | entry ∷ queue ↦ none ]) e
  traverse-nil (suc fuel) w e =
      ap
        (λ (q : List (Text × ℕ)). elim q [
          | [] ↦ some w
          | (id, depth) ∷ queue ↦
              traverse chunks rels max_depth fuel
                (visit chunks rels max_depth id depth (record w { queue = queue }))
        ])
        e

  pub traverse-cons :
      (fuel : ℕ) (w : Walk) (id : Text) (depth : ℕ) (q : List (Text × ℕ))
      → w.queue ≡ (id, depth) ∷ q
      → traverse chunks rels max_depth (suc fuel) w
        ≡ traverse chunks rels max_depth fuel
            (visit chunks rels max_depth id depth (record w { queue = q }))
  unfolding traverse
  traverse-cons fuel w id depth q e =
      ap
        (λ (q : List (Text × ℕ)). elim q [
          | [] ↦ some w
          | (id, depth) ∷ queue ↦
              traverse chunks rels max_depth fuel
                (visit chunks rels max_depth id depth (record w { queue = queue }))
        ])
        e

  pub traverse-out :
      (w : Walk) (entry : Text × ℕ) (q : List (Text × ℕ))
      → w.queue ≡ entry ∷ q
      → traverse chunks rels max_depth 0 w ≡ none
  unfolding traverse
  traverse-out w entry q e =
      ap (λ (q : List (Text × ℕ)). elim q [ [] ↦ some w | entry ∷ queue ↦ none ]) e

  traverse-ends :
      (fuel : ℕ) (w : Walk)
      → measure w ≤ fuel
      → (t : Walk) × (traverse chunks rels max_depth fuel w ≡ some t)
  unfolding measure
  traverse-ends zero w h = elim (queue-cases w.queue) [
    | inl e ↦ (w, traverse-nil 0 w e)
    | inr (entry, q, e) ↦ absurd (no_room entry q w.queue e (omega (arith, h)))
  ]
  traverse-ends (suc fuel) w h = elim (queue-cases w.queue) [
    | inl e ↦ (w, traverse-nil (suc fuel) w e)
    | inr ((id, depth), q, e) ↦
        let rest = record w { queue = q } in
        let (t, same) =
          traverse-ends fuel (visit chunks rels max_depth id depth rest)
            (room id depth q w fuel e h (visit-shrinks id depth rest)) in
        (t, traverse-cons fuel w id depth q e ∙ same)
  ]

left-none : (chunks : List (Text × MemoryChunk)) → left chunks [] ≡ rounds chunks
unfolding left rounds includes
left-none [] = refl
left-none ((id, c) ∷ chunks) = ap (λ n. length (get_links c) + n) (left-none chunks)

-- From one entry in the queue the fuel of the route is enough.
pub traverse_ends :
    (chunks : List (Text × MemoryChunk)) (rels : Option (List Text)) (max_depth : ℕ) (start : Text)
    → (t : Walk) × (traverse chunks rels max_depth
          (suc (rounds chunks))
          (record { visited = []; nodes = []; edges = []; queue = (start, 0) ∷ [] })
        ≡ some t)
unfolding measure
traverse_ends chunks rels max_depth start =
    traverse-ends chunks rels max_depth (suc (rounds chunks))
      (record { visited = []; nodes = []; edges = []; queue = (start, 0) ∷ [] })
      (omega (arith, left-none chunks))
