-- ===== src/Routes/Graph/Rounds.antt =====
-- What holds of the search in every round.
use subspace_transceiver.Prelude.{
  ℕ, suc, ◌≤◌, ◌≡◌, refl, sym, ap, subst, ◌∙◌, ◌↔◌, ◌⊎◌, inl, inr, true, ◌||◌, List, [], ◌∷◌, ◌++◌,
  Option, some, arith, Bool-cases, Elem, Elem-append, Elem-append_left, Elem-append_right,
  All-append, All-Elem, All-of_Elem,
}
use subspace_transceiver.Prelude.Dict
use subspace_transceiver.Prelude.Sets.{includes, includes-add}
use subspace_transceiver.Prelude.Sort.{IsSorted}
use subspace_transceiver.Prelude.Text.{Text, text_eq, text_eq_iff}
use subspace_transceiver.Schema.{MemoryChunk}
use subspace_transceiver.Routes.Graph.{Walk}
use subspace_transceiver.Routes.Graph.Walks.{Linked, Steps, step, Fresh}

-- Of two entries of the queue the later is as deep, or one deeper.
abbrev pub Near : Text × ℕ → Text × ℕ → Type 0
Near x y = (x.1 ≤ y.1) × (y.1 ≤ suc x.1)

Near-append :
    (xs ys : List (Text × ℕ)) (d : ℕ)
    → IsSorted Near xs
    → ((v : Text) (e : ℕ) → Elem (v, e) xs → (d ≤ e) × (e ≤ suc d))
    → ((v : Text) (e : ℕ) → Elem (v, e) ys → e ≡ suc d)
    → IsSorted Near (xs ++ ys)
Near-append [] [] d s low same = tt
Near-append [] ((v, e) ∷ ys) d s low same = (
  All-of_Elem (Near (v, e)) ys (λ (u, k) m.
      let a = same u k (inr m) in
      let b = same v e (inl refl) in (omega (arith, a, b), omega (arith, a, b))),
  Near-append [] ys d tt low (λ u k m. same u k (inr m)),
)
Near-append ((v, e) ∷ xs) ys d s low same = (
  All-append (Near (v, e)) xs ys (s.0) (
      All-of_Elem (Near (v, e)) ys (λ (u, k) m.
        let a = same u k m in
        let b = low v e (inl refl) in (omega (arith, a, b.0, b.1), omega (arith, a, b.0, b.1)))),
  Near-append xs ys d (s.1) (λ u k m. low u k (inr m)) same,
)

module _ (chunks : List (Text × MemoryChunk)) (rels : Option (List Text)) (max_depth : ℕ)
    (from : Text) where
  -- What holds of the search in every round; `done` are the visited ids with their depths.
  pub record Inv (done : List (Text × ℕ)) (w : Walk) : Type 0 where
    pub walked :
        (v : Text) (d : ℕ) → Elem (v, d) w.queue → Steps chunks rels from d v × (d ≤ max_depth)
    pub reached :
        (v : Text) (d : ℕ) → Elem (v, d) done → Steps chunks rels from d v × (d ≤ max_depth)
    pub below :
        (u : Text) (d : ℕ) (v : Text) (e : ℕ) → Elem (u, d) done → Elem (v, e) w.queue → d ≤ e
    pub level : IsSorted Near w.queue
    pub closed :
        (u : Text) (d : ℕ) (v : Text)
        → Elem (u, d) done
        → suc d ≤ max_depth
        → Linked chunks rels u v
        → (e : ℕ) × (e ≤ suc d) × (Elem (v, e) done ⊎ Elem (v, e) w.queue)
    pub started : Elem (from, 0) done ⊎ Elem (from, 0) w.queue
    pub visited : (v : Text) → (includes w.visited v ≡ true) ↔ ((d : ℕ) × Elem (v, d) done)
    pub nodes :
        (c : MemoryChunk)
        → Elem c w.nodes ↔ ((v : Text) × (d : ℕ) × Elem (v, d) done × (Dict.get v chunks ≡ some c))

  split_head :
      (id : Text) (depth : ℕ) (q queue : List (Text × ℕ)) (v : Text) (e : ℕ)
      → queue ≡ (id, depth) ∷ q
      → Elem (v, e) queue
      → ((v ≡ id) × (e ≡ depth)) ⊎ Elem (v, e) q
  split_head id depth q queue v e h m = elim (subst (Elem (v, e)) h m) [
    | inl same ↦ inl (ap (λ p. p.0) same, ap (λ p. p.1) same)
    | inr m ↦ inr m
  ]

  -- A round that finds a visited id only takes it from the queue.
  pub skip-Inv :
      (id : Text) (depth : ℕ) (q : List (Text × ℕ)) (done : List (Text × ℕ)) (w : Walk)
      → w.queue ≡ (id, depth) ∷ q
      → includes w.visited id ≡ true
      → Inv done w
      → Inv done (record w { queue = q })
  skip-Inv id depth q done w e seen h =
      let behind : (v : Text) (d : ℕ) → Elem (v, d) q → Elem (v, d) w.queue =
        λ v d m. subst (Elem (v, d)) (sym e) (inr m) in
      let head : Elem (id, depth) w.queue = subst (Elem (id, depth)) (sym e) (inl refl) in
      let (d₀, old) = (h.visited id).0 seen in
      let low : d₀ ≤ depth = h.below id d₀ id depth old head in
      record {
        walked = λ v d m. h.walked v d (behind v d m);
        reached = h.reached;
        below = λ u d v k m n. h.below u d v k m (behind v k n);
        level = (subst (IsSorted Near) e h.level).1;
        closed = λ u d v m deep linked.
            let (k, close, place) = h.closed u d v m deep linked in
            elim place [
              | inl known ↦ (k, close, inl known)
              | inr queued ↦ elim (split_head id depth q w.queue v k e queued) [
                | inl (at, deepness) ↦ (
                  d₀,
                  omega (arith, low, close, deepness),
                  inl (subst (λ x. Elem (x, d₀) done) (sym at) old),
                )
                | inr m ↦ (k, close, inr m)
              ]
            ];
        started = elim h.started [
          | inl known ↦ inl known
          | inr queued ↦ elim (split_head id depth q w.queue from 0 e queued) [
            | inl (at, deepness) ↦
                let zero_depth : d₀ ≡ 0 = omega (arith, low, deepness) in
                inl (
                  subst (λ x. Elem (x, 0) done) (sym at)
                    (subst (λ k. Elem (id, k) done) zero_depth old))
            | inr m ↦ inr m
          ]
        ];
        visited = h.visited;
        nodes = h.nodes;
      }

  Fresh-visited :
      (id : Text) (depth : ℕ) (q : List (Text × ℕ)) (done : List (Text × ℕ)) (w w' : Walk)
      → Fresh chunks rels max_depth id depth (record w { queue = q }) w'
      → Inv done w
      → (v : Text) → (includes w'.visited v ≡ true) ↔ ((d : ℕ) × Elem (v, d) ((id, depth) ∷ done))
  Fresh-visited id depth q done w w' f h v =
      let seen : includes w'.visited v ≡ text_eq id v || includes w.visited v =
        ap (λ z. includes z v) f.visited ∙ includes-add id v w.visited in
      (
        λ t. elim (Bool-cases (text_eq id v)) [
          | inl same ↦ (depth, inl (ap (λ x. (x, depth)) (sym ((text_eq_iff id v).0 same))))
          | inr other ↦ let (d, m) = (h.visited v).0 (ground (arith, seen, t, other)) in (d, inr m)
        ],
        λ (d, m). elim m [
          | inl same ↦
              let t = (text_eq_iff id v).1 (sym (ap (λ p. p.0) same)) in ground (arith, seen, t)
          | inr m ↦ let t = (h.visited v).1 (d, m) in ground (arith, seen, t)
        ],
      )

  Fresh-nodes :
      (id : Text) (depth : ℕ) (q : List (Text × ℕ)) (done : List (Text × ℕ)) (w w' : Walk)
      → Fresh chunks rels max_depth id depth (record w { queue = q }) w'
      → Inv done w
      → (c : MemoryChunk)
      → Elem c w'.nodes
        ↔ ((v : Text) × (d : ℕ) × Elem (v, d) ((id, depth) ∷ done) × (Dict.get v chunks ≡ some c))
  Fresh-nodes id depth q done w w' f h c = (
    λ m. elim ((f.nodes c).0 m) [
      | inl m ↦ let (v, d, k, e) = (h.nodes c).0 m in (v, d, inr k, e)
      | inr e ↦ (id, depth, inl refl, e)
    ],
    λ (v, d, m, e). elim m [
      | inl same ↦
          (f.nodes c).1 (inr (subst (λ x. Dict.get x chunks ≡ some c) (ap (λ p. p.0) same) e))
      | inr m ↦ (f.nodes c).1 (inl ((h.nodes c).1 (v, d, m, e)))
    ],
  )

  -- An entry that was in the queue is visited now, or still in the queue.
  Fresh-place :
      (id : Text) (depth : ℕ) (q : List (Text × ℕ)) (done : List (Text × ℕ)) (w w' : Walk)
      → w.queue ≡ (id, depth) ∷ q
      → Fresh chunks rels max_depth id depth (record w { queue = q }) w'
      → (v : Text) (d : ℕ) → Elem (v, d) done ⊎ Elem (v, d) w.queue
      → Elem (v, d) ((id, depth) ∷ done) ⊎ Elem (v, d) w'.queue
  Fresh-place id depth q done w w' e f v d place = elim place [
    | inl m ↦ inl (inr m)
    | inr m ↦ elim (subst (Elem (v, d)) e m) [
      | inl same ↦ inl (inl same)
      | inr m ↦ inr (subst (Elem (v, d)) (sym f.queue) (Elem-append_left (v, d) q f.more m))
    ]
  ]

  Fresh-started :
      (id : Text) (depth : ℕ) (q : List (Text × ℕ)) (done : List (Text × ℕ)) (w w' : Walk)
      → w.queue ≡ (id, depth) ∷ q
      → Fresh chunks rels max_depth id depth (record w { queue = q }) w'
      → Inv done w
      → Elem (from, 0) ((id, depth) ∷ done) ⊎ Elem (from, 0) w'.queue
  Fresh-started id depth q done w w' e f h = Fresh-place id depth q done w w' e f from 0 h.started

  -- No visited id is deeper than the id that is visited now.
  visited_depth :
      (id : Text) (depth : ℕ) (q : List (Text × ℕ)) (done : List (Text × ℕ)) (w : Walk)
      → w.queue ≡ (id, depth) ∷ q
      → Inv done w
      → (v : Text) (d : ℕ) → Elem (v, d) ((id, depth) ∷ done)
      → d ≤ depth
  visited_depth id depth q done w e h v d (inl same) =
      let eq : d ≡ depth = ap (λ p. p.1) same in omega (arith, eq)
  visited_depth id depth q done w e h v d (inr m) =
      h.below v d id depth m (subst (Elem (id, depth)) (sym e) (inl refl))

  Fresh-closed :
      (id : Text) (depth : ℕ) (q : List (Text × ℕ)) (done : List (Text × ℕ)) (w w' : Walk)
      → w.queue ≡ (id, depth) ∷ q
      → Fresh chunks rels max_depth id depth (record w { queue = q }) w'
      → Inv done w
      → (u : Text) (d : ℕ) (v : Text) → Elem (u, d) ((id, depth) ∷ done)
      → suc d ≤ max_depth
      → Linked chunks rels u v
      → (e : ℕ) × (e ≤ suc d) × (Elem (v, e) ((id, depth) ∷ done) ⊎ Elem (v, e) w'.queue)
  Fresh-closed id depth q done w w' e f h u d v (inl same) deep linked =
      let eq : d ≡ depth = ap (λ p. p.1) same in
      let linked' : Linked chunks rels id v =
        subst (λ x. Linked chunks rels x v) (ap (λ p. p.0) same) linked in
      elim (f.full v linked' (omega (arith, eq, deep))) [
        | inl m ↦ (
          suc depth,
          omega (arith, eq),
          inr (
              subst (Elem (v, suc depth)) (sym f.queue)
                (Elem-append_right (v, suc depth) q f.more m)),
        )
        | inr seen ↦
            let (k, m) =
              (Fresh-visited id depth q done w w' f h v).0
                (ap (λ z. includes z v) f.visited ∙ seen) in
            (k, omega (arith, eq, visited_depth id depth q done w e h v k m), inl m)
      ]
  Fresh-closed id depth q done w w' e f h u d v (inr m) deep linked =
      let (k, close, place) = h.closed u d v m deep linked in
      (k, close, Fresh-place id depth q done w w' e f v k place)

  -- A round that visits a new id.
  pub Fresh-Inv :
      (id : Text) (depth : ℕ) (q : List (Text × ℕ)) (done : List (Text × ℕ)) (w w' : Walk)
      → w.queue ≡ (id, depth) ∷ q
      → Fresh chunks rels max_depth id depth (record w { queue = q }) w'
      → Inv done w
      → Inv ((id, depth) ∷ done) w'
  Fresh-Inv id depth q done w w' e f h =
      let behind : (v : Text) (d : ℕ) → Elem (v, d) q → Elem (v, d) w.queue =
        λ v d m. subst (Elem (v, d)) (sym e) (inr m) in
      let head : Elem (id, depth) w.queue = subst (Elem (id, depth)) (sym e) (inl refl) in
      let sorted : IsSorted Near ((id, depth) ∷ q) = subst (IsSorted Near) e h.level in
      let (path, shallow) = h.walked id depth head in
      let queued : (v : Text) (d : ℕ) → Elem (v, d) w'.queue → Elem (v, d) q ⊎ Elem (v, d) f.more =
        λ v d m. Elem-append (v, d) q f.more (subst (Elem (v, d)) f.queue m) in
      let near : (v : Text) (d : ℕ) → Elem (v, d) q → (depth ≤ d) × (d ≤ suc depth) =
        λ v d m. All-Elem (Near (id, depth)) (v, d) q (sorted.0) m in
      record {
        walked = λ v d m. elim (queued v d m) [
          | inl m ↦ h.walked v d (behind v d m)
          | inr m ↦
              let (same, linked, deep) = f.sound v d m in
              (
                subst (λ k. Steps chunks rels from k v) (sym same) (step path linked),
                omega (arith, same, deep),
              )
        ];
        reached = λ v d m. elim m [
          | inl same ↦
              subst (λ (p : Text × ℕ). Steps chunks rels from p.1 p.0 × (p.1 ≤ max_depth))
                (sym same) (path, shallow)
          | inr m ↦ h.reached v d m
        ];
        below = λ u d v k m n.
            let upper : d ≤ depth = elim m [
              | inl same ↦ let eq : d ≡ depth = ap (λ p. p.1) same in omega (arith, eq)
              | inr m ↦ h.below u d id depth m head
            ] in
            elim (queued v k n) [
              | inl n ↦ omega (arith, upper, near v k n)
              | inr n ↦ omega (arith, upper, (f.sound v k n).0)
            ];
        level =
            subst (IsSorted Near) (sym f.queue)
              (Near-append q f.more depth (sorted.1) near (λ v k m. (f.sound v k m).0));
        closed = Fresh-closed id depth q done w w' e f h;
        started = Fresh-started id depth q done w w' e f h;
        visited = Fresh-visited id depth q done w w' f h;
        nodes = Fresh-nodes id depth q done w w' f h;
      }
