-- ===== src/Routes/Graph/Walks.antt =====
-- Walks along the links, and what visiting an id adds to the state of the search.
use mathlib.Core.List.{append-nil}
use subspace_transceiver.Prelude.{
  ℕ, suc, ◌≤◌, ◌≡◌, refl, sym, ap, subst, ◌∙◌, ◌↔◌, ◌⊎◌, inl, inr, true, false, not, ◌&&◌, List, [],
  ◌∷◌, ◌++◌, Option, none, some, some_inj, arith, Bool-cases, Option-cases, leb, Elem, Elem-append,
  Elem-append_left, Elem-append_right,
}
use subspace_transceiver.Prelude.Dict
use subspace_transceiver.Prelude.Sets.{includes, add}
use subspace_transceiver.Prelude.Text.{Text}
use subspace_transceiver.Schema.{MemoryChunk, ContentLink}
use subspace_transceiver.Backlinks.{get_links}
use subspace_transceiver.Routes.Graph.{Walk, is_followed, expand, visit}
use subspace_transceiver.Routes.Graph.Ends.{pushed, follow-visited, follow-nodes, follow-queue}

-- A chunk of the map has a link to the target that the request lets pass.
abbrev pub Linked : List (Text × MemoryChunk) → Option (List Text) → Text → Text → Type 0
Linked chunks rels u v =
    (c : MemoryChunk) × (Dict.get u chunks ≡ some c)
    × (l : ContentLink) × Elem l (get_links c)
    × (is_followed rels l ≡ true)
    × (l.target ≡ v)

-- The ids that so many links lead to.
pub data Steps (chunks : List (Text × MemoryChunk)) (rels : Option (List Text)) (from : Text)
    : ℕ → Text → Type 0 where
  begin : Steps chunks rels from 0 from
  step :
      {d : ℕ} {u v : Text}
      → Steps chunks rels from d u
      → Linked chunks rels u v
      → Steps chunks rels from (suc d) v

module _ (chunks : List (Text × MemoryChunk)) (rels : Option (List Text)) (max_depth : ℕ) where
  -- What visiting a new id does.
  pub record Fresh (id : Text) (depth : ℕ) (w w' : Walk) : Type 0 where
    pub more : List (Text × ℕ)
    pub queue : w'.queue ≡ w.queue ++ more
    pub visited : w'.visited ≡ add id w.visited
    pub sound :
        (v : Text) (e : ℕ)
        → Elem (v, e) more
        → (e ≡ suc depth) × Linked chunks rels id v × (suc depth ≤ max_depth)
    pub full :
        (v : Text)
        → Linked chunks rels id v
        → suc depth ≤ max_depth
        → Elem (v, suc depth) more ⊎ (includes (add id w.visited) v ≡ true)
    pub nodes :
        (c : MemoryChunk) → Elem c w'.nodes ↔ (Elem c w.nodes ⊎ (Dict.get id chunks ≡ some c))

  pushed_sound :
      (visited : List Text) (depth : ℕ) (links : List ContentLink) (v : Text) (e : ℕ)
      → Elem (v, e) (pushed rels visited depth links)
      → (e ≡ suc depth)
        × (l : ContentLink) × Elem l links
        × (is_followed rels l ≡ true)
        × (l.target ≡ v)
  unfolding pushed
  pushed_sound visited depth [] v e m = absurd m
  pushed_sound visited depth (l ∷ links) v e m =
      elim (Bool-cases (is_followed rels l && not (includes visited l.target))) [
        | inl t ↦ elim (rw t at m) [
          | inl same ↦
              (ap (λ p. p.1) same, l, inl refl, ground (arith, t), sym (ap (λ p. p.0) same))
          | inr m ↦
              let (d, k, at_k, f, e) = pushed_sound visited depth links v e m in
              (d, k, inr at_k, f, e)
        ]
        | inr f ↦
            let (d, k, at_k, g, e) = pushed_sound visited depth links v e (rw f at m) in
            (d, k, inr at_k, g, e)
      ]

  pushed_full :
      (visited : List Text) (depth : ℕ) (links : List ContentLink) (l : ContentLink)
      → Elem l links
      → is_followed rels l ≡ true
      → Elem (l.target, suc depth) (pushed rels visited depth links)
        ⊎ (includes visited l.target ≡ true)
  unfolding pushed
  pushed_full visited depth [] l m f = absurd m
  pushed_full visited depth (k ∷ links) l (inl same) f =
      elim (Bool-cases (includes visited l.target)) [
        | inl seen ↦ inr seen
        | inr new ↦
            let test : is_followed rels k && not (includes visited k.target) ≡ true =
              subst (λ x. is_followed rels x && not (includes visited x.target) ≡ true) same
                (ground (arith, f, new)) in
            inl (rw test (inl (ap (λ x. (x.target, suc depth)) same)))
      ]
  pushed_full visited depth (k ∷ links) l (inr m) f =
      elim (Bool-cases (is_followed rels k && not (includes visited k.target))) [
        | inl t ↦ rw t (⊎_map (pushed_full visited depth links l m f))
        | inr n ↦ rw n (pushed_full visited depth links l m f)
      ]
    where
      ⊎_map : {A B C : Type 0} → B ⊎ C → (A ⊎ B) ⊎ C
      ⊎_map (inl b) = inl (inr b)
      ⊎_map (inr c) = inr c

  -- A chunk that is not expanded adds nothing but itself.
  unknown-Fresh :
      (id : Text) (depth : ℕ) (w : Walk)
      → Dict.get id chunks ≡ none
      → Fresh id depth w (record w { visited = add id w.visited })
  unknown-Fresh id depth w e = record {
    more = [];
    queue = sym (append-nil w.queue);
    visited = refl;
    sound = λ v d m. absurd m;
    full = λ v (c, h, l, m, g, t) deep. absurd (cc (sym e ∙ h));
    nodes = λ c. (λ m. inl m, λ m. elim m [ inl m ↦ m | inr h ↦ absurd (cc (sym e ∙ h)) ]);
  }

  with_chunk :
      (nodes : List MemoryChunk) (o : Option MemoryChunk) (c b : MemoryChunk)
      → o ≡ some c
      → Elem b (nodes ++ c ∷ []) ↔ (Elem b nodes ⊎ (o ≡ some b))
  with_chunk nodes o c b e = (
    λ m. elim (Elem-append b nodes (c ∷ []) m) [
      | inl m ↦ inl m
      | inr m ↦ elim m [ inl same ↦ inr (e ∙ ap some (sym same)) | inr n ↦ absurd n ]
    ],
    λ m. elim m [
      | inl m ↦ Elem-append_left b nodes (c ∷ []) m
      | inr h ↦ Elem-append_right b nodes (c ∷ []) (inl (some_inj (sym h ∙ e)))
    ],
  )

  expand-Fresh :
      (id : Text) (depth : ℕ) (w : Walk) (c : MemoryChunk)
      → Dict.get id chunks ≡ some c
      → Fresh id depth w
          (expand chunks rels max_depth id depth c (record w { visited = add id w.visited }))
  unfolding expand
  expand-Fresh id depth w c e = elim (Bool-cases (leb max_depth depth)) [
    | inl t ↦ rw t (record {
      more = [];
      queue = sym (append-nil w.queue);
      visited = refl;
      sound = λ v d m. absurd m;
      full = λ v linked deep. absurd (ground (arith, t, deep));
      nodes = λ b. with_chunk w.nodes (Dict.get id chunks) c b e;
    })
    | inr f ↦
        let grown = record w { visited = add id w.visited; nodes = w.nodes ++ c ∷ [] } in
        rw f (record {
          more = pushed rels (add id w.visited) depth (get_links c);
          queue = follow-queue rels id depth (get_links c) grown;
          visited = follow-visited rels id depth (get_links c) grown;
          sound = λ v d m.
              let (same, l, at_l, g, target) =
                pushed_sound (add id w.visited) depth (get_links c) v d m in
              (same, (c, e, l, at_l, g, target), ground (arith, f));
          full = λ v (b, h, l, at_l, g, target) deep.
              subst
                (λ x.
                  Elem (x, suc depth) (pushed rels (add id w.visited) depth (get_links c))
                  ⊎ (includes (add id w.visited) x ≡ true))
                target
                (pushed_full (add id w.visited) depth (get_links c) l
                  (subst (λ x. Elem l (get_links x)) (some_inj (sym h ∙ e)) at_l) g);
          nodes = λ b.
              subst (λ ns. Elem b ns ↔ (Elem b w.nodes ⊎ (Dict.get id chunks ≡ some b)))
                (sym (follow-nodes rels id depth (get_links c) grown))
                (with_chunk w.nodes (Dict.get id chunks) c b e);
        })
  ]

  pub visit-Fresh :
      (id : Text) (depth : ℕ) (w : Walk)
      → includes w.visited id ≡ false
      → Fresh id depth w (visit chunks rels max_depth id depth w)
  unfolding visit
  visit-Fresh id depth w new = elim (Option-cases (Dict.get id chunks)) [
    | inl e ↦ rw (new, e, visit) (unknown-Fresh id depth w e)
    | inr (c, e) ↦ rw (new, e, visit) (expand-Fresh id depth w c e)
  ]
