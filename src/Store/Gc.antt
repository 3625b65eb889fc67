-- ===== src/Store/Gc.antt =====
-- packages/core/src/gc.ts: runGC over LoroMemoryStore, whose `forget` takes effect when it is called.
use subspace_transceiver.Prelude.{
  ℕ, suc, ◌≡◌, refl, sym, ap, subst, ◌∙◌, ◌↔◌, inl, inr, Bool, true, false, not, ◌&&◌, List, [],
  ◌∷◌, none, some, arith, Bool-cases, if◌then◌else◌, Elem, any,
}
use subspace_transceiver.Prelude.Text.{Text, text_eq, text_eq_iff}
use subspace_transceiver.Schema.{MemoryChunk}
use subspace_transceiver.Query.{is_expired}
use subspace_transceiver.Store.{Loro, IsLoro, Store, found, get, forget, list}
use subspace_transceiver.Store.Reads.{IsKeyed, Elem-list_iff, get-forget, list-get, forget-IsKeyed}

-- `!chunk._tombstone && chunk.ttl !== undefined && chunk.ttl < now`
abbrev pub is_garbage : ℕ → MemoryChunk → Bool
is_garbage now c = not c.tombstone && is_expired now c

module _ (loro : Loro) where
  -- The loop of `runGC`, and the count.
  unfoldable pub forget_garbage : ℕ → List MemoryChunk → Store loro → Store loro × ℕ
  forget_garbage now [] s = (s, 0)
  forget_garbage now (c ∷ cs) s =
      if is_garbage now c
      then (let (s', pruned) = forget_garbage now cs (forget loro now c.id s) in (s', suc pruned))
      else forget_garbage now cs s

  unfoldable pub run_gc : ℕ → Store loro → Store loro × ℕ
  run_gc now s = forget_garbage now (list loro s) s

-- Whether the list has garbage with the id.
abbrev has_garbage : ℕ → Text → List MemoryChunk → Bool
has_garbage now id = any (λ c. is_garbage now c && text_eq c.id id)

found_inj : {b c : MemoryChunk} → found (some b) ≡ found (some c) → b ≡ c
found_inj h = cc

module _ {loro : Loro} (laws : IsLoro loro) where
  get-forget_garbage :
      (now : ℕ) (id : Text) (cs : List MemoryChunk) (s : Store loro)
      → get loro id ((forget_garbage loro now cs s).0)
        ≡ (if has_garbage now id cs then found none else get loro id s)
  unfolding forget_garbage
  get-forget_garbage now id [] s = refl
  get-forget_garbage now id (c ∷ cs) s = elim (Bool-cases (is_garbage now c)) [
    | inl t ↦ rw t (
        get-forget_garbage now id cs (forget loro now c.id s)
        ∙ ground (arith, get-forget laws now c.id id s))
    | inr f ↦ rw f (get-forget_garbage now id cs s)
  ]

  forget_garbage-IsKeyed :
      (now : ℕ) (cs : List MemoryChunk) (s : Store loro)
      → IsKeyed laws s.doc
      → IsKeyed laws ((forget_garbage loro now cs s).0).doc
  unfolding forget_garbage
  forget_garbage-IsKeyed now [] s keyed = keyed
  forget_garbage-IsKeyed now (c ∷ cs) s keyed = elim (Bool-cases (is_garbage now c)) [
    | inl t ↦ rw t (
        forget_garbage-IsKeyed now cs (forget loro now c.id s)
          (forget-IsKeyed laws now c.id s keyed))
    | inr f ↦ rw f (forget_garbage-IsKeyed now cs s keyed)
  ]

  has_garbage_iff :
      (now : ℕ) (id : Text) (cs : List MemoryChunk)
      → (has_garbage now id cs ≡ true)
        ↔ ((c : MemoryChunk) × Elem c cs × (is_garbage now c ≡ true) × (c.id ≡ id))
  has_garbage_iff now id [] = (λ h. cc, λ (c, m, g, e). absurd m)
  has_garbage_iff now id (c ∷ cs) = elim (Bool-cases (is_garbage now c && text_eq c.id id)) [
    | inl t ↦
        rw t (λ h. (c, inl refl, ground arith, (text_eq_iff c.id id).0 (ground arith)), λ h. refl)
    | inr f ↦ rw f (
      λ h. let (b, m, g, e) = (has_garbage_iff now id cs).0 h in (b, inr m, g, e),
      λ (b, m, g, e). elim m [
        | inl same ↦ absurd (garbage_head now id b c same g e f)
        | inr m ↦ (has_garbage_iff now id cs).1 (b, m, g, e)
      ],
    )
  ]
    where
      garbage_head :
          (now : ℕ) (id : Text) (b c : MemoryChunk)
          → b ≡ c
          → is_garbage now b ≡ true
          → b.id ≡ id
          → (is_garbage now c && text_eq c.id id) ≡ false
          → ⊥
      garbage_head now id b c same g e f =
          let g' : is_garbage now c ≡ true = subst (λ x. is_garbage now x ≡ true) same g in
          let e' : text_eq c.id id ≡ true =
            (text_eq_iff c.id id).1 (ap (λ x. x.id) (sym same) ∙ e) in
          ground (arith, g', e', f)

  garbage-is_expired :
      (now : ℕ) (c : MemoryChunk) → is_garbage now c ≡ true → is_expired now c ≡ true
  garbage-is_expired now c g = ground (arith, g)

  same_garbage :
      (now : ℕ) (b c : MemoryChunk) (s : Store loro)
      → IsKeyed laws s.doc
      → Elem b (list loro s)
      → is_garbage now b ≡ true
      → b.id ≡ c.id
      → Elem c (list loro s)
      → is_expired now c ≡ false
      → ⊥
  same_garbage now b c s keyed m g e listed fresh =
      let one = (list-get laws b s keyed).0 m in
      let other = (list-get laws c s keyed).0 listed in
      let same : b ≡ c = found_inj (sym one ∙ ap (λ k. get loro k s) e ∙ other) in
      let expired = garbage-is_expired now c (subst (λ x. is_garbage now x ≡ true) same g) in cc

  fresh_listed :
      (now : ℕ) (c : MemoryChunk) (s : Store loro)
      → Elem c (list loro s)
      → has_garbage now c.id (list loro s) ≡ false
      → is_expired now c ≡ false
  fresh_listed now c s listed none_there = elim (Bool-cases (is_expired now c)) [
    | inl t ↦
        let alive = ((Elem-list_iff laws c s).0 listed).1 in
        let found =
          (has_garbage_iff now c.id (list loro s)).1 (c, listed, ground (arith, t, alive), refl) in
        absurd (cc (sym found ∙ none_there))
    | inr f ↦ f
  ]

  -- In a store whose chunks stand under their own ids, `list` returns after a pass what it returned
  -- before, less what had expired.
  pub run_gc-list :
      (now : ℕ) (c : MemoryChunk) (s : Store loro)
      → IsKeyed laws s.doc
      → Elem c (list loro ((run_gc loro now s).0))
        ↔ (Elem c (list loro s) × (is_expired now c ≡ false))
  unfolding run_gc
  run_gc-list now c s keyed =
      let after = (forget_garbage loro now (list loro s) s).0 in
      let reads = get-forget_garbage now c.id (list loro s) s in
      let before = list-get laws c s keyed in
      let now_listed = list-get laws c after (forget_garbage-IsKeyed now (list loro s) s keyed) in
      let garbage = has_garbage_iff now c.id (list loro s) in
      elim (Bool-cases (has_garbage now c.id (list loro s))) [
        | inl t ↦ (
          λ h. absurd (cc (sym (now_listed.0 h) ∙ (rw t at reads))),
          λ (listed, fresh).
              let (b, m, g, e) = garbage.0 t in
              absurd (same_garbage now b c s keyed m g e listed fresh),
        )
        | inr f ↦ (
          λ h.
              let listed = before.1 (sym (rw f at reads) ∙ now_listed.0 h) in
              (listed, fresh_listed now c s listed f),
          λ (listed, fresh). now_listed.1 ((rw f at reads) ∙ before.0 listed),
        )
      ]

  fresh_kept :
      (now : ℕ) (cs : List MemoryChunk) (s : Store loro)
      → ((c : MemoryChunk) → Elem c cs → is_expired now c ≡ false)
      → forget_garbage loro now cs s ≡ (s, 0)
  unfolding forget_garbage
  fresh_kept now [] s h = refl
  fresh_kept now (c ∷ cs) s h =
      let fresh : is_garbage now c ≡ false = ground (arith, h c (inl refl)) in
      rw fresh (fresh_kept now cs s (λ b m. h b (inr m)))

  -- In a store whose chunks stand under their own ids, a second pass at the same time changes nothing and counts nothing.
  pub run_gc-again :
      (now : ℕ) (s : Store loro)
      → IsKeyed laws s.doc
      → run_gc loro now ((run_gc loro now s).0) ≡ ((run_gc loro now s).0, 0)
  unfolding run_gc
  run_gc-again now s keyed =
      let after = (forget_garbage loro now (list loro s) s).0 in
      fresh_kept now (list loro after) after (λ c m. ((run_gc-list now c s keyed).0 m).1)
