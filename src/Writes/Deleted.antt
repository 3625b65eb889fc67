-- ===== src/Writes/Deleted.antt =====
-- packages/daemon/src/api.ts: what DELETE /memory/:id leaves.
use subspace_transceiver.Prelude.{
  ℕ, ◌≡◌, refl, sym, ap, subst, ◌∙◌, Bool, true, false, [], ◌∷◌, none, some, Option-cases,
  Bool-cases, inl, inr, if◌then◌else◌,
}
use subspace_transceiver.Prelude.Text.{Text, text_eq, text_eq_iff}
use subspace_transceiver.Schema.{MemoryChunk, MemoryNamespace}
use subspace_transceiver.Backlinks.{remove_chunk}
use subspace_transceiver.Writes.Stores.{IsMemoryStore}
use subspace_transceiver.Writes.{
  MemoryStore, RouteError, Reply, WriteSession, Sessions, store_in, with_store,
}
use subspace_transceiver.Writes.Changes.{
  find_in, find_existing, delete_in, delete_in_sessions, delete_memory,
}

module _ {store : MemoryStore} (laws : IsMemoryStore store) where
  -- A state of a store with one id deleted.
  abbrev Without : Text → store.State → store.State → Type 0
  Without id t t' = (j : Text) → store.get j t' ≡ (if text_eq id j then none else store.get j t)

  -- Both stores of a session with the id deleted.
  abbrev SessionWithout : Text → WriteSession store → WriteSession store → Type 0
  SessionWithout id s s' = Without id s.skill s'.skill × Without id s.project s'.project

  -- The same sessions in the same order, with the id deleted in each.
  abbrev pub SessionsWithout : Text → Sessions store → Sessions store → Type 0
  SessionsWithout id [] [] = Unit
  SessionsWithout id [] (q ∷ after) = ⊥
  SessionsWithout id (p ∷ before) [] = ⊥
  SessionsWithout id (p ∷ before) (q ∷ after) =
      (p.0 ≡ q.0) × SessionWithout id p.1 q.1 × SessionsWithout id before after

  Without-absent : (id : Text) (t : store.State) → store.get id t ≡ none → Without id t t
  Without-absent id t e j = elim (Bool-cases (text_eq id j)) [
    | inl y ↦ rw y (ap (λ k. store.get k t) (sym ((text_eq_iff id j).0 y)) ∙ e)
    | inr f ↦ rw f refl
  ]

  Without-forget :
      (now : ℕ) (id : Text) (t : store.State)
      → laws.IsSingle id t
      → Without id t (store.forget now id t)
  Without-forget now id t single j = elim (Bool-cases (text_eq id j)) [
    | inl y ↦ rw y (
        ap (λ k. store.get k (store.forget now id t)) (sym ((text_eq_iff id j).0 y))
        ∙ laws.get_forget now id t single)
    | inr f ↦ rw f (laws.get_forget_other now id j t f)
  ]

  -- Neither store of a session holds a second copy under the id.
  abbrev SingleIn : Text → WriteSession store → Type 0
  SingleIn id s = laws.IsSingle id s.skill × laws.IsSingle id s.project

  abbrev pub AllSingle : Text → Sessions store → Type 0
  AllSingle id [] = Unit
  AllSingle id (p ∷ sessions) = SingleIn id p.1 × AllSingle id sessions

  delete_absent :
      (now : ℕ) (id : Text) (n : MemoryNamespace) (s : WriteSession store) (b : Bool)
      → store.get id (store_in store n s) ≡ none
      → delete_in store now id n (s, b) ≡ (s, b)
  unfolding delete_in
  delete_absent now id n s b e = rw (e, delete_in) refl

  delete_present :
      (now : ℕ) (id : Text) (n : MemoryNamespace) (s : WriteSession store) (b : Bool)
      (c : MemoryChunk)
      → store.get id (store_in store n s) ≡ some c
      → delete_in store now id n (s, b) ≡ (
        record (with_store store n (store.forget now id (store_in store n s)) s) {
          backlinks = remove_chunk c s.backlinks;
        },
        true,
      )
  unfolding delete_in
  delete_present now id n s b c e = rw (e, delete_in) refl

  -- What the deletion in the two stores of a session gives, the chunks found there or not.
  DeletedIn : Text → WriteSession store → WriteSession store × Bool → Type 0
  DeletedIn id s r =
      SessionWithout id s r.0 × (r.1 ≡ elim (find_in store id s) [ none ↦ false | some p ↦ true ])

  delete_in_both :
      (now : ℕ) (id : Text) (s : WriteSession store)
      → SingleIn id s
      → DeletedIn id s (
          delete_in store now id MemoryNamespace.project
            (delete_in store now id MemoryNamespace.skill (s, false)))
  unfolding store_in with_store find_in DeletedIn
  delete_in_both now id s (one, other) = elim (Option-cases (store.get id s.skill)) [
    | inl e ↦
        let first = ap second (delete_absent now id MemoryNamespace.skill s false e) in
        elim (Option-cases (store.get id s.project)) [
          | inl f ↦
              subst (DeletedIn id s)
                (sym (first ∙ delete_absent now id MemoryNamespace.project s false f))
                ((Without-absent id s.skill e, Without-absent id s.project f), rw (e, f) refl)
          | inr (c, f) ↦
              subst (DeletedIn id s)
                (sym (first ∙ delete_present now id MemoryNamespace.project s false c f))
                (
                  (Without-absent id s.skill e, Without-forget now id s.project other),
                  rw (e, f) refl,
                )
        ]
    | inr (b, e) ↦
        let first = ap second (delete_present now id MemoryNamespace.skill s false b e) in
        elim (Option-cases (store.get id s.project)) [
          | inl f ↦
              subst (DeletedIn id s)
                (sym (first ∙ delete_absent now id MemoryNamespace.project _ true f))
                ((Without-forget now id s.skill one, Without-absent id s.project f), rw e refl)
          | inr (c, f) ↦
              subst (DeletedIn id s)
                (sym (first ∙ delete_present now id MemoryNamespace.project _ true c f))
                (
                  (Without-forget now id s.skill one, Without-forget now id s.project other),
                  rw e refl,
                )
        ]
  ]
    where
      second : WriteSession store × Bool → WriteSession store × Bool
      second = delete_in store now id MemoryNamespace.project

  delete_in_sessions_lem :
      (now : ℕ) (id : Text) (sessions : Sessions store)
      → AllSingle id sessions
      → let r = delete_in_sessions store now id sessions in
        SessionsWithout id sessions r.0
        × (r.1 ≡ elim (find_existing store id sessions) [ none ↦ false | some p ↦ true ])
  unfolding delete_in_sessions find_existing DeletedIn
  delete_in_sessions_lem now id [] single = (tt, refl)
  delete_in_sessions_lem now id ((network, s) ∷ sessions) single =
      let (here, found_here) = delete_in_both now id s single.0 in
      let (rest, found_there) = delete_in_sessions_lem now id sessions single.1 in
      elim (Option-cases (find_in store id s)) [
        | inl e ↦ ((refl, here, rest), rw (found_here, e) found_there)
        | inr (p, e) ↦ ((refl, here, rest), rw (found_here, e) refl)
      ]

  -- Where no store of a session holds a second copy under the id (in an older epoch, for a manager): after
  -- DELETE /memory/:id every session has the memory that it had, less what stood under the id, in both
  -- of its stores; the reply is 204 if some store had the id, and 404 if none had.
  pub delete_memory_lem :
      (now : ℕ) (id : Text) (sessions : Sessions store)
      → AllSingle id sessions
      → let r = delete_memory store now id sessions in
        SessionsWithout id sessions r.0
        × (r.1 ≡ elim (find_existing store id sessions) [
          | none ↦ Reply.failed 404 RouteError.chunk_not_found
          | some p ↦ Reply.no_content
        ])
  unfolding delete_memory
  delete_memory_lem now id sessions single =
      let (without, found) = delete_in_sessions_lem now id sessions single in
      (
        without,
        elim (Option-cases (find_existing store id sessions)) [
          | inl e ↦ rw (found, e) refl
          | inr (p, e) ↦ rw (found, e) refl
        ],
      )
