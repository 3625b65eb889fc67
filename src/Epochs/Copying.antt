-- ===== src/Epochs/Copying.antt =====
-- What the new epoch reads after the chunks of the past epochs have been copied into it.
use subspace_transceiver.Prelude.{
  ℕ, ◌≡◌, refl, sym, subst, inl, inr, true, false, not, ◌&&◌, List, [], ◌∷◌, some, arith,
  Bool-cases, Option-cases, Elem,
}
use subspace_transceiver.Prelude.Dict
use subspace_transceiver.Prelude.Text.{Text, text_eq, text_eq_refl}
use subspace_transceiver.Schema.{MemoryChunk}
use subspace_transceiver.Query.{is_expired}
use subspace_transceiver.Store.{Loro, IsLoro, Store, Read, read_failed, found}
use subspace_transceiver.Store
use subspace_transceiver.Store.Reads.{Elem-list_iff, get-put}
use subspace_transceiver.Epochs.{Calendar, is_past, migrate, migrate_chunks, migrate_past}

-- Some chunk is read under the id.
abbrev pub Reads : {loro : Loro} → Text → Store loro → Type 0
Reads {loro = l} id s = (c : MemoryChunk) × (Store.get l id s ≡ found (some c))

module _ {loro : Loro} (laws : IsLoro loro) (calendar : Calendar) where
  put-Reads :
      (c : MemoryChunk) (id : Text) (s : Store loro)
      → c.tombstone ≡ false
      → Reads id s
      → Reads id (Store.put loro c s)
  put-Reads c id s alive (b, e) =
      let read = (get-put laws c 0 id id s).0 in
      elim (Bool-cases (text_eq c.id id)) [
        | inl t ↦ (c, ground (arith, read, t, alive))
        | inr f ↦ (b, ground (arith, read, f, e))
      ]

  put-Reads_self :
      (c : MemoryChunk) (s : Store loro) → c.tombstone ≡ false → Reads c.id (Store.put loro c s)
  put-Reads_self c s alive =
      (c, ground (arith, (get-put laws c 0 c.id c.id s).0, text_eq_refl c.id, alive))

  -- The chunks that are copied are no tombstones.
  AllAlive : List MemoryChunk → Type 0
  AllAlive cs = (c : MemoryChunk) → Elem c cs → c.tombstone ≡ false

  migrate-Reads :
      (now : ℕ) (id : Text) (cs : List MemoryChunk) (to : Store loro)
      → AllAlive cs
      → Reads id to
      → Reads id ((migrate loro calendar now cs to).0)
  unfolding migrate AllAlive
  migrate-Reads now id [] to alive r = r
  migrate-Reads now id (c ∷ cs) to alive r = elim (Bool-cases (is_expired now c)) [
    | inl t ↦ rw t (migrate-Reads now id cs to (λ b m. alive b (inr m)) r)
    | inr f ↦ rw f (
        migrate-Reads now id cs (Store.put loro c to) (λ b m. alive b (inr m))
          (put-Reads c id to (alive c (inl refl)) r))
  ]

  migrate-Reads_new :
      (now : ℕ) (c : MemoryChunk) (cs : List MemoryChunk) (to : Store loro)
      → AllAlive cs
      → Elem c cs
      → is_expired now c ≡ false
      → Reads c.id ((migrate loro calendar now cs to).0)
  unfolding migrate AllAlive
  migrate-Reads_new now c [] to alive m fresh = absurd m
  migrate-Reads_new now c (b ∷ cs) to alive (inl same) fresh =
      let fresh' : is_expired now b ≡ false = subst (λ x. is_expired now x ≡ false) same fresh in
      rw fresh' (
        migrate-Reads now c.id cs (Store.put loro b to) (λ x m. alive x (inr m))
          (subst (λ x. Reads x.id (Store.put loro b to)) (sym same)
            (put-Reads_self b to (alive b (inl refl)))))
  migrate-Reads_new now c (b ∷ cs) to alive (inr m) fresh = elim (Bool-cases (is_expired now b)) [
    | inl t ↦ rw t (migrate-Reads_new now c cs to (λ x k. alive x (inr k)) m fresh)
    | inr f ↦
        rw f (migrate-Reads_new now c cs (Store.put loro b to) (λ x k. alive x (inr k)) m fresh)
  ]

  list-alive : (s : Store loro) → AllAlive (Store.list loro s)
  unfolding AllAlive
  list-alive s c m = ((Elem-list_iff laws c s).0 m).1

  -- What one epoch adds to the new store: nothing is lost from it, and what is fresh is added.
  migrate_chunks-Reads :
      (now : ℕ) (id e : Text) (epochs : List (Text × Store loro)) (to : Store loro)
      → Reads id to
      → Reads id ((migrate_chunks loro calendar now e epochs to).0)
  unfolding migrate_chunks
  migrate_chunks-Reads now id e epochs to r = elim (Option-cases (Dict.get e epochs)) [
    | inl h ↦ rw (h, migrate_chunks) r
    | inr (s, h) ↦
        rw (h, migrate_chunks) (migrate-Reads now id (Store.list loro s) to (list-alive s) r)
  ]

  migrate_chunks-Reads_new :
      (now : ℕ) (c : MemoryChunk) (e : Text) (epochs : List (Text × Store loro)) (s to : Store loro)
      → Dict.get e epochs ≡ some s
      → Elem c (Store.list loro s)
      → is_expired now c ≡ false
      → Reads c.id ((migrate_chunks loro calendar now e epochs to).0)
  unfolding migrate_chunks
  migrate_chunks-Reads_new now c e epochs s to h m fresh =
      rw (h, migrate_chunks) (migrate-Reads_new now c (Store.list loro s) to (list-alive s) m fresh)

  migrate_past-Reads :
      (now retain : ℕ) (new id : Text) (es : List Text) (epochs : List (Text × Store loro))
      (to : Store loro)
      → Reads id to
      → Reads id (migrate_past loro calendar now retain new es epochs to)
  unfolding migrate_past
  migrate_past-Reads now retain new id [] epochs to r = r
  migrate_past-Reads now retain new id (e ∷ es) epochs to r =
      elim (Bool-cases (not (text_eq e new) && is_past loro calendar now retain e)) [
        | inl t ↦ rw t (
            migrate_past-Reads now retain new id es epochs _
              (migrate_chunks-Reads now id e epochs to r))
        | inr f ↦ rw f (migrate_past-Reads now retain new id es epochs to r)
      ]

  pub migrate_past-Reads_new :
      (now retain : ℕ) (new e : Text) (es : List Text) (epochs : List (Text × Store loro))
      (c : MemoryChunk) (s to : Store loro)
      → Elem e es
      → not (text_eq e new) && is_past loro calendar now retain e ≡ true
      → Dict.get e epochs ≡ some s
      → Elem c (Store.list loro s)
      → is_expired now c ≡ false
      → Reads c.id (migrate_past loro calendar now retain new es epochs to)
  unfolding migrate_past
  migrate_past-Reads_new now retain new e [] epochs c s to m past h listed fresh = absurd m
  migrate_past-Reads_new now retain new e (j ∷ es) epochs c s to (inl same) past h listed fresh =
      let past' : not (text_eq j new) && is_past loro calendar now retain j ≡ true =
        subst (λ k. not (text_eq k new) && is_past loro calendar now retain k ≡ true) same past in
      let h' : Dict.get j epochs ≡ some s = subst (λ k. Dict.get k epochs ≡ some s) same h in
      rw past' (
        migrate_past-Reads now retain new c.id es epochs _
          (migrate_chunks-Reads_new now c j epochs s to h' listed fresh))
  migrate_past-Reads_new now retain new e (j ∷ es) epochs c s to (inr m) past h listed fresh =
      migrate_past-Reads_new now retain new e es epochs c s _ m past h listed fresh
