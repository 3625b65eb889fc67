-- ===== src/Store/Reads.antt =====
-- What the reads of a store return after writes: `get`, `list` and `query` see the map without its
-- tombstones.
use subspace_transceiver.Prelude.{
  ◌≡◌, refl, sym, ap, subst, ◌∙◌, ◌↔◌, inl, inr, Bool, true, false, not, List, [], ◌∷◌, Option,
  none, some, some_inj, arith, Bool-cases, if◌then◌else◌, Elem, Elem-filter, filter-Elem, ℕ,
}
use subspace_transceiver.Prelude.Dict
use subspace_transceiver.Prelude.Text.{Text, text_eq, text_eq_iff, text_eq_refl}
use subspace_transceiver.Schema.{MemoryChunk}
use subspace_transceiver.Store.{
  Raw, json, malformed, Loro, IsLoro, Store, found, read_raw, parsed, tombstone_of, schedule_save,
  put, get, forget, list, get_all_chunks,
}

module _ {loro : Loro} (laws : IsLoro loro) where
  schedule_save-doc : (s : Store loro) → (schedule_save loro s).doc ≡ s.doc
  unfolding schedule_save
  schedule_save-doc s = ground arith

  pub put-doc :
      (c : MemoryChunk) (s : Store loro) → (put loro c s).doc ≡ loro.set c.id (json c) s.doc
  unfolding put
  put-doc c s = schedule_save-doc (record s { doc = loro.set c.id (json c) s.doc })

  pub forget-doc :
      (now : ℕ) (id : Text) (s : Store loro)
      → (forget loro now id s).doc ≡ loro.set id (json (tombstone_of id now)) s.doc
  unfolding forget
  forget-doc now id s =
      schedule_save-doc (record s { doc = loro.set id (json (tombstone_of id now)) s.doc })

  pub get-forget :
      (now : ℕ) (id j : Text) (s : Store loro)
      → get loro j (forget loro now id s) ≡ (if text_eq id j then found none else get loro j s)
  unfolding get tombstone_of
  get-forget now id j s =
      ap (λ d. read_raw (loro.get j d)) (forget-doc now id s)
      ∙ ap read_raw (laws.get_set id j (json (tombstone_of id now)) s.doc)
      ∙ ground arith

  -- A chunk that is put is read back under its id if it is no tombstone, every other id reads as before,
  -- and so does every id but the forgotten one, which reads as absent.
  pub get-put :
      (c : MemoryChunk) (now : ℕ) (id j : Text) (s : Store loro)
      → (get loro j (put loro c s)
          ≡ (if text_eq c.id j then found (if c.tombstone then none else some c) else get loro j s))
        × (get loro j (forget loro now id s) ≡ (if text_eq id j then found none else get loro j s))
  unfolding get
  get-put c now id j s = (
    ap (λ d. read_raw (loro.get j d)) (put-doc c s)
        ∙ ap read_raw (laws.get_set c.id j (json c) s.doc)
        ∙ ground arith,
    get-forget now id j s,
  )

  -- Each chunk stands under its own id.
  unfoldable pub IsKeyed : loro.Doc → Type 0
  IsKeyed doc = (k : Text) (c : MemoryChunk) → loro.get k doc ≡ some (json c) → c.id ≡ k

  -- An entry of the rest is found behind one whose key is not in the rest.
  get-behind :
      (k j : Text) (v w : Raw) (entries : List (Text × Raw))
      → Dict.get k entries ≡ none
      → Dict.get j entries ≡ some v
      → Dict.get j ((k, w) ∷ entries) ≡ some v
  unfolding Dict.get
  get-behind k j v w entries h e = ground (arith, text_eq_iff k j)

  Elem-parsed :
      (c : MemoryChunk) (entries : List (Text × Raw))
      → Dict.Distinct entries
      → Elem c (parsed entries)
      → (k : Text) × (Dict.get k entries ≡ some (json c))
  unfolding parsed Dict.get
  Elem-parsed c [] d h = absurd h
  Elem-parsed c ((k, malformed) ∷ entries) d h =
      let (j, e) = Elem-parsed c entries d.1 h in
      (j, get-behind k j (json c) malformed entries d.0 e)
  Elem-parsed c ((k, json b) ∷ entries) d (inl e) =
      (k, rw (text_eq_refl k) (ap (λ x. some (json x)) (sym e)))
  Elem-parsed c ((k, json b) ∷ entries) d (inr h) =
      let (j, e) = Elem-parsed c entries d.1 h in
      (j, get-behind k j (json c) (json b) entries d.0 e)

  json_inj : {a b : MemoryChunk} → json a ≡ json b → a ≡ b
  json_inj h = cc

  parsed-Elem :
      (c : MemoryChunk) (k : Text) (entries : List (Text × Raw))
      → Dict.get k entries ≡ some (json c)
      → Elem c (parsed entries)
  unfolding parsed Dict.get
  parsed-Elem c k [] h = cc
  parsed-Elem c k ((j, malformed) ∷ entries) h = elim (Bool-cases (text_eq j k)) [
    | inl t ↦ cc (rw t at h)
    | inr f ↦ parsed-Elem c k entries (rw f at h)
  ]
  parsed-Elem c k ((j, json b) ∷ entries) h = elim (Bool-cases (text_eq j k)) [
    | inl t ↦ inl (sym (json_inj (some_inj (rw t at h))))
    | inr f ↦ inr (parsed-Elem c k entries (rw f at h))
  ]

  -- `list` returns exactly the chunks that stand under some key and are no tombstones.
  pub Elem-list_iff :
      (c : MemoryChunk) (s : Store loro)
      → Elem c (list loro s)
        ↔ (((k : Text) × (loro.get k s.doc ≡ some (json c))) × (c.tombstone ≡ false))
  unfolding list get_all_chunks
  Elem-list_iff c s = (
    λ h.
        let (m, alive) = Elem-filter (λ b. not b.tombstone) c (parsed (loro.entries s.doc)) h in
        let (k, e) = Elem-parsed c (loro.entries s.doc) (laws.entries_distinct s.doc) m in
        ((k, sym (laws.entries_get k s.doc) ∙ e), ground arith),
    λ ((k, e), alive).
        filter-Elem (λ b. not b.tombstone) c (parsed (loro.entries s.doc))
          (parsed-Elem c k (loro.entries s.doc) (laws.entries_get k s.doc ∙ e)) (ground arith),
  )

  read_alive_iff :
      (dead : Bool) (b c : MemoryChunk)
      → ((if dead then found none else found (some b)) ≡ found (some c))
        ↔ ((dead ≡ false) × (b ≡ c))
  read_alive_iff true b c = (λ h. cc, λ h. cc (h.0))
  read_alive_iff false b c = (λ h. (refl, cc), λ h. ap (λ x. found (some x)) (h.1))

  pub read_raw_iff :
      (o : Option Raw) (c : MemoryChunk)
      → (read_raw o ≡ found (some c)) ↔ ((o ≡ some (json c)) × (c.tombstone ≡ false))
  read_raw_iff none c = (λ h. cc, λ h. cc (h.0))
  read_raw_iff (some malformed) c = (λ h. cc, λ h. cc (h.0))
  read_raw_iff (some (json b)) c = (
    λ h.
        let (alive, e) = (read_alive_iff b.tombstone b c).0 h in
        (ap (λ x. some (json x)) e, subst (λ x. x.tombstone ≡ false) e alive),
    λ (h, alive).
        let e = json_inj (some_inj h) in
        (read_alive_iff b.tombstone b c).1 (subst (λ x. x.tombstone ≡ false) (sym e) alive, e),
  )

  -- In a store whose chunks stand under their own ids, `list` returns exactly what `get` finds.
  pub list-get :
      (c : MemoryChunk) (s : Store loro)
      → IsKeyed s.doc
      → Elem c (list loro s) ↔ (get loro c.id s ≡ found (some c))
  unfolding get IsKeyed
  list-get c s keyed = (
    λ h.
        let ((k, e), alive) = (Elem-list_iff c s).0 h in
        let same : loro.get c.id s.doc ≡ some (json c) =
          ap (λ j. loro.get j s.doc) (keyed k c e) ∙ e in
        (read_raw_iff (loro.get c.id s.doc) c).1 (same, alive),
    λ h.
        let (e, alive) = (read_raw_iff (loro.get c.id s.doc) c).0 h in
        (Elem-list_iff c s).1 ((c.id, e), alive),
  )

  -- Writing a chunk under its own id keeps every chunk under its own.
  set-IsKeyed :
      (c : MemoryChunk) (doc : loro.Doc) → IsKeyed doc → IsKeyed (loro.set c.id (json c) doc)
  unfolding IsKeyed
  set-IsKeyed c doc keyed k b e = elim (Bool-cases (text_eq c.id k)) [
    | inl t ↦
        let same : c ≡ b =
          json_inj (some_inj (rw t at (sym (laws.get_set c.id k (json c) doc) ∙ e))) in
        sym (ap (λ x. x.id) same) ∙ (text_eq_iff c.id k).0 t
    | inr f ↦ keyed k b (rw f at (sym (laws.get_set c.id k (json c) doc) ∙ e))
  ]

  pub put-IsKeyed : (c : MemoryChunk) (s : Store loro) → IsKeyed s.doc → IsKeyed (put loro c s).doc
  put-IsKeyed c s keyed = subst IsKeyed (sym (put-doc c s)) (set-IsKeyed c s.doc keyed)

  pub forget-IsKeyed :
      (now : ℕ) (id : Text) (s : Store loro) → IsKeyed s.doc → IsKeyed (forget loro now id s).doc
  unfolding tombstone_of
  forget-IsKeyed now id s keyed =
      subst IsKeyed (sym (forget-doc now id s)) (set-IsKeyed (tombstone_of id now) s.doc keyed)
