-- ===== src/Epochs/Collected.antt =====
-- What the scheduler of packages/daemon/src/gc-scheduler.ts leaves readable.
use subspace_transceiver.Prelude.{
  ℕ, ◌≡◌, ◌⊎◌, inl, inr, refl, sym, ap, subst, ◌∙◌, false, Bool-cases, List, [], ◌∷◌, ◌++◌, Option,
  none, some, Option-cases, some_inj, none-some, or_else, leb, Elem, arith,
}
use subspace_transceiver.Prelude.Dict
use subspace_transceiver.Prelude.Dict.{get-set}
use subspace_transceiver.Prelude.Sort.{sort_by}
use subspace_transceiver.Prelude.Text.{Text, text_eq, text_eq_iff}
use subspace_transceiver.Schema.{MemoryChunk}
use subspace_transceiver.Query.{is_expired}
use subspace_transceiver.Store.{Loro, IsLoro, Store, Read}
use subspace_transceiver.Store
use subspace_transceiver.Store.Gc.{is_garbage}
use subspace_transceiver.Store.Reads.{IsKeyed, get-forget, forget-IsKeyed}
use subspace_transceiver.Epochs.{
  Calendar, Manager, read_or_null, ordered_epoch_ids, read_epoch, first_found, find_epoch,
  or_current, get, list, forget, run_round,
}
use subspace_transceiver.Epochs.Rotation.{AllKeyed, run_round-get}
use subspace_transceiver.Epochs.Scheduler.{collect, gc_manager, collect_all, rotate_all, run_all}

module _ {loro : Loro} (laws : IsLoro loro) (calendar : Calendar) where
  pub keys-set_known :
      (e : Text) (s t : Store loro) (epochs : List (Text × Store loro))
      → Dict.get e epochs ≡ some s
      → Dict.keys (Dict.set e t epochs) ≡ Dict.keys epochs
  unfolding Dict.get Dict.set
  keys-set_known e s t [] h = cc h
  keys-set_known e s t ((k, u) ∷ epochs) h = elim (Bool-cases (text_eq k e)) [
    | inl same ↦ rw same refl
    | inr f ↦ rw f (ap (λ ks. k ∷ ks) (keys-set_known e s t epochs (rw f at h)))
  ]

  unfoldable pub reading : Text → Option (Store loro) → Option MemoryChunk
  reading j none = none
  reading j (some s) = read_or_null (Store.get loro j s)

  pub read_epoch-reading :
      (j k : Text) (epochs : List (Text × Store loro))
      → read_epoch loro calendar j k epochs ≡ reading j (Dict.get k epochs)
  unfolding reading read_epoch
  read_epoch-reading j k epochs = elim (Option-cases (Dict.get k epochs)) [
    | inl n ↦ rw (n, read_epoch) refl
    | inr (s, n) ↦ rw (n, read_epoch) refl
  ]

  reading-forget :
      (now : ℕ) (id j : Text) (s : Store loro)
      → text_eq id j ≡ false
      → reading j (some (Store.forget loro now id s)) ≡ reading j (some s)
  unfolding reading
  reading-forget now id j s apart =
      let read : Store.get loro j (Store.forget loro now id s) ≡ Store.get loro j s =
        get-forget laws now id j s ∙ ground (arith, apart) in
      ap read_or_null read

  -- What another id reads in one epoch.
  read_epoch-forget :
      (now : ℕ) (id j e k : Text) (s : Store loro) (epochs : List (Text × Store loro))
      → text_eq id j ≡ false
      → Dict.get e epochs ≡ some s
      → read_epoch loro calendar j k (Dict.set e (Store.forget loro now id s) epochs)
        ≡ read_epoch loro calendar j k epochs
  read_epoch-forget now id j e k s epochs apart h =
      let after = Dict.set e (Store.forget loro now id s) epochs in
      let stored = get-set e k (Store.forget loro now id s) epochs in
      read_epoch-reading j k after
      ∙ elim (Bool-cases (text_eq e k)) [
        | inl same ↦
            let at : Dict.get k epochs ≡ some s =
              subst (λ x. Dict.get x epochs ≡ some s) ((text_eq_iff e k).0 same) h in
            ap (reading j) (stored ∙ rw same refl)
            ∙ reading-forget now id j s apart
            ∙ ap (reading j) (sym at)
        | inr f ↦ ap (reading j) (stored ∙ rw f refl)
      ]
      ∙ sym (read_epoch-reading j k epochs)

  first_found-same :
      (j : Text) (es : List Text) (epochs later : List (Text × Store loro))
      → ((k : Text) → read_epoch loro calendar j k later ≡ read_epoch loro calendar j k epochs)
      → first_found loro calendar j es later ≡ first_found loro calendar j es epochs
  unfolding first_found
  first_found-same j [] epochs later same = refl
  first_found-same j (e ∷ es) epochs later same =
      elim (Option-cases (read_epoch loro calendar j e epochs)) [
        | inl n ↦ rw (first_found, n, same e ∙ n) (first_found-same j es epochs later same)
        | inr (c, n) ↦ rw (first_found, n, same e ∙ n) refl
      ]

  -- What a forget of an id leaves as it was, where it does not throw: it forgets in one open epoch.
  IsForgotten : ℕ → Text → Manager loro → Manager loro → Type 0
  IsForgotten now id m m' =
      (e : Text) × (s : Store loro) × (Dict.get e m.epochs ≡ some s)
      × (m'.epochs ≡ Dict.set e (Store.forget loro now id s) m.epochs)
      × (m'.current ≡ m.current)

  forget-cases :
      (now : ℕ) (id : Text) (m : Manager loro)
      → (or_else (forget loro calendar now id m) m ≡ m)
        ⊎ IsForgotten now id m (or_else (forget loro calendar now id m) m)
  unfolding IsForgotten forget
  forget-cases now id m =
      let epoch =
        or_current loro calendar
          (find_epoch loro calendar id (ordered_epoch_ids loro calendar m) m.epochs) m.current in
      elim (Option-cases (Dict.get epoch m.epochs)) [
        | inl n ↦ inl (rw (forget, n) refl)
        | inr (s, n) ↦ inr (rw (forget, n) (epoch, s, n, refl, refl))
      ]

  pub forget-get :
      (now : ℕ) (id j : Text) (m : Manager loro)
      → text_eq id j ≡ false
      → get loro calendar j (or_else (forget loro calendar now id m) m) ≡ get loro calendar j m
  unfolding get ordered_epoch_ids IsForgotten
  forget-get now id j m apart = elim (forget-cases now id m) [
    | inl same ↦ ap (get loro calendar j) same
    | inr (e, s, at, epochs, current) ↦
        let later = Dict.set e (Store.forget loro now id s) m.epochs in
        let order : List Text → List Text =
          sort_by (λ a b. leb (calendar.start_of b) (calendar.start_of a)) in
        ap (λ x. first_found loro calendar j (order (Dict.keys x)) x) epochs
        ∙ ap (λ ks. first_found loro calendar j (order ks) later)
            (keys-set_known e s (Store.forget loro now id s) m.epochs at)
        ∙ first_found-same j (order (Dict.keys m.epochs)) m.epochs later
            (λ k. read_epoch-forget now id j e k s m.epochs apart at)
  ]

  -- What a round of the rotation needs of a manager.
  record IsReady (now : ℕ) (m : Manager loro) : Type 0 where
    keyed : AllKeyed laws calendar m
    ready : (calendar.id_at now ≡ m.current) ⊎ (Dict.get (calendar.id_at now) m.epochs ≡ none)

  forget-IsReady :
      (at now : ℕ) (id : Text) (m : Manager loro)
      → IsReady now m
      → IsReady now (or_else (forget loro calendar at id m) m)
  unfolding IsForgotten
  forget-IsReady at now id m h = elim (forget-cases at id m) [
    | inl same ↦ subst (IsReady now) (sym same) h
    | inr (e, s, found, epochs, current) ↦ record {
      keyed = λ k t r.
          let stored = get-set e k (Store.forget loro at id s) m.epochs in
          let r' = ap (Dict.get k) (sym epochs) ∙ r in
          elim (Bool-cases (text_eq e k)) [
            | inl same ↦
                let e' : some (Store.forget loro at id s) ≡ some t =
                  sym (stored ∙ rw same refl) ∙ r' in
                subst (λ x. IsKeyed laws x.doc) (some_inj e')
                  (forget-IsKeyed laws at id s (h.keyed e s found))
            | inr f ↦
                let e' : Dict.get k m.epochs ≡ some t = sym (stored ∙ rw f refl) ∙ r' in
                h.keyed k t e'
          ];
      ready = elim h.ready [
        | inl same ↦ inl (same ∙ sym current)
        | inr absent ↦
            let new = calendar.id_at now in
            let stored = get-set e new (Store.forget loro at id s) m.epochs in
            elim (Bool-cases (text_eq e new)) [
              | inl same ↦
                  let there =
                    subst (λ x. Dict.get x m.epochs ≡ some s) ((text_eq_iff e new).0 same) found in
                  absurd (none-some (sym absent ∙ there))
              | inr f ↦ inr (ap (Dict.get new) epochs ∙ stored ∙ rw f absent)
            ]
      ];
    }
  ]

  -- A collection of chunks, none of which that is garbage has the id.
  collect-get :
      (at now : ℕ) (id : Text) (cs : List MemoryChunk) (m : Manager loro)
      → ((b : MemoryChunk) → Elem b cs → b.id ≡ id → is_garbage at b ≡ false)
      → IsReady now m
      → IsReady now (collect loro calendar at cs m)
        × (get loro calendar id (collect loro calendar at cs m) ≡ get loro calendar id m)
  unfolding collect
  collect-get at now id [] m clean h = (h, refl)
  collect-get at now id (c ∷ cs) m clean h =
      let rest = λ (b : MemoryChunk) (k : Elem b cs). clean b (inr k) in
      elim (Bool-cases (is_garbage at c)) [
        | inl t ↦
            let apart : text_eq c.id id ≡ false = elim (Bool-cases (text_eq c.id id)) [
              | inl same ↦ cc (t, clean c (inl refl) ((text_eq_iff c.id id).0 same))
              | inr f ↦ f
            ] in
            let after = or_else (forget loro calendar at c.id m) m in
            let (ready, same) =
              collect-get at now id cs after rest (forget-IsReady at now c.id m h) in
            rw (t, collect) (ready, same ∙ forget-get at c.id id m apart)
        | inr f ↦ rw (f, collect) (collect-get at now id cs m rest h)
      ]

  -- A round of the whole scheduler loses nothing, at each of its managers: where every chunk stands under its
  -- own id, and the epoch of the time is the current one or not open yet, `get` finds some chunk after the
  -- collection and the rotation under the id of each chunk that it found before and that has not expired,
  -- if no chunk that `list` returns under this id has expired when the collection reads the clock.
  pub run_all-get :
      (now at : ℕ) (before after : List (ℕ × Manager loro)) (m : Manager loro) (c : MemoryChunk)
      → AllKeyed laws calendar m
      → (calendar.id_at now ≡ m.current) ⊎ (Dict.get (calendar.id_at now) m.epochs ≡ none)
      → get loro calendar c.id m ≡ some c
      → is_expired now c ≡ false
      → ((b : MemoryChunk) → Elem b (list loro calendar m) → b.id ≡ c.id → is_garbage at b ≡ false)
      → (m' : Manager loro) × (b : MemoryChunk) × (run_all loro calendar now
            (before ++ (at, m) ∷ after)
          ≡ run_all loro calendar now before ++ m' ∷ run_all loro calendar now after)
        × (get loro calendar c.id m' ≡ some b)
  unfolding run_all rotate_all collect_all gc_manager
  run_all-get now at [] after m c keyed ready found fresh clean =
      let (h, same) =
        collect-get at now c.id (list loro calendar m) m clean
          (record { keyed = keyed; ready = ready }) in
      let collected = collect loro calendar at (list loro calendar m) m in
      let (b, e) =
        run_round-get laws calendar now collected c h.keyed h.ready (same ∙ found) fresh in
      (run_round loro calendar now collected, b, refl, e)
  run_all-get now at ((t, n) ∷ before) after m c keyed ready found fresh clean =
      let (m', b, e, g) = run_all-get now at before after m c keyed ready found fresh clean in
      (m', b, ap (λ ms. run_round loro calendar now (gc_manager loro calendar t n) ∷ ms) e, g)
