-- ===== src/Writes/EpochStores.antt =====
-- LoroEpochManager of packages/core/src/loro-epoch-manager.ts as a store of the routes, which is what the
-- sessions hold.
use subspace_transceiver.Prelude.{
  none-some, ℕ, ◌≡◌, refl, ap, ◌∙◌, sym, subst, none, some, some_inj, or_else, Option-cases, false,
  Bool-cases, inl, inr, ◌⊎◌, if◌then◌else◌, List, [], ◌∷◌, Elem, leb, arith,
}
use subspace_transceiver.Prelude.Dict
use subspace_transceiver.Prelude.Dict.{get-set, get-set_self}
use subspace_transceiver.Prelude.Sort.{sort_by}
use subspace_transceiver.Prelude.Text.{Text, text_eq, text_eq_iff, text_eq_refl}
use subspace_transceiver.Schema.{MemoryChunk}
use subspace_transceiver.Store.{Loro, IsLoro, Store, found}
use subspace_transceiver.Store
use subspace_transceiver.Store.Reads.{get-put, get-forget}
use subspace_transceiver.Epochs.{
  Calendar, Manager, read_or_null, ordered_epoch_ids, read_epoch, first_found, find_epoch,
  or_current, current_store, get, put, forget, emit_changed,
}
use subspace_transceiver.Epochs.Lookup.{first_found-some}
use subspace_transceiver.Epochs.Collected.{keys-set_known, reading, read_epoch-reading, forget-get}
use subspace_transceiver.Writes.{MemoryStore}
use subspace_transceiver.Writes.Stores.{IsMemoryStore, caught, caught-alive}

-- A `forget` throws only where no epoch is open; then it changes nothing.
unfoldable pub epoch_memory_store : (loro : Loro) → Calendar → MemoryStore
epoch_memory_store loro calendar = record {
  State = Manager loro;
  put = put loro calendar;
  get = get loro calendar;
  forget = λ now id m. or_else (forget loro calendar now id m) m;
}

module _ {loro : Loro} (laws : IsLoro loro) (calendar : Calendar) where
  -- The current epoch is the first one that a read looks at.
  abbrev pub IsCurrentFirst : Manager loro → Type 0
  IsCurrentFirst m = (older : List Text) × (ordered_epoch_ids loro calendar m ≡ m.current ∷ older)

  -- Two epochs that read the id are one.
  abbrev pub IsSingle : Text → Manager loro → Type 0
  IsSingle id m =
      (a b : Text) (c d : MemoryChunk)
      → read_epoch loro calendar id a m.epochs ≡ some c
      → read_epoch loro calendar id b m.epochs ≡ some d
      → a ≡ b

  abbrev latest_first : List Text → List Text
  latest_first = sort_by (λ a b. leb (calendar.start_of b) (calendar.start_of a))

  stored :
      (c : MemoryChunk) (s : Store loro)
      → c.tombstone ≡ false
      → reading laws calendar c.id (some (Store.put loro c s)) ≡ some c
  unfolding reading
  stored c s alive =
      let read : Store.get loro c.id (Store.put loro c s) ≡ found (some c) =
        (get-put laws c 0 c.id c.id s).0 ∙ ground (arith, text_eq_refl c.id, alive) in
      ap read_or_null read

  pub get-put_first :
      (c : MemoryChunk) (m m' : Manager loro)
      → IsCurrentFirst m
      → put loro calendar c m ≡ some m'
      → c.tombstone ≡ false
      → get loro calendar c.id m' ≡ some c
  unfolding put current_store get ordered_epoch_ids first_found
  get-put_first c m m' (older, first) h alive = elim (Option-cases (Dict.get m.current m.epochs)) [
    | inl n ↦ absurd (none-some (rw (n, put, current_store) at h))
    | inr (s, n) ↦
        let t = Store.put loro c s in
        let later = Dict.set m.current t m.epochs in
        let same = some_inj (rw (n, put, current_store) at h) in
        let ids : latest_first (Dict.keys later) ≡ m.current ∷ older =
          ap latest_first (keys-set_known laws calendar m.current s t m.epochs n) ∙ first in
        let read : read_epoch loro calendar c.id m.current later ≡ some c =
          read_epoch-reading laws calendar c.id m.current later
          ∙ ap (reading laws calendar c.id) (get-set_self m.current t m.epochs)
          ∙ stored c s alive in
        ap (get loro calendar c.id) (sym same)
        ∙ ap (λ ks. first_found loro calendar c.id ks later) ids
        ∙ rw (first_found, read) refl
  ]

  pub get-alive :
      (j : Text) (c : MemoryChunk) (m : Manager loro)
      → get loro calendar j m ≡ some c
      → c.tombstone ≡ false
  unfolding get caught Store.get
  get-alive j c m h =
      let (e, s, at, r) =
        first_found-some calendar j (ordered_epoch_ids loro calendar m) m.epochs c h in
      caught-alive (loro.get j s.doc) c (ap caught r)

  first_found-none :
      (j : Text) (es : List Text) (epochs : List (Text × Store loro))
      → ((k : Text) → Elem k es → read_epoch loro calendar j k epochs ≡ none)
      → first_found loro calendar j es epochs ≡ none
  unfolding first_found
  first_found-none j [] epochs h = refl
  first_found-none j (e ∷ es) epochs h =
      rw (first_found, h e (inl refl)) (first_found-none j es epochs (λ k m. h k (inr m)))

  -- What `find_epoch` finds.
  find_epoch-cases :
      (j : Text) (es : List Text) (epochs : List (Text × Store loro))
      → ((find_epoch loro calendar j es epochs ≡ none)
          × ((k : Text) → Elem k es → read_epoch loro calendar j k epochs ≡ none))
        ⊎ ((e : Text) × (c : MemoryChunk) × (find_epoch loro calendar j es epochs ≡ some e)
            × (read_epoch loro calendar j e epochs ≡ some c))
  unfolding find_epoch
  find_epoch-cases j [] epochs = inl (refl, λ k m. absurd m)
  find_epoch-cases j (e ∷ es) epochs = elim (Option-cases (read_epoch loro calendar j e epochs)) [
    | inr (c, n) ↦ inr (e, c, rw (find_epoch, n) refl, n)
    | inl n ↦ elim (find_epoch-cases j es epochs) [
      | inr (k, c, f, r) ↦ inr (k, c, rw (find_epoch, n) f, r)
      | inl (f, none_of) ↦ inl (
        rw (find_epoch, n) f,
        λ k m. elim m [
          | inl same ↦ ap (λ x. read_epoch loro calendar j x epochs) same ∙ n
          | inr at ↦ none_of k at
        ],
      )
    ]
  ]

  -- The forgotten id in the epoch in which it was forgotten, and in the others.
  read_epoch-forgotten :
      (now : ℕ) (id e k : Text) (s : Store loro) (epochs : List (Text × Store loro))
      → read_epoch loro calendar id k (Dict.set e (Store.forget loro now id s) epochs)
        ≡ (if text_eq e k then none else read_epoch loro calendar id k epochs)
  unfolding reading
  read_epoch-forgotten now id e k s epochs =
      let t = Store.forget loro now id s in
      let gone : Store.get loro id t ≡ found none =
        get-forget laws now id id s ∙ ground (arith, text_eq_refl id) in
      read_epoch-reading laws calendar id k (Dict.set e t epochs)
      ∙ ap (reading laws calendar id) (get-set e k t epochs)
      ∙ elim (Bool-cases (text_eq e k)) [
        | inl y ↦ rw y (ap read_or_null gone)
        | inr f ↦ rw f (sym (read_epoch-reading laws calendar id k epochs))
      ]

  -- A manager without the id, once it is forgotten in an epoch beside which none has it.
  get-forgotten :
      (now : ℕ) (id e : Text) (s : Store loro) (m m' : Manager loro)
      → Dict.get e m.epochs ≡ some s
      → m'.epochs ≡ Dict.set e (Store.forget loro now id s) m.epochs
      → ((k : Text)
          → Elem k (ordered_epoch_ids loro calendar m)
          → text_eq e k ≡ false
          → read_epoch loro calendar id k m.epochs ≡ none)
      → get loro calendar id m' ≡ none
  unfolding get ordered_epoch_ids
  get-forgotten now id e s m m' at epochs apart =
      let later = Dict.set e (Store.forget loro now id s) m.epochs in
      ap (λ x. first_found loro calendar id (latest_first (Dict.keys x)) x) epochs
      ∙ ap (λ ks. first_found loro calendar id (latest_first ks) later)
          (keys-set_known laws calendar e s (Store.forget loro now id s) m.epochs at)
      ∙ first_found-none id (latest_first (Dict.keys m.epochs)) later (λ k n.
        read_epoch-forgotten now id e k s m.epochs
        ∙ elim (Bool-cases (text_eq e k)) [ inl y ↦ rw y refl | inr f ↦ rw f (apart k n f) ])

  forgets_in :
      (now : ℕ) (id e : Text) (s : Store loro) (m : Manager loro)
      → or_current loro calendar
          (find_epoch loro calendar id (ordered_epoch_ids loro calendar m) m.epochs)
          m.current
        ≡ e
      → Dict.get e m.epochs ≡ some s
      → (m' : Manager loro) × (or_else (forget loro calendar now id m) m ≡ m')
        × (m'.epochs ≡ Dict.set e (Store.forget loro now id s) m.epochs)
  unfolding forget
  forgets_in now id e s m f n =
      let epoch =
        or_current loro calendar
          (find_epoch loro calendar id (ordered_epoch_ids loro calendar m) m.epochs) m.current in
      let t = Store.forget loro now id s in
      let at : Dict.get epoch m.epochs ≡ some s =
        subst (λ x. Dict.get x m.epochs ≡ some s) (sym f) n in
      (
        emit_changed loro calendar (record m { epochs = Dict.set epoch t m.epochs }),
        rw (forget, at) refl,
        ap (λ x. Dict.set x t m.epochs) f,
      )

  pub get-forget_single :
      (now : ℕ) (id : Text) (m : Manager loro)
      → IsSingle id m
      → get loro calendar id (or_else (forget loro calendar now id m) m) ≡ none
  unfolding get ordered_epoch_ids forget reading
  get-forget_single now id m single =
      let ids = ordered_epoch_ids loro calendar m in
      elim (find_epoch-cases id ids m.epochs) [
        | inl (f, none_of) ↦ elim (Option-cases (Dict.get m.current m.epochs)) [
          | inl n ↦
              let same : or_else (forget loro calendar now id m) m ≡ m = rw (forget, f, n) refl in
              ap (get loro calendar id) same ∙ first_found-none id ids m.epochs none_of
          | inr (s, n) ↦
              let (m', same, epochs) =
                forgets_in now id m.current s m (ap (λ o. or_current loro calendar o m.current) f)
                  n in
              ap (get loro calendar id) same
              ∙ get-forgotten now id m.current s m m' n epochs (λ k at g. none_of k at)
        ]
        | inr (e, c, f, r) ↦ elim (Option-cases (Dict.get e m.epochs)) [
          | inl n ↦ absurd (
              none-some (
                sym
                  (read_epoch-reading laws calendar id e m.epochs ∙ ap (reading laws calendar id) n)
                ∙ r))
          | inr (s, n) ↦
              let (m', same, epochs) =
                forgets_in now id e s m (ap (λ o. or_current loro calendar o m.current) f) n in
              ap (get loro calendar id) same
              ∙ get-forgotten now id e s m m' n epochs (λ k at g.
                elim (Option-cases (read_epoch loro calendar id k m.epochs)) [
                  | inl absent ↦ absent
                  | inr (d, q) ↦ cc (g, (text_eq_iff e k).1 (single e k c d r q))
                ])
        ]
      ]

  -- What the routes rely on, of a manager: the current epoch is the first that a read looks at, and no
  -- second epoch has the id.
  unfoldable pub epoch_memory_laws : IsMemoryStore (epoch_memory_store loro calendar)
  unfolding epoch_memory_store
  epoch_memory_laws = record {
    IsReady = IsCurrentFirst;
    IsSingle = IsSingle;
    get_put = get-put_first;
    get_alive = get-alive;
    get_forget = get-forget_single;
    get_forget_other = λ now id j m apart. forget-get laws calendar now id j m apart;
  }

  -- A manager with one open epoch holds no second copy.
  pub one_epoch-IsSingle :
      (id e : Text) (s : Store loro) (m : Manager loro) → m.epochs ≡ (e, s) ∷ [] → IsSingle id m
  unfolding Dict.get reading
  one_epoch-IsSingle id e s m one a b c d p q = sym (only a c p) ∙ only b d q
    where
      only : (k : Text) (c : MemoryChunk) → read_epoch loro calendar id k m.epochs ≡ some c → e ≡ k
      only k c h = elim (Bool-cases (text_eq e k)) [
        | inl y ↦ (text_eq_iff e k).0 y
        | inr f ↦
            let none_here : read_epoch loro calendar id k m.epochs ≡ none =
              read_epoch-reading laws calendar id k m.epochs
              ∙ ap (λ x. reading laws calendar id (Dict.get k x)) one
              ∙ rw f refl in
            absurd (none-some (sym none_here ∙ h))
      ]
