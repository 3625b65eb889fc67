-- ===== src/Epochs/Lookup.antt =====
-- `get` finds a chunk under an id if one of the open epochs has one.
use subspace_transceiver.Prelude.{
  ◌≡◌, refl, sym, ap, subst, ◌∙◌, inl, inr, List, [], ◌∷◌, some, some_inj, Bool-cases, Option-cases,
  Elem,
}
use subspace_transceiver.Prelude.Dict
use subspace_transceiver.Prelude.Sort.{Elem-sort_by}
use subspace_transceiver.Prelude.Text.{Text, text_eq, text_eq_iff}
use subspace_transceiver.Schema.{MemoryChunk}
use subspace_transceiver.Store.{Loro, IsLoro, Store, Read, read_failed, found}
use subspace_transceiver.Store
use subspace_transceiver.Epochs.{
  Calendar, Manager, read_or_null, ordered_epoch_ids, read_epoch, first_found, get,
}
use subspace_transceiver.Epochs.Copying.{Reads}

read_or_null-some : (r : Read) (c : MemoryChunk) → read_or_null r ≡ some c → r ≡ found (some c)
read_or_null-some read_failed c h = cc
read_or_null-some (found o) c h = ap found h

module _ {loro : Loro} (calendar : Calendar) where
  pub Elem-keys :
      (e : Text) (s : Store loro) (epochs : List (Text × Store loro))
      → Dict.get e epochs ≡ some s
      → Elem e (Dict.keys epochs)
  unfolding Dict.get
  Elem-keys e s [] h = cc
  Elem-keys e s ((k, t) ∷ epochs) h = elim (Bool-cases (text_eq k e)) [
    | inl same ↦ inl (sym ((text_eq_iff k e).0 same))
    | inr f ↦ inr (Elem-keys e s epochs (rw f at h))
  ]

  read_epoch-some :
      (id e : Text) (epochs : List (Text × Store loro)) (c : MemoryChunk)
      → read_epoch loro calendar id e epochs ≡ some c
      → (s : Store loro) × (Dict.get e epochs ≡ some s) × (Store.get loro id s ≡ found (some c))
  unfolding read_epoch
  read_epoch-some id e epochs c h = elim (Option-cases (Dict.get e epochs)) [
    | inl n ↦ absurd (cc (rw (n, read_epoch) at h))
    | inr (s, n) ↦ (s, n, read_or_null-some (Store.get loro id s) c (rw (n, read_epoch) at h))
  ]

  pub first_found-some :
      (id : Text) (es : List Text) (epochs : List (Text × Store loro)) (c : MemoryChunk)
      → first_found loro calendar id es epochs ≡ some c
      → (e : Text) × (s : Store loro) × (Dict.get e epochs ≡ some s)
        × (Store.get loro id s ≡ found (some c))
  unfolding first_found
  first_found-some id [] epochs c h = cc
  first_found-some id (e ∷ es) epochs c h =
      elim (Option-cases (read_epoch loro calendar id e epochs)) [
        | inl n ↦ first_found-some id es epochs c (rw (n, first_found) at h)
        | inr (b, n) ↦
            let same : b ≡ c = some_inj (rw (n, first_found) at h) in
            let (s, h, r) = read_epoch-some id e epochs c (n ∙ ap some same) in (e, s, h, r)
      ]

  some-first_found :
      (id e : Text) (es : List Text) (epochs : List (Text × Store loro)) (s : Store loro)
      → Elem e es
      → Dict.get e epochs ≡ some s
      → Reads id s
      → (c : MemoryChunk) × (first_found loro calendar id es epochs ≡ some c)
  unfolding first_found
  some-first_found id e [] epochs s m h r = absurd m
  some-first_found id e (j ∷ es) epochs s m h (c, r) =
      elim (Option-cases (read_epoch loro calendar id j epochs)) [
        | inr (b, n) ↦ (b, rw (n, first_found) refl)
        | inl n ↦ elim m [
          | inl same ↦ absurd (
              cc (
                sym n
                ∙ read_epoch-found id j epochs s c (subst (λ k. Dict.get k epochs ≡ some s) same h)
                    r))
          | inr m ↦
              let (b, rest) = some-first_found id e es epochs s m h (c, r) in
              (b, rw (n, first_found) rest)
        ]
      ]
    where
      read_epoch-found :
          (id e : Text) (epochs : List (Text × Store loro)) (s : Store loro) (c : MemoryChunk)
          → Dict.get e epochs ≡ some s
          → Store.get loro id s ≡ found (some c)
          → read_epoch loro calendar id e epochs ≡ some c
      read_epoch-found id e epochs s c h r = rw (h, read_epoch, r) refl

  -- A store that reads the id is all that `get` needs to find some chunk under it.
  pub get_found :
      (id e : Text) (m : Manager loro) (s : Store loro)
      → Dict.get e m.epochs ≡ some s
      → Reads id s
      → (c : MemoryChunk) × (get loro calendar id m ≡ some c)
  unfolding get ordered_epoch_ids
  get_found id e m s h r =
      some-first_found id e (ordered_epoch_ids loro calendar m) m.epochs s
        ((Elem-sort_by _ e (Dict.keys m.epochs)).1 (Elem-keys e s m.epochs h)) h r
