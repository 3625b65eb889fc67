-- ===== src/Epochs/Rotation.antt =====
-- That a rotation, and the dropping of the past epochs after it, loses no chunk.
use subspace_transceiver.Prelude.{
  ℕ, ◌≡◌, refl, sym, ap, ◌∙◌, ◌⊎◌, inl, inr, true, false, ◌||◌, List, none, some, arith, Bool-cases,
}
use subspace_transceiver.Prelude.Dict
use subspace_transceiver.Prelude.Text.{Text, text_eq, text_eq_iff, text_eq_refl}
use subspace_transceiver.Schema.{MemoryChunk}
use subspace_transceiver.Query.{is_expired}
use subspace_transceiver.Store.{Loro, IsLoro, Store, Read, read_failed, found}
use subspace_transceiver.Store
use subspace_transceiver.Store.Reads.{IsKeyed, list-get}
use subspace_transceiver.Epochs.{
  Calendar, Manager, open_epoch_store, ordered_epoch_ids, get, is_past, migrate_past, rotate_epoch,
  maybe_rotate_epoch, run_round, drop_expired_epochs,
}
use subspace_transceiver.Epochs.Retention.{is_dropped, get-drop_expired_epochs}
use subspace_transceiver.Epochs.Copying.{Reads, migrate_past-Reads_new}
use subspace_transceiver.Epochs.Lookup.{Elem-keys, first_found-some, get_found}

module _ {loro : Loro} (laws : IsLoro loro) (calendar : Calendar) where
  -- Every chunk of an epoch stands under its own id.
  abbrev pub AllKeyed : Manager loro → Type 0
  AllKeyed m = (e : Text) (s : Store loro) → Dict.get e m.epochs ≡ some s → IsKeyed laws s.doc

  other_epoch :
      (new e : Text) (s : Store loro) (epochs : List (Text × Store loro))
      → Dict.get new epochs ≡ none
      → Dict.get e epochs ≡ some s
      → text_eq new e ≡ false
  other_epoch new e s epochs absent h = elim (Bool-cases (text_eq new e)) [
    | inl t ↦ absurd (cc (sym absent ∙ ap (λ k. Dict.get k epochs) ((text_eq_iff new e).0 t) ∙ h))
    | inr f ↦ f
  ]

  -- A rotation reads the fresh chunks of the past epochs from the new one.
  rotate_epoch-Reads :
      (now : ℕ) (new : Text) (m : Manager loro) (e : Text) (s : Store loro) (c : MemoryChunk)
      → AllKeyed m
      → Dict.get new m.epochs ≡ none
      → Dict.get e m.epochs ≡ some s
      → Store.get loro c.id s ≡ found (some c)
      → is_expired now c ≡ false
      → is_past loro calendar now m.retain e ≡ true
      → (t : Store loro) × (Dict.get new (rotate_epoch loro calendar new now m).epochs ≡ some t)
        × Reads c.id t
  unfolding rotate_epoch
  rotate_epoch-Reads now new m e s c keyed absent h r fresh past =
      let opened = open_epoch_store loro calendar new m in
      let epochs = Dict.set new opened m.epochs in
      let apart = other_epoch new e s m.epochs absent h in
      let h' : Dict.get e epochs ≡ some s = Dict.get-set new e opened m.epochs ∙ rw apart h in
      (
        migrate_past loro calendar now m.retain new (Dict.keys epochs) epochs opened,
        Dict.get-set_self new _ epochs,
        migrate_past-Reads_new laws calendar now m.retain new e (Dict.keys epochs) epochs c s opened
            (Elem-keys calendar e s epochs h')
            (ground (arith, past, apart, text_eq_iff new e, text_eq_iff e new)) h'
            ((list-get laws c s (keyed e s h)).1 r) fresh,
      )

  -- A rotation leaves the other epochs.
  rotate_epoch-other :
      (now : ℕ) (new : Text) (m : Manager loro) (e : Text) (s : Store loro)
      → Dict.get new m.epochs ≡ none
      → Dict.get e m.epochs ≡ some s
      → Dict.get e (rotate_epoch loro calendar new now m).epochs ≡ some s
  unfolding rotate_epoch
  rotate_epoch-other now new m e s absent h =
      let opened = open_epoch_store loro calendar new m in
      let epochs = Dict.set new opened m.epochs in
      let apart = other_epoch new e s m.epochs absent h in
      Dict.get-set new e _ epochs ∙ rw apart (Dict.get-set new e opened m.epochs ∙ rw apart h)

  -- The dropping that follows keeps the new epoch and the epochs that are not past.
  kept_epoch :
      (now : ℕ) (e : Text) (t : Store loro) (m : Manager loro)
      → is_dropped calendar now m e ≡ false
      → Dict.get e m.epochs ≡ some t
      → Dict.get e (((drop_expired_epochs loro calendar now m).0).epochs) ≡ some t
  kept_epoch now e t m kept h = get-drop_expired_epochs calendar now e m ∙ rw kept h

  new_kept :
      (now : ℕ) (new : Text) (m : Manager loro)
      → is_dropped calendar now (rotate_epoch loro calendar new now m) new ≡ false
  unfolding rotate_epoch
  new_kept now new m = rw (text_eq_refl new) refl

  present_kept :
      (now : ℕ) (new e : Text) (m : Manager loro)
      → is_past loro calendar now m.retain e ≡ false
      → is_dropped calendar now (rotate_epoch loro calendar new now m) e ≡ false
  unfolding rotate_epoch
  present_kept now new e m present = ground (arith, present)

  -- A rotation and the dropping that follows.
  rotate-drop-get :
      (now : ℕ) (m : Manager loro) (c : MemoryChunk)
      → AllKeyed m
      → Dict.get (calendar.id_at now) m.epochs ≡ none
      → get loro calendar c.id m ≡ some c
      → is_expired now c ≡ false
      → (b : MemoryChunk) × (get loro calendar c.id (
            (drop_expired_epochs loro calendar now
              (rotate_epoch loro calendar (calendar.id_at now) now m)).0)
          ≡ some b)
  unfolding get
  rotate-drop-get now m c keyed absent h fresh =
      let new = calendar.id_at now in
      let rotated_m = rotate_epoch loro calendar new now m in
      let after = (drop_expired_epochs loro calendar now rotated_m).0 in
      let (e, s, at_e, r) =
        first_found-some calendar c.id (ordered_epoch_ids loro calendar m) m.epochs c h in
      elim (Bool-cases (is_past loro calendar now m.retain e)) [
        | inl past ↦
            let (t, at_new, read) =
              rotate_epoch-Reads now new m e s c keyed absent at_e r fresh past in
            get_found calendar c.id new after t
              (kept_epoch now new t rotated_m (new_kept now new m) at_new) read
        | inr present ↦
            get_found calendar c.id e after s
              (kept_epoch now e s rotated_m (present_kept now new e m present)
                (rotate_epoch-other now new m e s absent at_e))
              (c, r)
      ]

  -- A round of the scheduler loses nothing: where every chunk stands under its own id, and the epoch of
  -- the time is the current one or not open yet, `get` finds some chunk after the round under the id of
  -- each chunk that it found before and that has not expired.
  pub run_round-get :
      (now : ℕ) (m : Manager loro) (c : MemoryChunk)
      → AllKeyed m
      → (calendar.id_at now ≡ m.current) ⊎ (Dict.get (calendar.id_at now) m.epochs ≡ none)
      → get loro calendar c.id m ≡ some c
      → is_expired now c ≡ false
      → (b : MemoryChunk) × (get loro calendar c.id (run_round loro calendar now m) ≡ some b)
  unfolding run_round maybe_rotate_epoch
  run_round-get now m c keyed ready h fresh =
      elim (Bool-cases (text_eq (calendar.id_at now) m.current || m.migrating)) [
        | inl t ↦ rw t (c, h)
        | inr f ↦
            let absent : Dict.get (calendar.id_at now) m.epochs ≡ none = elim ready [
              | inl same ↦
                  absurd (ground (arith, (text_eq_iff (calendar.id_at now) m.current).1 same, f))
              | inr a ↦ a
            ] in
            rw f (rotate-drop-get now m c keyed absent h fresh)
      ]
