-- ===== src/Store/Saving.antt =====
-- The deferred saves of a store on file, and what a restart reads.
use subspace_transceiver.Prelude.{
  ℕ, ◌≡◌, refl, sym, ap, subst, ◌∙◌, inl, inr, ◌⊎◌, Bool, true, false, ◌&&◌, List, [], ◌∷◌, Option,
  some, arith, Bool-cases, Option-cases, if◌then◌else◌,
}
use subspace_transceiver.Prelude.Text.{Text}
use subspace_transceiver.Schema.{MemoryChunk}
use subspace_transceiver.Store.{
  json, Loro, IsLoro, Store, Event, read_raw, loaded_doc, create_persistent, schedule_save,
  save_snapshot, run_save, put, get, forget, close, import_delta, tombstone_of,
}

-- What may happen to an open store: its writes, and the callback of `setImmediate`.
pub data Step (loro : Loro) : Type 0 where
  putting : MemoryChunk → Step loro
  forgetting : ℕ → Text → Step loro
  importing : loro.Bytes → Step loro
  saving timer : Step loro

module _ (loro : Loro) where
  unfoldable pub step : Step loro → Store loro → Store loro
  step (putting c) s = put loro c s
  step (forgetting now id) s = forget loro now id s
  step (importing bytes) s = import_delta loro bytes s
  step saving s = save_snapshot loro s
  step timer s = run_save loro s

  unfoldable pub run : List (Step loro) → Store loro → Store loro
  unfolding step
  run [] s = s
  run (x ∷ xs) s = run xs (step x s)

module _ {loro : Loro} (laws : IsLoro loro) where
  -- A store opened on the file reads as the document does.
  IsWritten : Store loro → Type 0
  IsWritten s = (k : Text) → loro.get k (loaded_doc loro s.file) ≡ loro.get k s.doc

  -- The store is on file, and what is not written yet is scheduled to be.
  record IsSafe (s : Store loro) : Type 0 where
    on_file : s.persistent ≡ true
    written : (s.save_pending ≡ true) ⊎ IsWritten s

  snapshot_read :
      (k : Text) (doc : loro.Doc)
      → loro.get k (loaded_doc loro (some (loro.snapshot doc))) ≡ loro.get k doc
  unfolding loaded_doc
  snapshot_read k doc =
      let (copy, e, same) = laws.import_snapshot doc in rw (laws.snapshot_filled doc, e) (same k)

  save_snapshot_on :
      (s : Store loro)
      → s.persistent ≡ true
      → save_snapshot loro s ≡ record s { file = some (loro.snapshot s.doc) }
  unfolding save_snapshot
  save_snapshot_on s h =
      ap (λ (b : Bool). if b then record s { file = some (loro.snapshot s.doc) } else s) h

  save_snapshot-IsSafe : (s : Store loro) → s.persistent ≡ true → IsSafe (save_snapshot loro s)
  unfolding IsWritten
  save_snapshot-IsSafe s h =
      subst IsSafe (sym (save_snapshot_on s h))
        (record { on_file = h; written = inr (λ k. snapshot_read k s.doc) })

  schedule_save-IsSafe : (s : Store loro) → s.persistent ≡ true → IsSafe (schedule_save loro s)
  unfolding schedule_save
  schedule_save-IsSafe s h = record { on_file = ground arith; written = inl (ground arith) }

  emitted :
      (s : Store loro) (events : List Event) → IsSafe s → IsSafe (record s { events = events })
  unfolding IsWritten
  emitted s events h = record { on_file = h.on_file; written = h.written }

  step-IsSafe : (x : Step loro) (s : Store loro) → IsSafe s → IsSafe (step loro x s)
  unfolding step put forget import_delta run_save
  step-IsSafe (putting c) s h =
      emitted _ _ (schedule_save-IsSafe (record s { doc = loro.set c.id (json c) s.doc }) h.on_file)
  step-IsSafe (forgetting now id) s h = emitted _ _ (
      schedule_save-IsSafe (record s { doc = loro.set id (json (tombstone_of id now)) s.doc })
        h.on_file)
  step-IsSafe (importing bytes) s h = elim (Option-cases (loro.import_bytes bytes s.doc)) [
    | inl e ↦ rw (e, import_delta) (emitted s _ h)
    | inr (doc, e) ↦
        rw (e, import_delta) (emitted _ _ (schedule_save-IsSafe (record s { doc = doc }) h.on_file))
  ]
  step-IsSafe saving s h = save_snapshot-IsSafe s h.on_file
  step-IsSafe timer s h = save_snapshot-IsSafe (record s { save_pending = false }) h.on_file

  run-IsSafe : (xs : List (Step loro)) (s : Store loro) → IsSafe s → IsSafe (run loro xs s)
  unfolding run
  run-IsSafe [] s h = h
  run-IsSafe (x ∷ xs) s h = run-IsSafe xs (step loro x s) (step-IsSafe x s h)

  created-IsSafe : (file : Option (loro.Bytes)) → IsSafe (create_persistent loro file)
  unfolding create_persistent IsWritten
  created-IsSafe file = record { on_file = refl; written = inr (λ k. refl) }

  close_by :
      (b : Bool) (s : Store loro)
      → s.save_pending && s.persistent ≡ b
      → close loro s ≡ (if b then save_snapshot loro (record s { save_pending = false }) else s)
  unfolding close
  close_by b s h =
      ap (λ (c : Bool). if c then save_snapshot loro (record s { save_pending = false }) else s) h

  close-reads :
      (k : Text) (s : Store loro)
      → IsSafe s
      → loro.get k (loaded_doc loro (close loro s).file) ≡ loro.get k s.doc
  unfolding IsWritten
  close-reads k s h = elim (Bool-cases s.save_pending) [
    | inl t ↦
        ap (λ z. loro.get k (loaded_doc loro z.file))
          (close_by true s (ground (arith, h.on_file))
            ∙ save_snapshot_on (record s { save_pending = false }) h.on_file)
        ∙ snapshot_read k s.doc
    | inr f ↦
        ap (λ z. loro.get k (loaded_doc loro z.file)) (close_by false s (ground arith))
        ∙ elim h.written [ inl t ↦ absurd (cc (sym t ∙ f)) | inr w ↦ w k ]
  ]

  -- A store opened on a file, after any writes, imports and saves in any order and with its timers run
  -- or not, closes so that a store opened on the file reads under every id what it read.
  pub close-create_persistent :
      (file : Option (loro.Bytes)) (xs : List (Step loro)) (id : Text)
      → (let s = run loro xs (create_persistent loro file) in
          get loro id (create_persistent loro ((close loro s).file)) ≡ get loro id s)
  unfolding get create_persistent
  close-create_persistent file xs id = ap read_raw (
      close-reads id (run loro xs (create_persistent loro file))
        (run-IsSafe xs (create_persistent loro file) (created-IsSafe file)))
