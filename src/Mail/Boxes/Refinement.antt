-- ===== src/Mail/Boxes/Refinement.antt =====
-- A store on file, restarted at will, against the store in memory.
use subspace_transceiver.Prelude.{
  ℕ, ◌≡◌, refl, sym, ap, ◌∙◌, subst, true, false, List, [], ◌∷◌, none, length, arith, Option-cases,
  inl, inr, ◌⊎◌,
}
use subspace_transceiver.Prelude.Dict
use subspace_transceiver.Prelude.Text.{Text}
use subspace_transceiver.Mail.Boxes.{
  put, newest_first, delete_message, update_message, FileBox, new_file_box, content, load, persist,
  save_file, list_file, get_file, delete_file, count_file, update_file,
}
use subspace_transceiver.Mail.Boxes.Restart.{
  IsKeyed, put_all-read, set-IsKeyed, delete-IsKeyed, IsKeyed-get,
}

-- A call of a store, or a restart of the process. `S` are the statuses.
pub data Op (M S : Type 0) : Type 0 where
  saved : M → Op M S
  deleted : Text → Op M S
  updated : S → Text → Op M S
  listed : Op M S
  asked : Text → Op M S
  counted : Op M S
  restarted : Op M S

module _ {M S : Type 0} (id_of : M → Text) (time_of : M → ℕ) (change : S → M → M)
    (same_id : (s : S) (m : M) → id_of (change s m) ≡ id_of m) where
  abbrev pub memory_step : List (Text × M) → Op M S → List (Text × M)
  memory_step ms (saved m) = put id_of time_of m ms
  memory_step ms (deleted id) = (delete_message id_of time_of id ms).0
  memory_step ms (updated s id) = (update_message id_of time_of (change s) id ms).0
  memory_step ms _ = ms

  abbrev pub file_step : FileBox id_of time_of → Op M S → FileBox id_of time_of
  file_step b (saved m) = save_file id_of time_of m b
  file_step b (deleted id) = (delete_file id_of time_of id b).0
  file_step b (updated s id) = (update_file id_of time_of (change s) id b).0
  file_step b listed = (list_file id_of time_of b).0
  file_step b (asked id) = (get_file id_of time_of id b).0
  file_step b counted = (count_file id_of time_of b).0
  file_step b restarted = new_file_box id_of time_of b.file

  abbrev pub memory_run : List (Text × M) → List (Op M S) → List (Text × M)
  memory_run ms [] = ms
  memory_run ms (op ∷ ops) = memory_run (memory_step ms op) ops

  abbrev pub file_run : FileBox id_of time_of → List (Op M S) → FileBox id_of time_of
  file_run b [] = b
  file_run b (op ∷ ops) = file_run (file_step b op) ops

  -- The box stands for the map: its file has the map's messages, and it has read them or not yet.
  record Holds (ms : List (Text × M)) (b : FileBox id_of time_of) : Type 0 where
    keyed : IsKeyed id_of time_of ms
    written : content id_of time_of b.file ≡ Dict.values ms
    in_memory : ((b.loaded ≡ true) × (b.messages ≡ ms)) ⊎ ((b.loaded ≡ false) × (b.messages ≡ []))

  load-messages :
      (ms : List (Text × M)) (b : FileBox id_of time_of)
      → Holds ms b
      → (load id_of time_of b).messages ≡ ms
  unfolding load
  load-messages ms b h = elim h.in_memory [
    | inl (yes_loaded, same) ↦ rw yes_loaded same
    | inr (not_loaded, empty) ↦
        rw (not_loaded, empty, h.written) (put_all-read id_of time_of ms h.keyed)
  ]

  load-loaded :
      (b : FileBox id_of time_of)
      → ((load id_of time_of b).loaded ≡ true) × ((load id_of time_of b).file ≡ b.file)
  unfolding load
  load-loaded b = ground arith

  load-Holds :
      (ms : List (Text × M)) (b : FileBox id_of time_of)
      → Holds ms b
      → Holds ms (load id_of time_of b)
  load-Holds ms b h = record {
    keyed = h.keyed;
    written = ap (content id_of time_of) ((load-loaded b).1) ∙ h.written;
    in_memory = inl ((load-loaded b).0, load-messages ms b h);
  }

  -- Once loaded, a box that writes new messages stands for them.
  persist-Holds :
      (ms : List (Text × M)) (b : FileBox id_of time_of)
      → IsKeyed id_of time_of ms
      → b.loaded ≡ true
      → Holds ms (persist id_of time_of (record b { messages = ms }))
  unfolding persist
  persist-Holds ms b keyed loaded = record {
    keyed = keyed;
    written = refl;
    in_memory = inl (loaded, refl);
  }

  module _ (ms : List (Text × M)) (b : FileBox id_of time_of) (h : Holds ms b) where
    -- A change of the loaded map that is written at once.
    written-Holds :
        (f : List (Text × M) → List (Text × M))
        → IsKeyed id_of time_of (f ms)
        → Holds (f ms) (
            persist id_of time_of
              (record (load id_of time_of b) { messages = f (load id_of time_of b).messages }))
    written-Holds f keyed =
        subst
          (λ x.
            Holds (f ms) (persist id_of time_of (record (load id_of time_of b) { messages = f x })))
          (sym (load-messages ms b h))
          (persist-Holds (f ms) (load id_of time_of b) keyed ((load-loaded b).0))

    saved-Holds : (m : M) → Holds (put id_of time_of m ms) (save_file id_of time_of m b)
    unfolding save_file put
    saved-Holds m =
        written-Holds (Dict.set (id_of m) m) (set-IsKeyed id_of time_of (id_of m) m ms refl h.keyed)

    kept-Holds : Holds ms (record (load id_of time_of b) { messages = ms })
    kept-Holds = record {
      keyed = h.keyed;
      written = ap (content id_of time_of) ((load-loaded b).1) ∙ h.written;
      in_memory = inl ((load-loaded b).0, refl);
    }

    deleted-Holds :
        (id : Text)
        → Holds (delete_message id_of time_of id ms).0 (delete_file id_of time_of id b).0
    unfolding delete_file delete_message
    deleted-Holds id =
        let e = load-messages ms b h in
        elim (Option-cases (Dict.get id ms)) [
          | inl none_there ↦ rw (e, none_there, delete_message) (load-Holds ms b h)
          | inr (m, there) ↦
              rw (e, there, delete_message)
                (written-Holds (Dict.delete id) (delete-IsKeyed id_of time_of id ms h.keyed))
        ]

    updated-Holds :
        (s : S) (id : Text)
        → Holds
            (update_message id_of time_of (change s) id ms).0
            (update_file id_of time_of (change s) id b).0
    unfolding update_file update_message
    updated-Holds s id =
        let e = load-messages ms b h in
        elim (Option-cases (Dict.get id ms)) [
          | inl none_there ↦ rw (e, none_there, update_message) kept-Holds
          | inr (m, there) ↦
              rw (e, there, update_message)
                (written-Holds (Dict.set id (change s m)) (
                  set-IsKeyed id_of time_of id (change s m) ms
                    (same_id s m ∙ IsKeyed-get id_of time_of id m ms h.keyed there) h.keyed))
        ]

    restarted-Holds : Holds ms (new_file_box id_of time_of b.file)
    unfolding new_file_box
    restarted-Holds = record { keyed = h.keyed; written = h.written; in_memory = inr (refl, refl) }

    step-Holds : (op : Op M S) → Holds (memory_step ms op) (file_step b op)
    unfolding list_file get_file count_file
    step-Holds (saved m) = saved-Holds m
    step-Holds (deleted id) = deleted-Holds id
    step-Holds (updated s id) = updated-Holds s id
    step-Holds listed = load-Holds ms b h
    step-Holds (asked id) = load-Holds ms b h
    step-Holds counted = load-Holds ms b h
    step-Holds restarted = restarted-Holds

  run-Holds :
      (ops : List (Op M S)) (ms : List (Text × M)) (b : FileBox id_of time_of)
      → Holds ms b
      → Holds (memory_run ms ops) (file_run b ops)
  run-Holds [] ms b h = h
  run-Holds (op ∷ ops) ms b h =
      run-Holds ops (memory_step ms op) (file_step b op) (step-Holds ms b h op)

  -- After any calls, with restarts of the process wherever they fall, the store on file answers as the
  -- store in memory that has never been restarted: to `list`, to `get` for any id, and to `count`. Both
  -- start empty, and an update of a message keeps its id.
  pub file_run-answers :
      (ops : List (Op M S)) (id : Text)
      → ((list_file id_of time_of (file_run (new_file_box id_of time_of none) ops)).1
          ≡ newest_first id_of time_of (memory_run [] ops))
        × ((get_file id_of time_of id (file_run (new_file_box id_of time_of none) ops)).1
            ≡ Dict.get id (memory_run [] ops))
        × ((count_file id_of time_of (file_run (new_file_box id_of time_of none) ops)).1
            ≡ length (memory_run [] ops))
  unfolding list_file get_file count_file new_file_box IsKeyed
  file_run-answers ops id =
      let start : Holds [] (new_file_box id_of time_of none) = record {
        keyed = tt;
        written = refl;
        in_memory = inr (refl, refl);
      } in
      let e = load-messages _ _ (run-Holds ops [] (new_file_box id_of time_of none) start) in
      (ap (newest_first id_of time_of) e, ap (Dict.get id) e, ap length e)
