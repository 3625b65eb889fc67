-- ===== src/Mail/Boxes/Tests.antt =====
-- The outbox on file, and the theorem at a concrete input.
use subspace_transceiver.Prelude.{ℕ, ◌≡◌, refl, List, [], ◌∷◌, none, some, length}
use subspace_transceiver.Prelude.Dict
use subspace_transceiver.Prelude.Text.{Text, codes, text_eq}
use subspace_transceiver.Mail.Boxes.{
  OutboxMessage, Status, with_status, put, newest_first, delete_message, update_message,
  new_file_box, put_all, load, persist, save_file, list_file, get_file, delete_file, count_file,
  update_file,
}
use subspace_transceiver.Mail.Boxes.Refinement.{
  Op, saved, deleted, updated, listed, restarted, memory_run, file_run, file_run-answers,
}

boxes : Unit {0}
unfolding put newest_first delete_message update_message new_file_box put_all load persist save_file
    list_file get_file delete_file count_file update_file Dict.get Dict.set Dict.delete text_eq
boxes = tt

abbrev id_of : OutboxMessage → Text
id_of m = m.id

abbrev time_of : OutboxMessage → ℕ
time_of m = m.sent_at

same_id : (s : Status) (m : OutboxMessage) → id_of (with_status s m) ≡ id_of m
same_id s m = refl

abbrev message : Text → ℕ → OutboxMessage
message id sent_at = record {
  id = id;
  to = codes "bob";
  subject = none;
  body = codes "hello";
  content_type = none;
  sent_at = sent_at;
  envelope_id = codes "e1";
  status = Status.pending;
}

abbrev ops : List (Op OutboxMessage Status)
ops =
    saved (message (codes "m1") 10)
    ∷ saved (message (codes "msg2") 20)
    ∷ restarted
    ∷ updated Status.sent (codes "m1")
    ∷ restarted
    ∷ deleted (codes "msg2")
    ∷ listed
    ∷ restarted
    ∷ []

after_restarts :
    (get_file id_of time_of
      (codes "m1")
      (file_run id_of time_of with_status same_id (new_file_box id_of time_of none) ops)).1
    ≡ some (with_status Status.sent (message (codes "m1") 10))
unfolding boxes
after_restarts = refl

file_run-answers_example :
    ((list_file id_of time_of
        (file_run id_of time_of with_status same_id (new_file_box id_of time_of none) ops)).1
      ≡ newest_first id_of time_of (memory_run id_of time_of with_status same_id [] ops))
    × ((get_file id_of time_of
          (codes "m1")
          (file_run id_of time_of with_status same_id (new_file_box id_of time_of none) ops)).1
        ≡ Dict.get (codes "m1") (memory_run id_of time_of with_status same_id [] ops))
    × ((count_file id_of time_of
          (file_run id_of time_of with_status same_id (new_file_box id_of time_of none) ops)).1
        ≡ length (memory_run id_of time_of with_status same_id [] ops))
file_run-answers_example = file_run-answers id_of time_of with_status same_id ops (codes "m1")
