-- ===== src/Mail/Boxes.antt =====
-- packages/core/src/mail-store.ts: the inbox and the outbox, in memory and on file. The stores of both
-- kinds of message differ only in the message and in what else they do, so that what they share is
-- written once, over the id and the time of a message. A file is its parsed content, or `none` where it
-- does not exist; reads and writes succeed.
mod Restart
pub mod Refinement
mod Tests
use subspace_transceiver.Prelude.{
  ℕ, Bool, true, false, List, [], ◌∷◌, Option, none, some, leb, length, if◌then◌else◌,
}
use subspace_transceiver.Prelude.Dict
use subspace_transceiver.Prelude.Sort.{sort_by}
use subspace_transceiver.Prelude.Text.{Text}

pub record InboxMessage : Type 0 where
  pub id : Text
  pub from : Text
  pub subject : Option Text
  pub body : Text
  pub mime_type : Option Text
  pub meta : Option (List (Text × Text))
  pub content_type : Option Text
  pub timestamp : ℕ
  pub received_at : ℕ
  pub envelope_id : Text

pub data Status : Type 0 where
  sent pending : Status

pub record OutboxMessage : Type 0 where
  pub id : Text
  pub to : Text
  pub subject : Option Text
  pub body : Text
  pub content_type : Option Text
  pub sent_at : ℕ
  pub envelope_id : Text
  pub status : Status

-- `{ ...msg, status }`
abbrev pub with_status : Status → OutboxMessage → OutboxMessage
with_status status m = record m { status = status }

module _ {M : Type 0} (id_of : M → Text) (time_of : M → ℕ) where
  -- The methods of the two memory stores on the map `messages`.
  unfoldable pub put : M → List (Text × M) → List (Text × M)
  put m messages = Dict.set (id_of m) m messages

  -- `sort((a, b) => time(b) - time(a))`
  unfoldable pub newest_first : List (Text × M) → List M
  newest_first messages = sort_by (λ a b. leb (time_of b) (time_of a)) (Dict.values messages)

  -- `messages.delete(id)`, and whether the id was there.
  unfoldable pub delete_message : Text → List (Text × M) → List (Text × M) × Bool
  delete_message id messages = elim (Dict.get id messages) [
    | none ↦ (messages, false)
    | some m ↦ (Dict.delete id messages, true)
  ]

  -- `updateStatus`, where `change` sets the status.
  unfoldable pub update_message : (M → M) → Text → List (Text × M) → List (Text × M) × Bool
  update_message change id messages = elim (Dict.get id messages) [
    | none ↦ (messages, false)
    | some m ↦ (Dict.set id (change m) messages, true)
  ]

  -- The fields of `FileInboxStore` and of `FileOutboxStore`, and the file.
  pub record FileBox : Type 0 where
    pub messages : List (Text × M)
    pub loaded : Bool
    pub file : Option (List M)

  unfoldable pub new_file_box : Option (List M) → FileBox
  new_file_box file = record { messages = []; loaded = false; file = file }

  -- The loop of `load`.
  unfoldable pub put_all : List M → List (Text × M) → List (Text × M)
  put_all [] messages = messages
  put_all (m ∷ ms) messages = put_all ms (Dict.set (id_of m) m messages)

  abbrev content : Option (List M) → List M
  content none = []
  content (some ms) = ms

  unfoldable pub load : FileBox → FileBox
  unfolding put_all
  load b =
      if b.loaded
      then b
      else record b { messages = put_all (content b.file) b.messages; loaded = true }

  unfoldable pub persist : FileBox → FileBox
  persist b = record b { file = some (Dict.values b.messages) }

  unfoldable pub save_file : M → FileBox → FileBox
  save_file m b = let l = load b in persist (record l { messages = put m l.messages })

  unfoldable pub list_file : FileBox → FileBox × List M
  list_file b = let l = load b in (l, newest_first l.messages)

  unfoldable pub get_file : Text → FileBox → FileBox × Option M
  get_file id b = let l = load b in (l, Dict.get id l.messages)

  unfoldable pub delete_file : Text → FileBox → FileBox × Bool
  delete_file id b =
      let l = load b in
      let (messages, existed) = delete_message id l.messages in
      (
        if existed
            then persist (record l { messages = messages })
            else record l { messages = messages },
        existed,
      )

  unfoldable pub count_file : FileBox → FileBox × ℕ
  count_file b = let l = load b in (l, length l.messages)

  unfoldable pub update_file : (M → M) → Text → FileBox → FileBox × Bool
  update_file change id b =
      let l = load b in
      let (messages, found) = update_message change id l.messages in
      (if found then persist (record l { messages = messages }) else l, found)
