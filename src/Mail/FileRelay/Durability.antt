-- ===== src/Mail/FileRelay/Durability.antt =====
-- What survives a restart.
use subspace_transceiver.Prelude.{ℕ, ◌≡◌, ◌≢◌, refl, true, List, [], ◌∷◌, Option, some, Elem, inl}
use subspace_transceiver.Prelude.Dict
use subspace_transceiver.Prelude.Text.{Text}
use subspace_transceiver.Mail.{MailEnvelope}
use subspace_transceiver.Mail.Relay.{RelayStore, new_relay, check}
use subspace_transceiver.Mail.Relay.Consistency.{IsConsistent}
use subspace_transceiver.Mail.Relay.Delivery.{check_sound}
use subspace_transceiver.Mail.FileRelay.{
  FileRelay, new_file_relay, load_all, load, flush, timer_fires, max_safe_integer,
}

-- No stored envelope is addressed to the empty string.
abbrev pub NoneToNobody : RelayStore → Type 0
NoneToNobody s = (id : Text) (e : MailEnvelope) → Dict.get id s.envelopes ≡ some e → e.to ≢ []

nil_of_no_Elem : (es : List MailEnvelope) → ((e : MailEnvelope) → Elem e es → ⊥) → es ≡ []
nil_of_no_Elem [] h = refl
nil_of_no_Elem (e ∷ es) h = absurd (h e (inl refl))

check_nobody :
    (now : ℕ) (since limit : Option ℕ) (s : RelayStore)
    → IsConsistent s
    → NoneToNobody s
    → check now [] since limit s ≡ []
check_nobody now since limit s c none_to = nil_of_no_Elem _ λ e m.
    let (stored, to_them, fits) = (check_sound now [] since limit s c).2 e m in
    none_to e.id e stored to_them

-- When the timer of a dirty relay fires and the write succeeds, the file holds no envelope at all
-- (provided none is addressed to the empty string), however many the store holds; a relay that
-- starts from that file at any later instant is empty.
pub timer_fires-loses :
    (now later : ℕ) (per total : Option ℕ) (f : FileRelay)
    → IsConsistent f.store
    → NoneToNobody f.store
    → f.dirty ≡ true
    → ((timer_fires now true f).file ≡ some [])
      × ((load later (new_file_relay per total (timer_fires now true f).file)).store
          ≡ new_relay per total)
unfolding timer_fires flush load load_all new_file_relay
timer_fires-loses now later per total f c none_to dirty =
    rw (dirty, check_nobody now (some 0) (some max_safe_integer) f.store c none_to) (refl, refl)
