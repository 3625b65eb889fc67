-- ===== src/Mail/Relay/Tests.antt =====
-- Runs of the relay store, and its theorems at concrete inputs.
use subspace_transceiver.Prelude.{
  ◌≤◌, ◌<◌, ◌≡◌, ◌≢◌, refl, true, false, [], ◌∷◌, none, some, arith, length, Elem,
}
use subspace_transceiver.Prelude.Dict
use subspace_transceiver.Prelude.Sets.{includes, add, remove}
use subspace_transceiver.Prelude.Sort.{sort_by, IsSorted}
use subspace_transceiver.Prelude.Text.{Text, codes, text_eq}
use subspace_transceiver.Mail.{MailEnvelope, is_envelope_expired}
use subspace_transceiver.Mail.Relay.{
  RelayStore, new_relay, ids_of, deposit, pending, skips, check_loop, check, ack, evict_loop, evict,
}
use subspace_transceiver.Mail.Relay.Steps.{deposited, Reach, relay_bounds}
use subspace_transceiver.Mail.Relay.Consistency.{IsConsistent}
use subspace_transceiver.Mail.Relay.Removal.{FreshReach, new_relay-IsConsistent, reach-IsConsistent}
use subspace_transceiver.Mail.Relay.Delivery.{NotYounger, check_sound, check_complete}
use subspace_transceiver.Mail.FileRelay.{
  FileRelay, new_file_relay, load_all, load, flush, timer_fires,
}
use subspace_transceiver.Mail.FileRelay.Durability.{timer_fires-loses}

relay : Unit {0}
unfolding new_relay deposit is_envelope_expired pending check_loop check ack evict_loop evict
    sort_by includes add remove Dict.get Dict.set Dict.delete text_eq load load_all new_file_relay
    flush timer_fires
relay = tt

abbrev bob : Text
bob = codes "bob"

abbrev letter : MailEnvelope
letter = record {
  id = codes "m1";
  from = codes "ann";
  to = bob;
  payload = codes "...";
  ephemeral_pub_key = codes "key";
  nonce = codes "n";
  auth_tag = codes "t";
  signature = codes "s";
  timestamp = 1000;
  ttl = 60;
  content_type = none;
}

abbrev empty : RelayStore
empty = new_relay none none

abbrev holding : RelayStore
holding = (deposit 2000 letter empty).0

delivered_now : check 3000 bob none none holding ≡ letter ∷ []
unfolding relay
delivered_now = refl

expired_later : check 61_001 bob none none holding ≡ []
unfolding relay
expired_later = refl

acked_once : (ack (codes "m1" ∷ codes "m1" ∷ []) holding).1 ≡ 1
unfolding relay
acked_once = refl

relay_bounds_example :
    (length holding.envelopes ≤ 100_000) × ((p : Text) → length (ids_of holding p) ≤ 1000)
relay_bounds_example = relay_bounds none none (Reach.next Reach.here (deposited 2000 letter empty))

letter_fresh : (d : MailEnvelope) → Dict.get letter.id empty.envelopes ≡ some d → d.to ≡ letter.to
unfolding relay
letter_fresh d h = cc

holding-IsConsistent : IsConsistent holding
holding-IsConsistent =
    reach-IsConsistent (new_relay-IsConsistent none none)
      (FreshReach.next FreshReach.here (deposited 2000 letter empty) letter_fresh)

reach-IsConsistent_example : IsConsistent holding
reach-IsConsistent_example =
    reach-IsConsistent (new_relay-IsConsistent none none)
      (FreshReach.next FreshReach.here (deposited 2000 letter empty) letter_fresh)

check_sound_example :
    IsSorted NotYounger (check 3000 bob none none holding)
    × (0 < 50 → length (check 3000 bob none none holding) ≤ 50)
    × ((e : MailEnvelope)
        → Elem e (check 3000 bob none none holding)
        → (Dict.get e.id holding.envelopes ≡ some e) × (e.to ≡ bob) × (skips 3000 none e ≡ false))
check_sound_example = check_sound 3000 bob none none holding holding-IsConsistent

check_complete_example : Elem letter (check 3000 bob none none holding)
unfolding relay
check_complete_example =
    check_complete 3000 bob none none holding letter holding-IsConsistent refl refl refl
      (omega arith)

-- A second letter that reuses the id, for somebody else.
abbrev forged : MailEnvelope
forged = record letter { to = codes "bo" }

abbrev dirty_relay : FileRelay
dirty_relay = record { store = holding; dirty = true; save_timer = true; file = none }

only_letter : (id : Text) (e : MailEnvelope) → Dict.get id holding.envelopes ≡ some e → e.to ≢ []
unfolding relay
only_letter id e h = ground arith

timer_fires-loses_example :
    ((timer_fires 4000 true dirty_relay).file ≡ some [])
    × ((load 5000 (new_file_relay none none (timer_fires 4000 true dirty_relay).file)).store
        ≡ new_relay none none)
timer_fires-loses_example =
    timer_fires-loses 4000 5000 none none dirty_relay holding-IsConsistent only_letter refl
