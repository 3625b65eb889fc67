-- ===== src/Mail/FileRelay.antt =====
-- packages/core/src/mail-store.ts: `FileRelayStore`. The file is its parsed content, or `none` where it
-- does not exist; whether a write succeeds is an argument. `saveTimer` is only set or not.
pub mod Durability
use subspace_transceiver.Prelude.{
  ℕ, Bool, true, false, List, [], ◌∷◌, Option, none, some, ltb, if◌then◌else◌,
}
use subspace_transceiver.Prelude.Text.{Text}
use subspace_transceiver.Mail.{MailEnvelope}
use subspace_transceiver.Mail.Relay
use subspace_transceiver.Mail.Relay.{RelayStore, new_relay}

pub record FileRelay : Type 0 where
  pub store : RelayStore
  pub dirty : Bool
  pub save_timer : Bool
  pub file : Option (List MailEnvelope)

unfoldable pub new_file_relay : Option ℕ → Option ℕ → Option (List MailEnvelope) → FileRelay
new_file_relay per total file = record {
  store = new_relay per total;
  dirty = false;
  save_timer = false;
  file = file;
}

-- The loop of `load`, by the deposit of the base class.
unfoldable pub load_all : ℕ → List MailEnvelope → RelayStore → RelayStore
load_all now [] s = s
load_all now (e ∷ es) s = load_all now es (Relay.deposit now e s).0

unfoldable pub load : ℕ → FileRelay → FileRelay
load now f = elim f.file [
  | none ↦ f
  | some envelopes ↦ record f { store = load_all now envelopes f.store }
]

abbrev pub schedule_save : FileRelay → FileRelay
schedule_save f = if f.save_timer then f else record f { save_timer = true }

-- `this.dirty = true; this.scheduleSave()`
abbrev pub mark_dirty : FileRelay → FileRelay
mark_dirty f = schedule_save (record f { dirty = true })

-- `Number.MAX_SAFE_INTEGER`
abbrev pub max_safe_integer : ℕ
max_safe_integer = 9_007_199_254_740_991

unfoldable pub flush : ℕ → Bool → FileRelay → FileRelay
flush now writes f =
    if f.dirty
    then (if writes
        then record f {
          file = some (Relay.check now [] (some 0) (some max_safe_integer) f.store);
          dirty = false;
        }
        else f)
    else f

-- The callback of the timer.
unfoldable pub timer_fires : ℕ → Bool → FileRelay → FileRelay
timer_fires now writes f = flush now writes (record f { save_timer = false })

unfoldable pub deposit : ℕ → MailEnvelope → FileRelay → FileRelay × Bool
deposit now e f =
    let (s, accepted) = Relay.deposit now e f.store in
    (if accepted then mark_dirty (record f { store = s }) else record f { store = s }, accepted)

unfoldable pub ack : List Text → FileRelay → FileRelay × ℕ
ack ids f =
    let (s, count) = Relay.ack ids f.store in
    (if ltb 0 count then mark_dirty (record f { store = s }) else record f { store = s }, count)

unfoldable pub evict : ℕ → FileRelay → FileRelay × ℕ
evict now f =
    let (s, count) = Relay.evict now f.store in
    (if ltb 0 count then mark_dirty (record f { store = s }) else record f { store = s }, count)
