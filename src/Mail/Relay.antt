-- ===== src/Mail/Relay.antt =====
-- packages/core/src/mail-store.ts: `MemoryRelayStore`, and the `FileRelayStore` on top of it. A method
-- returns the new store beside its result.
pub mod Steps
pub mod Consistency
pub mod Removal
mod Loop
pub mod Delivery
mod Tests
use subspace_transceiver.Prelude.{
  ℕ, suc, ◌+◌, Bool, true, false, not, ◌&&◌, ◌||◌, List, [], ◌∷◌, ◌++◌, Option, none, some, ltb,
  leb, length, if◌then◌else◌, or_else, unless_given,
}
use subspace_transceiver.Prelude.Dict
use subspace_transceiver.Prelude.Sets.{add, remove}
use subspace_transceiver.Prelude.Sort.{sort_by}
use subspace_transceiver.Prelude.Text.{Text}
use subspace_transceiver.Mail.{MailEnvelope, is_envelope_expired}

pub record RelayStore : Type 0 where
  pub envelopes : List (Text × MailEnvelope)
  pub by_recipient : List (Text × List Text)
  pub max_per_recipient : ℕ
  pub max_total : ℕ

unfoldable pub new_relay : Option ℕ → Option ℕ → RelayStore
new_relay max_per_recipient max_total = record {
  envelopes = [];
  by_recipient = [];
  max_per_recipient = or_else max_per_recipient 1000;
  max_total = or_else max_total 100_000;
}

-- `this.byRecipient.get(peer) ?? new Set()`
abbrev pub ids_of : RelayStore → Text → List Text
ids_of s peer = or_else (Dict.get peer s.by_recipient) []

unfoldable pub deposit : ℕ → MailEnvelope → RelayStore → RelayStore × Bool
deposit now e s =
    if is_envelope_expired now e
      || leb s.max_total (length s.envelopes)
      || leb s.max_per_recipient (length (ids_of s e.to))
    then (s, false)
    else (
      record s {
        envelopes = Dict.set e.id e s.envelopes;
        by_recipient = Dict.set e.to (add e.id (ids_of s e.to)) s.by_recipient;
      },
      true,
    )

-- `isEnvelopeExpired(env)`, or `since !== undefined && env.timestamp <= since`: the loop goes on.
abbrev pub skips : ℕ → Option ℕ → MailEnvelope → Bool
skips now since e = is_envelope_expired now e || not (unless_given since (λ t. ltb t e.timestamp))

-- The envelope that the loop of `check` pushes for an id, if any.
unfoldable pub pending : ℕ → Option ℕ → RelayStore → Text → Option MailEnvelope
pending now since s id = elim (Dict.get id s.envelopes) [
  | none ↦ none
  | some e ↦ if skips now since e then none else some e
]

-- The loop of `check`; it breaks once the result has reached the limit.
unfoldable pub check_loop :
    ℕ → Option ℕ → ℕ → RelayStore → List Text → List MailEnvelope → List MailEnvelope
check_loop now since limit s [] result = result
check_loop now since limit s (id ∷ ids) result = elim (pending now since s id) [
  | none ↦ check_loop now since limit s ids result
  | some e ↦
      let pushed = result ++ e ∷ [] in
      let more = check_loop now since limit s ids pushed in
      if leb limit (length pushed) then pushed else more
]

-- `result.sort((a, b) => a.timestamp - b.timestamp)`, a stable sort.
abbrev pub is_older : MailEnvelope → MailEnvelope → Bool
is_older e d = leb e.timestamp d.timestamp

unfoldable pub check : ℕ → Text → Option ℕ → Option ℕ → RelayStore → List MailEnvelope
check now recipient since limit s =
    sort_by is_older (check_loop now since (or_else limit 50) s (ids_of s recipient) [])

-- `this.byRecipient.get(peer)?.delete(id)`
abbrev pub forget_id : Text → Text → List (Text × List Text) → List (Text × List Text)
forget_id peer id m = elim (Dict.get peer m) [
  | none ↦ m
  | some ids ↦ Dict.set peer (remove id ids) m
]

-- Both maps without the envelope.
abbrev pub drop_envelope : MailEnvelope → Text → RelayStore → RelayStore
drop_envelope e id s = record s {
  envelopes = Dict.delete id s.envelopes;
  by_recipient = forget_id e.to id s.by_recipient;
}

unfoldable pub ack : List Text → RelayStore → RelayStore × ℕ
ack [] s = (s, 0)
ack (id ∷ ids) s = elim (Dict.get id s.envelopes) [
  | none ↦ ack ids s
  | some e ↦ let (s', count) = ack ids (drop_envelope e id s) in (s', suc count)
]

-- The loop of `evict` over the entries.
unfoldable pub evict_loop : ℕ → List (Text × MailEnvelope) → RelayStore → RelayStore × ℕ
evict_loop now [] s = (s, 0)
evict_loop now ((id, e) ∷ entries) s = elim (is_envelope_expired now e) [
  | true ↦ let (s', count) = evict_loop now entries (drop_envelope e id s) in (s', suc count)
  | false ↦ evict_loop now entries s
]

unfoldable pub evict : ℕ → RelayStore → RelayStore × ℕ
evict now s = evict_loop now s.envelopes s

unfoldable pub count : RelayStore → Text → ℕ
count s recipient = length (ids_of s recipient)
