-- ===== src/Replication/Waits.antt =====
-- What a channel sends first after its sync version was reset.
use subspace_transceiver.Prelude.{
  ◌≡◌, ◌∙◌, refl, ap, Bool, true, false, ◌||◌, List, [], ◌∷◌, ◌++◌, none, if◌then◌else◌,
}
use subspace_transceiver.Store.{Loro, Store}
use subspace_transceiver.Store
use subspace_transceiver.Replication.{
  Flight, Channel, schedule_broadcast, envelope_of, broadcast_delta, finish_broadcast, run_timer,
  write_chunk, import_into, reset_channel,
}
use subspace_transceiver.Replication.Chain.{
  Step, written, imported, timed, resynced, finished, joined,
}

-- The channels that events lead to from a channel, none of which ends a broadcast with success.
pub data Waits {loro : Loro} (ch : Channel loro) : Channel loro → Type 0 where
  here : Waits ch ch
  after :
      {earlier later : Channel loro}
      → Waits ch earlier
      → Step loro earlier later
      → later.sent ≡ earlier.sent
      → Waits ch later

-- A broadcast with the whole document of the store.
abbrev pub whole_flight : {loro : Loro} → Channel loro → Flight loro
whole_flight {loro} ch = record {
  since = none;
  version = loro.snapshot ch.store.doc;
  delta = loro.snapshot ch.store.doc;
}

module _ {loro : Loro} where
  longer : (fs : List (Flight loro)) (f : Flight loro) → fs ++ f ∷ [] ≡ fs → ⊥
  longer [] f e = cc
  longer (g ∷ fs) f e = longer fs f (cc)

  scheduled-sync :
      (known : Bool) (ch : Channel loro)
      → (if known then ch else record ch { pending = true }).last_sync_version
        ≡ ch.last_sync_version
  scheduled-sync true ch = refl
  scheduled-sync false ch = refl

  broadcast-sync :
      (stopped : Bool) (ch : Channel loro)
      → (broadcast_delta loro stopped ch).last_sync_version ≡ ch.last_sync_version
  unfolding broadcast_delta
  broadcast-sync true ch = refl
  broadcast-sync false ch = refl

  step-unsynced :
      {earlier later : Channel loro}
      → Step loro earlier later
      → later.sent ≡ earlier.sent
      → earlier.last_sync_version ≡ none
      → later.last_sync_version ≡ none
  unfolding write_chunk schedule_broadcast import_into run_timer reset_channel finish_broadcast
  step-unsynced (written stopped c ch) e h =
      scheduled-sync (stopped || ch.pending) (record ch { store = Store.put loro c ch.store }) ∙ h
  step-unsynced (imported bytes ch) e h = h
  step-unsynced (timed stopped ch) e h = broadcast-sync stopped (record ch { pending = false }) ∙ h
  step-unsynced (resynced stopped ch) e h = broadcast-sync stopped ch ∙ h
  step-unsynced (finished earlier f later true ch flies) e h = absurd (longer ch.sent f e)
  step-unsynced (finished earlier f later false ch flies) e h = h
  step-unsynced (joined ch) e h = refl

  waits-unsynced :
      {ch later : Channel loro}
      → Waits ch later
      → ch.last_sync_version ≡ none
      → later.last_sync_version ≡ none
  waits-unsynced here h = h
  waits-unsynced (after w step e) h = step-unsynced step e (waits-unsynced w h)

  -- A broadcast that starts without a sync version sends the whole document.
  pub waits-whole :
      (ch later : Channel loro)
      → ch.last_sync_version ≡ none
      → Waits ch later
      → (broadcast_delta loro false later).flying ≡ later.flying ++ whole_flight later ∷ []
  unfolding broadcast_delta envelope_of Store.export_delta Store.get_version_snapshot
  waits-whole ch later h w =
      ap
        (λ o.
          let f : Flight loro = record {
            since = o;
            version = loro.snapshot later.store.doc;
            delta = Store.export_delta loro o later.store;
          } in
          later.flying ++ f ∷ [])
        (waits-unsynced w h)
