-- ===== src/Replication/Race.antt =====
-- A peer that joins while a broadcast is in flight.
use subspace_transceiver.Prelude.{◌≡◌, refl, true, List, some}
use subspace_transceiver.Store.{Loro, Store}
use subspace_transceiver.Store
use subspace_transceiver.Replication.{Flight, Channel, envelope_of, finish_broadcast, reset_channel}

-- Where a broadcast is in flight when a peer joins and succeeds afterwards, the next delta starts from the
-- version of that broadcast, as if no peer had joined; without a broadcast in flight it is the whole
-- snapshot.
pub reset-envelope_of :
    (loro : Loro) (earlier : List (Flight loro)) (f : Flight loro) (later : List (Flight loro))
    (ch : Channel loro)
    → ((envelope_of loro (finish_broadcast loro earlier f later true (reset_channel loro ch))).since
        ≡ (envelope_of loro (finish_broadcast loro earlier f later true ch)).since)
      × ((envelope_of loro
            (finish_broadcast loro earlier f later true (reset_channel loro ch))).delta
          ≡ Store.export_delta loro (some f.version) ch.store)
      × ((envelope_of loro (reset_channel loro ch)).delta ≡ loro.snapshot ch.store.doc)
unfolding envelope_of finish_broadcast reset_channel Store.export_delta
reset-envelope_of loro earlier f later ch = (refl, refl, refl)
