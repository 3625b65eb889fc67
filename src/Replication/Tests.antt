-- ===== src/Replication/Tests.antt =====
-- A channel with two events, and the theorems at concrete inputs.
use subspace_transceiver.Prelude.{◌≡◌, true, false, [], some}
use subspace_transceiver.Samples.{first}
use subspace_transceiver.Store.{Loro, Store, create_in_memory, get_version_snapshot, export_delta}
use subspace_transceiver.Store
use subspace_transceiver.Store.Entries.{entries_loro}
use subspace_transceiver.Replication.{
  Flight, Channel, new_channel, envelope_of, broadcast_delta, finish_broadcast, reset_channel,
}
use subspace_transceiver.Replication.Race.{reset-envelope_of}

abbrev held : Store entries_loro
held = Store.put entries_loro first (create_in_memory entries_loro)

abbrev opened : Channel entries_loro
opened = broadcast_delta entries_loro false (new_channel entries_loro held)

abbrev flight : Flight entries_loro
flight = envelope_of entries_loro (new_channel entries_loro held)

abbrev synced : Channel entries_loro
synced = finish_broadcast entries_loro [] flight [] true opened

joined_in_flight :
    ((envelope_of entries_loro
        (finish_broadcast entries_loro [] flight [] true (reset_channel entries_loro opened))).since
      ≡ (envelope_of entries_loro (finish_broadcast entries_loro [] flight [] true opened)).since)
    × ((envelope_of entries_loro (
          finish_broadcast entries_loro [] flight [] true
            (reset_channel entries_loro opened))).delta
        ≡ Store.export_delta entries_loro (some flight.version) opened.store)
    × ((envelope_of entries_loro (reset_channel entries_loro opened)).delta
        ≡ entries_loro.snapshot opened.store.doc)
joined_in_flight = reset-envelope_of entries_loro [] flight [] opened
