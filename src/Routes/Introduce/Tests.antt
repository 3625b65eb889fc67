-- ===== src/Routes/Introduce/Tests.antt =====
-- Two sessions, of which one is chosen, and the theorem at a concrete input.
use subspace_transceiver.Prelude.{◌≡◌, ◌∷◌, [], refl, true, false, none, some}
use subspace_transceiver.Prelude.Text.{codes, text_eq}
use subspace_transceiver.Store.{create_in_memory, get_version_snapshot}
use subspace_transceiver.Store.Entries.{entries_loro}
use subspace_transceiver.Discovery.{DiscoveryManager, new_manager, add_discovery_peer}
use subspace_transceiver.Replication.{Manager, new_channel}
use subspace_transceiver.Routes.Introduce.{
  IntroSession, GlobalSession, IntroReply, introduce_session, is_chosen, join_topics,
  peer_introduce,
}

-- A manager whose channels have sent what they have.
abbrev synced : Manager entries_loro
synced =
    let store = create_in_memory entries_loro in
    let channel = record (new_channel entries_loro store) {
      last_sync_version = some (get_version_snapshot entries_loro store);
    } in
    record {
      skill = channel;
      project = channel;
      stopped = false;
      local_node_id = codes "ann";
      topic = codes "topic";
    }

abbrev found_topic : DiscoveryManager
found_topic = record (new_manager none) { discovery_topic_hex = some (codes "0a") }

abbrev one : IntroSession entries_loro
one = record {
  id = codes "one";
  discovery = found_topic;
  joins = true;
  replication = some synced;
  topic_joins = true;
}

abbrev two : IntroSession entries_loro
two = record one { id = codes "two"; topic_joins = false }

abbrev global : GlobalSession
global = record { discovery = found_topic; joins = true; engine_runs = true }

-- The session that is not chosen does not count.
one_joins :
    (peer_introduce (codes "bob") (some (codes "one")) (some global) (one ∷ two ∷ [])).2
    ≡ IntroReply.no_content
unfolding peer_introduce introduce_session join_topics is_chosen add_discovery_peer text_eq
one_joins = refl

all_do_not :
    (peer_introduce (codes "bob") none (some global) (one ∷ two ∷ [])).2
    ≡ IntroReply.introduce_partial
unfolding peer_introduce introduce_session join_topics is_chosen add_discovery_peer text_eq
all_do_not = refl
