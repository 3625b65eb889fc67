-- ===== src/Routes/Introduced.antt =====
-- What `POST /peer/introduce` leaves to be sent, and what its reply says.
use subspace_transceiver.Prelude.{◌≡◌, true, false, List, [], ◌∷◌, ◌++◌, map, Option, some, Elem}
use mathlib.Core.Option.{map as option_map}
use subspace_transceiver.Prelude.Text.{Text}
use subspace_transceiver.Store.{Loro}
use subspace_transceiver.Replication.{Manager, Channel, broadcast_delta}
use subspace_transceiver.Replication.Waits.{Waits, whole_flight}
use subspace_transceiver.Routes.Introduce.{IntroSession, is_chosen}

module _ {loro : Loro} where
  -- Whatever happens to the channel before a broadcast of it has succeeded, a broadcast that starts then
  -- sends the whole document of the store.
  abbrev pub SendsWhole : Channel loro → Type 0
  SendsWhole ch =
      (later : Channel loro)
      → Waits ch later
      → (broadcast_delta loro false later).flying ≡ later.flying ++ whole_flight later ∷ []

  -- Both channels of a session do.
  abbrev pub SendsAll : IntroSession loro → Type 0
  SendsAll s =
      (m : Manager loro) → s.replication ≡ some m → SendsWhole m.skill × SendsWhole m.project

  -- Each chosen session of a list joins its topic.
  abbrev pub AllJoin : Option Text → List (IntroSession loro) → Type 0
  AllJoin network sessions =
      (s : IntroSession loro) → Elem s sessions → is_chosen network s ≡ true → s.topic_joins ≡ true
