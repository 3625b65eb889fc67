-- ===== src/Routes/Introduce.antt =====
-- `POST /discovery/introduce` and `POST /peer/introduce`. The bridge is what its joins end in: `joins` of a
-- discovery and `topic_joins` of the topic of a session.
mod Tests
use subspace_transceiver.Prelude.{
  ℕ, ◌≡◌, ◌∙◌, ◌↔◌, inl, inr, refl, ap, subst, sym, Bool, true, false, not, ◌&&◌, ◌||◌, and_iff,
  Bool-cases, List, [], ◌∷◌, map, Option, none, some, some_inj, if◌then◌else◌, Elem, arith,
}
use mathlib.Core.Option.{map as option_map}
use subspace_transceiver.Prelude.Text.{Text, text_eq, truthy}
use subspace_transceiver.Store.{Loro}
use subspace_transceiver.Discovery.{DiscoveryManager, Introduction, add_discovery_peer}
use subspace_transceiver.Replication.{Manager, envelope_of, reset_sync_version, reset_channel}

-- What the routes use of a NetworkSession, and of the global one.
pub record IntroSession (loro : Loro) : Type 0 where
  pub id : Text
  pub discovery : DiscoveryManager
  pub joins : Bool
  pub replication : Option (Manager loro)
  pub topic_joins : Bool

pub record GlobalSession : Type 0 where
  pub discovery : DiscoveryManager
  pub joins : Bool
  pub engine_runs : Bool

-- 400, 503, both kinds of 500, and 204.
pub data IntroReply : Type 0 where
  invalid_request engine_not_ready introduce_failed introduce_partial no_content : IntroReply

abbrev pub is_introduced : Introduction → Bool
is_introduced Introduction.not_started = false
is_introduced Introduction.join_failed = false
is_introduced Introduction.introduced = true

module _ {loro : Loro} where
  unfoldable pub introduce_session : IntroSession loro → IntroSession loro
  introduce_session s = record s { discovery = (add_discovery_peer s.joins s.discovery).0 }

  -- The state after the route, and its reply. An id that is missing is the empty text.
  unfoldable pub discovery_introduce :
      Text
      → Option GlobalSession
      → List (IntroSession loro)
      → Option GlobalSession × List (IntroSession loro) × IntroReply
  unfolding introduce_session
  discovery_introduce [] global sessions = (global, sessions, IntroReply.invalid_request)
  discovery_introduce (c ∷ node_id) none sessions =
      (none, map introduce_session sessions, IntroReply.no_content)
  discovery_introduce (c ∷ node_id) (some g) sessions =
      let (d, end) = add_discovery_peer g.joins g.discovery in
      if is_introduced end
      then (
        some (record g { discovery = d }),
        map introduce_session sessions,
        IntroReply.no_content,
      )
      else (some (record g { discovery = d }), sessions, IntroReply.introduce_failed)

  -- `sessionsToIntroduce`: the session of the network, where one is given, or all.
  unfoldable pub is_chosen : Option Text → IntroSession loro → Bool
  is_chosen none s = true
  is_chosen (some network) s = not (truthy network) || text_eq s.id network

  abbrev pub reset_session : IntroSession loro → IntroSession loro
  reset_session s = record s { replication = option_map (reset_sync_version loro) s.replication }

  -- The last loop: the sessions, and whether each join of their topics succeeded.
  unfoldable pub join_topics :
      Option Text → List (IntroSession loro) → List (IntroSession loro) × Bool
  unfolding is_chosen
  join_topics network [] = ([], true)
  join_topics network (s ∷ sessions) =
      let (rest, joined) = join_topics network sessions in
      if is_chosen network s
      then (reset_session s ∷ rest, s.topic_joins && joined)
      else (s ∷ rest, joined)

  unfoldable pub peer_introduce :
      Text
      → Option Text
      → Option GlobalSession
      → List (IntroSession loro)
      → Option GlobalSession × List (IntroSession loro) × IntroReply
  unfolding introduce_session join_topics
  peer_introduce [] network global sessions = (global, sessions, IntroReply.invalid_request)
  peer_introduce (c ∷ node_id) network none sessions = (none, sessions, IntroReply.engine_not_ready)
  peer_introduce (c ∷ node_id) network (some g) sessions =
      let (d, end) = add_discovery_peer g.joins g.discovery in
      let (later, joined) = join_topics network (map introduce_session sessions) in
      if g.engine_runs
      then (
        some (record g { discovery = d }),
        later,
        (if is_introduced end && joined
            then IntroReply.no_content
            else IntroReply.introduce_partial),
      )
      else (some g, sessions, IntroReply.engine_not_ready)
