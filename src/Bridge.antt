-- ===== src/Bridge.antt =====
-- packages/core/src/engine-bridge.ts: EngineBridge, which calls the engine process over its standard
-- input and output. A process is known by the number of its spawning; a promise by the id of its call,
-- or, for a start, by the process that it waits for. A line of output is what it parses to.
pub mod Requests
pub mod Settled
pub mod Answers
mod Tests
use subspace_transceiver.Prelude.{
  ℕ, suc, Bool, true, false, if◌then◌else◌, List, [], ◌∷◌, ◌++◌, map, Option, none, some, filter,
  not, ◌||◌, ◌==◌,
}
use subspace_transceiver.Prelude.Text.{Text, codes}
use subspace_transceiver.Prelude.Sets.{includes, add, remove}
use subspace_transceiver.Bridge.Requests.{Param, Request}

-- Why a promise is rejected: an error that the engine answers, the exit of the process, a failed write.
pub data Failure : Type 0 where
  rpc_error : ℕ → Text → Failure
  process_exited : Option ℕ → Failure
  write_failed : Failure

pub data Outcome : Type 0 where
  resolved : Param → Outcome
  rejected : Failure → Outcome

-- What the bridge emits.
pub data BridgeEvent : Type 0 where
  engine_ready : BridgeEvent
  exit : Option ℕ → BridgeEvent
  gossip_received : Text → Text → Text → BridgeEvent
  neighbor_up : Text → Text → BridgeEvent
  peer_connected peer_disconnected : Param → BridgeEvent
  mail_received : Text → Text → BridgeEvent
  browse_request : Text → Text → Option Text → Option ℕ → ℕ → BridgeEvent
  other : Text → Param → BridgeEvent

-- A notification, with the fields of its parameters that the bridge reads.
pub data RpcNotification : Type 0 where
  engine_ready : RpcNotification
  gossip_received : Text → Text → Text → RpcNotification
  neighbor_up : Text → Text → RpcNotification
  peer_connected peer_disconnected : Param → RpcNotification
  mail_received : Text → Text → RpcNotification
  browse_request : Text → Text → Option Text → Option ℕ → ℕ → RpcNotification
  other : Text → Param → RpcNotification

pub record RpcResponse : Type 0 where
  pub id : Text
  pub result : Param
  pub error : Option (ℕ × Text)

-- A line: blank or not JSON, of which the latter is logged, a notification, a response, or neither.
pub data Line : Type 0 where
  ignored : Line
  notification : RpcNotification → Line
  response : RpcResponse → Line

pub record EngineBridge : Type 0 where
  pub proc : Option ℕ
  pub spawned : ℕ
  pub pending : List Text
  pub started : Bool
  pub node_id : Option Text
  pub awaiting_ready : List ℕ
  pub written : List (Text × Request)
  pub settled : List (Text × Outcome)
  pub events : List BridgeEvent

unfoldable pub new_bridge : EngineBridge
new_bridge = record {
  proc = none;
  spawned = 0;
  pending = [];
  started = false;
  node_id = none;
  awaiting_ready = [];
  written = [];
  settled = [];
  events = [];
}

-- What `start` does before it waits.
pub data Start : Type 0 where
  already_started not_found : Start
  awaiting : ℕ → Start

unfoldable pub start : Bool → EngineBridge → EngineBridge × Start
start exists b =
    if b.started
    then (b, Start.already_started)
    else if exists
    then (
      record b {
        proc = some b.spawned;
        spawned = suc b.spawned;
        awaiting_ready = b.awaiting_ready ++ b.spawned ∷ [];
      },
      Start.awaiting b.spawned,
    )
    else (b, Start.not_found)

abbrev is_empty : List ℕ → Bool
is_empty [] = true
is_empty (n ∷ ns) = false

abbrev pub emit : BridgeEvent → EngineBridge → EngineBridge
emit e b = record b { events = b.events ++ e ∷ [] }

-- The timer of a start: its promise is rejected, and nothing else happens.
unfoldable pub start_timeout : ℕ → EngineBridge → EngineBridge
start_timeout n b = record b { awaiting_ready = filter (λ k. not (k == n)) b.awaiting_ready }

-- `emit('engine.ready')`: each start that waits is resolved, and sets `started`.
unfoldable pub on_ready : EngineBridge → EngineBridge
on_ready b =
    emit BridgeEvent.engine_ready
      (record b { awaiting_ready = []; started = b.started || not (is_empty b.awaiting_ready) })

-- `reject` of each pending call, in turn.
unfoldable pub reject_all : Option ℕ → List Text → List (Text × Outcome)
reject_all code [] = []
reject_all code (id ∷ ids) =
    (id, Outcome.rejected (Failure.process_exited code)) ∷ reject_all code ids

-- The listener of the exit of a process, of whichever one.
unfoldable pub on_exit : Option ℕ → EngineBridge → EngineBridge
on_exit code b = record (emit (BridgeEvent.exit code) b) {
  settled = b.settled ++ reject_all code b.pending;
  pending = [];
  proc = none;
  started = false;
}

unfoldable pub handle_notification : RpcNotification → EngineBridge → EngineBridge
handle_notification RpcNotification.engine_ready b = on_ready b
handle_notification (RpcNotification.gossip_received topic payload peer) b =
    emit (BridgeEvent.gossip_received topic payload peer) b
handle_notification (RpcNotification.neighbor_up topic peer) b =
    emit (BridgeEvent.neighbor_up topic peer) b
handle_notification (RpcNotification.peer_connected params) b =
    emit (BridgeEvent.peer_connected params) b
handle_notification (RpcNotification.peer_disconnected params) b =
    emit (BridgeEvent.peer_disconnected params) b
handle_notification (RpcNotification.mail_received envelope peer) b =
    emit (BridgeEvent.mail_received envelope peer) b
handle_notification (RpcNotification.browse_request id peer collection since limit) b =
    emit (BridgeEvent.browse_request id peer collection since limit) b
handle_notification (RpcNotification.other method params) b =
    emit (BridgeEvent.other method params) b

abbrev pub outcome_of : RpcResponse → Outcome
outcome_of r = elim r.error [
  | none ↦ Outcome.resolved r.result
  | some e ↦ let (code, message) = e in Outcome.rejected (Failure.rpc_error code message)
]

-- A response to no pending call is logged.
unfoldable pub handle_response : RpcResponse → EngineBridge → EngineBridge
handle_response r b =
    if includes b.pending r.id
    then record b {
      pending = remove r.id b.pending;
      settled = b.settled ++ (r.id, outcome_of r) ∷ [];
    }
    else b

unfoldable pub handle_line : Line → EngineBridge → EngineBridge
handle_line Line.ignored b = b
handle_line (Line.notification n) b = handle_notification n b
handle_line (Line.response r) b = handle_response r b

-- `call`, with the id that `randomUUID` gives; without a process it throws.
unfoldable pub call_process : Option ℕ → Text → Request → EngineBridge → EngineBridge × Bool
call_process none id request b = (b, false)
call_process (some n) id request b =
    (record b { pending = add id b.pending; written = b.written ++ (id, request) ∷ [] }, true)

unfoldable pub call : Text → Request → EngineBridge → EngineBridge × Bool
call id request b = call_process b.proc id request b

-- The callback of a write that failed; to reject a promise that is settled already does nothing.
unfoldable pub on_write_error : Text → EngineBridge → EngineBridge
on_write_error id b =
    if includes b.pending id
    then record b {
      pending = remove id b.pending;
      settled = b.settled ++ (id, Outcome.rejected Failure.write_failed) ∷ [];
    }
    else b

-- `stop` up to its call, and from the end of the call on, which throws if the process has exited by then.
unfoldable pub stop : Text → EngineBridge → EngineBridge × Bool
stop id b = call id (record { method = codes "engine.stop"; params = [] }) b

unfoldable pub kill : Option ℕ → EngineBridge → EngineBridge × Bool
kill none b = (b, false)
kill (some n) b = (record b { proc = none; started = false }, true)

unfoldable pub finish_stop : EngineBridge → EngineBridge × Bool
finish_stop b = kill b.proc b

-- `this.nodeId = result.nodeId`, at the end of `engineStart`.
unfoldable pub set_node_id : Text → EngineBridge → EngineBridge
set_node_id id b = record b { node_id = some id }

abbrev pub is_running : EngineBridge → Bool
is_running b = elim b.proc [ none ↦ false | some n ↦ b.started ]

-- What happens to a bridge: calls from the program, and events of the process and of the timers.
pub data Input : Type 0 where
  starts : Bool → Input
  times_out : ℕ → Input
  prints : Line → Input
  calls : Text → Request → Input
  fails_to_write : Text → Input
  exits : Option ℕ → Input
  stops : Text → Input
  finishes_stop : Input
  learns_node_id : Text → Input

unfoldable pub input : Input → EngineBridge → EngineBridge
input (Input.starts exists) b = (start exists b).0
input (Input.times_out n) b = start_timeout n b
input (Input.prints line) b = handle_line line b
input (Input.calls id request) b = (call id request b).0
input (Input.fails_to_write id) b = on_write_error id b
input (Input.exits code) b = on_exit code b
input (Input.stops id) b = (stop id b).0
input Input.finishes_stop b = (finish_stop b).0
input (Input.learns_node_id id) b = set_node_id id b

unfoldable pub run : List Input → EngineBridge → EngineBridge
run [] b = b
run (i ∷ inputs) b = run inputs (input i b)
