-- ===== src/Bridge/Answers.antt =====
-- packages/core/src/engine-bridge.ts: where the outcome of a call of EngineBridge comes from.
use subspace_transceiver.Prelude.{
  ℕ, ◌≡◌, refl, sym, ap, subst, Bool, true, false, if◌then◌else◌, List, [], ◌∷◌, ◌++◌, Option, none,
  some, Elem, Elem-append, inl, inr, ◌⊎◌,
}
use subspace_transceiver.Prelude.Sets.{includes, remove}
use subspace_transceiver.Prelude.Text.{Text}
use subspace_transceiver.Bridge.Requests.{Param, Request}
use subspace_transceiver.Bridge.{
  Failure, Outcome, Line, RpcNotification, RpcResponse, EngineBridge, new_bridge, start, Start,
  start_timeout, on_ready, reject_all, on_exit, handle_notification, outcome_of, handle_response,
  handle_line, call_process, call, on_write_error, stop, kill, finish_stop, set_node_id, Input,
  input, run,
}

-- What an input settles.
Settles : Input → Text → Outcome → Type 0
Settles (Input.prints (Line.response r)) id o = (r.id ≡ id) × (outcome_of r ≡ o)
Settles (Input.fails_to_write x) id o = (x ≡ id) × (Outcome.rejected Failure.write_failed ≡ o)
Settles (Input.exits code) id o = Outcome.rejected (Failure.process_exited code) ≡ o
Settles _ id o = ⊥

call_process-settled :
    (p : Option ℕ) (x : Text) (r : Request) (b : EngineBridge)
    → (call_process p x r b).0.settled ≡ b.settled
unfolding call_process
call_process-settled none x r b = refl
call_process-settled (some n) x r b = refl

kill-settled : (p : Option ℕ) (b : EngineBridge) → (kill p b).0.settled ≡ b.settled
unfolding kill
kill-settled none b = refl
kill-settled (some n) b = refl

if-settled :
    {R : Type 0} (c : Bool) (b : EngineBridge) (p q : EngineBridge × R)
    → p.0.settled ≡ b.settled
    → q.0.settled ≡ b.settled
    → (if c then p else q).0.settled ≡ b.settled
if-settled true b p q h k = h
if-settled false b p q h k = k

start-settled : (exists : Bool) (b : EngineBridge) → (start exists b).0.settled ≡ b.settled
unfolding start
start-settled exists b =
    if-settled b.started b (b, Start.already_started) _ refl
      (if-settled exists b _ (b, Start.not_found) refl refl)

handle_notification-settled :
    (n : RpcNotification) (b : EngineBridge) → (handle_notification n b).settled ≡ b.settled
unfolding handle_notification on_ready
handle_notification-settled RpcNotification.engine_ready b = refl
handle_notification-settled (RpcNotification.gossip_received t p f) b = refl
handle_notification-settled (RpcNotification.neighbor_up t f) b = refl
handle_notification-settled (RpcNotification.peer_connected p) b = refl
handle_notification-settled (RpcNotification.peer_disconnected p) b = refl
handle_notification-settled (RpcNotification.mail_received e f) b = refl
handle_notification-settled (RpcNotification.browse_request i f c s l) b = refl
handle_notification-settled (RpcNotification.other m p) b = refl

still :
    {E : Type 0} (id : Text) (o : Outcome) (xs ys : List (Text × Outcome))
    → xs ≡ ys
    → Elem (id, o) xs
    → Elem (id, o) ys ⊎ E
still id o xs ys e h = inl (subst (Elem (id, o)) e h)

settle_if_cases :
    (id x : Text) (o v : Outcome) (c : Bool) (b : EngineBridge)
    → Elem
        (id, o)
        (if c
          then record b { pending = remove x b.pending; settled = b.settled ++ (x, v) ∷ [] }
          else b).settled
    → Elem (id, o) b.settled ⊎ ((x ≡ id) × (v ≡ o))
settle_if_cases id x o v false b h = inl h
settle_if_cases id x o v true b h = elim (Elem-append (id, o) b.settled ((x, v) ∷ []) h) [
  | inl k ↦ inl k
  | inr k ↦ elim k [ inl e ↦ inr (sym (ap (λ p. p.0) e), sym (ap (λ p. p.1) e)) | inr n ↦ absurd n ]
]

reject_all-Elem :
    (code : Option ℕ) (ids : List Text) (id : Text) (o : Outcome)
    → Elem (id, o) (reject_all code ids)
    → Outcome.rejected (Failure.process_exited code) ≡ o
unfolding reject_all
reject_all-Elem code [] id o h = absurd h
reject_all-Elem code (x ∷ ids) id o (inl e) = sym (ap (λ p. p.1) e)
reject_all-Elem code (x ∷ ids) id o (inr h) = reject_all-Elem code ids id o h

input_cases :
    (i : Input) (b : EngineBridge) (id : Text) (o : Outcome)
    → Elem (id, o) (input i b).settled
    → Elem (id, o) b.settled ⊎ Settles i id o
unfolding input Settles handle_line handle_response on_write_error call stop finish_stop
    start_timeout set_node_id on_exit
input_cases (Input.starts exists) b id o h = still id o _ b.settled (start-settled exists b) h
input_cases (Input.times_out n) b id o h = inl h
input_cases (Input.prints Line.ignored) b id o h = inl h
input_cases (Input.prints (Line.notification n)) b id o h =
    still id o _ b.settled (handle_notification-settled n b) h
input_cases (Input.prints (Line.response r)) b id o h =
    settle_if_cases id r.id o (outcome_of r) (includes b.pending r.id) b h
input_cases (Input.calls x r) b id o h =
    still id o _ b.settled (call_process-settled b.proc x r b) h
input_cases (Input.fails_to_write x) b id o h =
    settle_if_cases id x o (Outcome.rejected Failure.write_failed) (includes b.pending x) b h
input_cases (Input.exits code) b id o h =
    elim (Elem-append (id, o) b.settled (reject_all code b.pending) h) [
      | inl k ↦ inl k
      | inr k ↦ inr (reject_all-Elem code b.pending id o k)
    ]
input_cases (Input.stops x) b id o h = still id o _ b.settled (call_process-settled b.proc x _ b) h
input_cases Input.finishes_stop b id o h = still id o _ b.settled (kill-settled b.proc b) h
input_cases (Input.learns_node_id x) b id o h = inl h

run_cases :
    (inputs : List Input) (b : EngineBridge) (id : Text) (o : Outcome)
    → Elem (id, o) (run inputs b).settled
    → Elem (id, o) b.settled ⊎ ((i : Input) × Elem i inputs × Settles i id o)
unfolding run
run_cases [] b id o h = inl h
run_cases (i ∷ inputs) b id o h = elim (run_cases inputs (input i b) id o h) [
  | inr (j, at, s) ↦ inr (j, inr at, s)
  | inl k ↦ elim (input_cases i b id o k) [ inl m ↦ inl m | inr s ↦ inr (i, inl refl, s) ]
]

resolved_by :
    (i : Input) (id : Text) (v : Param)
    → Settles i id (Outcome.resolved v)
    → (r : RpcResponse) × (i ≡ Input.prints (Line.response r))
      × (r.id ≡ id)
      × (r.error ≡ none)
      × (r.result ≡ v)
unfolding Settles
resolved_by (Input.prints (Line.response r)) id v (e, f) =
    let (clear, same) = answered r.error r.result v f in (r, refl, e, clear, same)
  where
    answered :
        (error : Option (ℕ × Text)) (result v : Param)
        → outcome_of (record { id = r.id; result = result; error = error }) ≡ Outcome.resolved v
        → (error ≡ none) × (result ≡ v)
    answered none result v f = (refl, cc)
    answered (some (code, message)) result v f = cc
resolved_by (Input.starts exists) id v s = absurd s
resolved_by (Input.times_out n) id v s = absurd s
resolved_by (Input.prints Line.ignored) id v s = absurd s
resolved_by (Input.prints (Line.notification n)) id v s = absurd s
resolved_by (Input.calls x r) id v s = absurd s
resolved_by (Input.stops x) id v s = absurd s
resolved_by Input.finishes_stop id v s = absurd s
resolved_by (Input.learns_node_id x) id v s = absurd s
resolved_by (Input.fails_to_write x) id v (e, f) = cc
resolved_by (Input.exits code) id v s = cc

-- A call of a bridge is resolved with a value only where the process has printed a response to the id of
-- that call, without an error and with that value.
pub run-resolved :
    (inputs : List Input) (id : Text) (v : Param)
    → Elem (id, Outcome.resolved v) (run inputs new_bridge).settled
    → (r : RpcResponse) × Elem (Input.prints (Line.response r)) inputs
      × (r.id ≡ id)
      × (r.error ≡ none)
      × (r.result ≡ v)
unfolding new_bridge
run-resolved inputs id v h = elim (run_cases inputs new_bridge id (Outcome.resolved v) h) [
  | inl none_yet ↦ absurd none_yet
  | inr (i, at, s) ↦
      let (r, is_response, e, clear, same) = resolved_by i id v s in
      (r, subst (λ j. Elem j inputs) is_response at, e, clear, same)
]
