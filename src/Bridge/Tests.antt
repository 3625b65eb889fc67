-- ===== src/Bridge/Tests.antt =====
-- A bridge that is started, asked, stopped and started again, and the theorems at concrete inputs.
use subspace_transceiver.Prelude.{
  ◌≤◌, ◌≡◌, refl, subst, Bool-cases, true, false, List, [], ◌∷◌, none, some, Elem, inl, inr, arith,
}
use subspace_transceiver.Prelude.Sets.{includes, add, remove}
use subspace_transceiver.Prelude.Text.{Text, codes, text_eq, text_eq_iff}
use subspace_transceiver.Bridge.Requests.{Param, engine_node_id, peer_list, engine_start}
use subspace_transceiver.Bridge.{
  Failure, Outcome, Line, RpcNotification, RpcResponse, new_bridge, start, on_ready, reject_all,
  on_exit, handle_notification, handle_response, handle_line, call_process, call, stop, kill,
  finish_stop, Input, input, run,
}
use subspace_transceiver.Bridge.Settled.{
  occurs, asks, asks_all, sent_ids, settled_ids, Accounted, run-Accounted, run-exits,
}
use subspace_transceiver.Bridge.Answers.{run-resolved}

abbrev ready : Input
ready = Input.prints (Line.notification RpcNotification.engine_ready)

abbrev answer : RpcResponse
answer = record { id = codes "a"; result = Param.text (codes "node"); error = none }

-- One call that is answered, and one that is not.
abbrev asked : List Input
asked =
    Input.starts true
    ∷ ready
    ∷ Input.calls (codes "a") engine_node_id
    ∷ Input.calls (codes "b") peer_list
    ∷ Input.prints (Line.response answer)
    ∷ []

bridges : Unit {0}
unfolding start on_ready reject_all on_exit handle_notification handle_response handle_line
    call_process call stop kill finish_stop input run new_bridge includes add remove text_eq asks
    asks_all occurs engine_node_id peer_list
bridges = tt

distinct : (id : Text) → occurs id (asks_all asked) ≤ 1
unfolding asks asks_all occurs text_eq
distinct id = elim (Bool-cases (text_eq (codes "a") id)) [
  | inl t ↦
      subst (λ i. occurs i (asks_all asked) ≤ 1) ((text_eq_iff (codes "a") id).0 t) (omega arith)
  | inr f ↦ ground (arith, f)
]

run-Accounted_example : Accounted (run asked new_bridge)
run-Accounted_example = run-Accounted asked distinct

run-exits_example :
    let b = input (Input.exits (some 1)) (run asked new_bridge) in
    (b.pending ≡ []) × (occurs (codes "b") (settled_ids b) ≡ occurs (codes "b") (sent_ids b))
run-exits_example = run-exits asked (some 1) (codes "b") distinct

run-resolved_example :
    (r : RpcResponse) × Elem (Input.prints (Line.response r)) asked
    × (r.id ≡ codes "a")
    × (r.error ≡ none)
    × (r.result ≡ Param.text (codes "node"))
unfolding bridges
run-resolved_example = run-resolved asked (codes "a") (Param.text (codes "node")) (inl refl)

-- The exit of a process that was stopped comes after the start of the next one, and ends the calls of that
-- one.
late_exit :
    let b =
      run
        (Input.starts true
          ∷ ready
          ∷ Input.finishes_stop
          ∷ Input.starts true
          ∷ ready
          ∷ Input.calls (codes "c") peer_list
          ∷ Input.exits (some 0)
          ∷ [])
        new_bridge in
    (b.settled ≡ (codes "c", Outcome.rejected (Failure.process_exited (some 0))) ∷ [])
    × (b.proc ≡ none)
    × (b.started ≡ false)
unfolding bridges
late_exit = (refl, refl, refl)

-- The engine exits before `stop` goes on, which then throws.
stop_throws :
    (finish_stop (
      run
        (Input.starts true ∷ ready ∷ Input.stops (codes "s") ∷ Input.exits (some 0) ∷ [])
        new_bridge)).1
    ≡ false
unfolding bridges
stop_throws = refl

relay_left_out :
    (engine_start (codes "ab") (some [])).params ≡ (codes "seed_hex", Param.text (codes "ab")) ∷ []
unfolding engine_start
relay_left_out = refl
