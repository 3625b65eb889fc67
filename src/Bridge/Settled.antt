-- ===== src/Bridge/Settled.antt =====
-- packages/core/src/engine-bridge.ts: what becomes of the calls of EngineBridge.
use subspace_transceiver.Prelude.{
  ℕ, ◌+◌, ◌≤◌, ◌≡◌, refl, sym, ap, ◌∙◌, Bool, true, false, if◌then◌else◌, Bool-cases, List, [], ◌∷◌,
  ◌++◌, map, Option, none, some, inl, inr, arith,
}
use subspace_transceiver.Prelude.Sets.{includes, add, remove}
use subspace_transceiver.Prelude.Text.{Text, text_eq, text_eq_iff, text_eq_refl}
use subspace_transceiver.Bridge.Requests.{Request}
use subspace_transceiver.Bridge.{
  Failure, Outcome, Line, RpcNotification, EngineBridge, new_bridge, start, start_timeout, on_ready,
  reject_all, on_exit, handle_notification, outcome_of, handle_response, handle_line, call_process,
  call, on_write_error, stop, kill, finish_stop, set_node_id, Start, Input, input, run,
}

-- How often an id stands in a list.
unfoldable pub occurs : Text → List Text → ℕ
occurs id [] = 0
occurs id (x ∷ xs) = (if text_eq x id then 1 else 0) + occurs id xs

occurs-append : (id : Text) (xs ys : List Text) → occurs id (xs ++ ys) ≡ occurs id xs + occurs id ys
unfolding occurs
occurs-append id [] ys = omega arith
occurs-append id (x ∷ xs) ys = omega (arith, occurs-append id xs ys)

occurs-remove :
    (id x : Text) (xs : List Text)
    → occurs id (remove x xs) ≡ (if text_eq x id then 0 else occurs id xs)
unfolding occurs remove
occurs-remove id x [] = ground arith
occurs-remove id x (y ∷ xs) =
    ground (arith, occurs-remove id x xs, text_eq_iff x id, text_eq_iff y x, text_eq_iff y id)

occurs-includes : (id : Text) (xs : List Text) → includes xs id ≡ true → 1 ≤ occurs id xs
unfolding occurs includes
occurs-includes id [] h = absurd (ground arith)
occurs-includes id (x ∷ xs) h = ground (arith, occurs-includes id xs)

occurs-add :
    (id x : Text) (xs : List Text)
    → occurs x xs ≡ 0
    → occurs id (add x xs) ≡ occurs id xs + (if text_eq x id then 1 else 0)
unfolding occurs add
occurs-add id x [] h = ground arith
occurs-add id x (y ∷ xs) h = elim (Bool-cases (text_eq y x)) [
  | inl t ↦ absurd (ground (arith, t, h))
  | inr f ↦ rw f (omega (arith, occurs-add id x xs (ground (arith, f, h))))
]

-- The ids of the calls that were sent, and of those that are settled.
abbrev pub sent_ids : EngineBridge → List Text
sent_ids b = map (λ w. w.0) b.written

abbrev pub settled_ids : EngineBridge → List Text
settled_ids b = map (λ w. w.0) b.settled

map-append : {A : Type 0} (f : A → Text) (xs ys : List A) → map f (xs ++ ys) ≡ map f xs ++ map f ys
map-append f [] ys = refl
map-append f (x ∷ xs) ys = ap (λ zs. f x ∷ zs) (map-append f xs ys)

occurs-last :
    {B : Type 0} (id x : Text) (v : B) (xs : List (Text × B))
    → occurs id (map (λ w. w.0) (xs ++ (x, v) ∷ []))
      ≡ occurs id (map (λ w. w.0) xs) + (if text_eq x id then 1 else 0)
unfolding occurs
occurs-last id x v xs =
    ap (occurs id) (map-append (λ w. w.0) xs ((x, v) ∷ []))
    ∙ omega (arith, occurs-append id (map (λ w. w.0) xs) (x ∷ []))

-- Each call that was sent is pending or settled, and no call is twice the one or once each.
pub record Accounted (b : EngineBridge) : Type 0 where
  pub each : (id : Text) → occurs id (sent_ids b) ≡ occurs id b.pending + occurs id (settled_ids b)
  pub once : (id : Text) → occurs id (sent_ids b) ≤ 1

settle-Accounted :
    (x : Text) (o : Outcome) (b : EngineBridge)
    → includes b.pending x ≡ true
    → Accounted b
    → Accounted (record b { pending = remove x b.pending; settled = b.settled ++ (x, o) ∷ [] })
settle-Accounted x o b p h = record {
  each = λ id. elim (Bool-cases (text_eq x id)) [
    | inl t ↦
        let same = (text_eq_iff x id).0 t in
        let there = occurs-includes id b.pending (ap (includes b.pending) (sym same) ∙ p) in
        ground (
          arith,
          t,
          occurs-remove id x b.pending,
          occurs-last id x o b.settled,
          h.each id,
          h.once id,
          there,
        )
    | inr f ↦
        ground (arith, f, occurs-remove id x b.pending, occurs-last id x o b.settled, h.each id)
  ];
  once = h.once;
}

reject_all-ids : (code : Option ℕ) (ids : List Text) → map (λ w. w.0) (reject_all code ids) ≡ ids
unfolding reject_all
reject_all-ids code [] = refl
reject_all-ids code (id ∷ ids) = ap (λ xs. id ∷ xs) (reject_all-ids code ids)

on_exit-Accounted : (code : Option ℕ) (b : EngineBridge) → Accounted b → Accounted (on_exit code b)
unfolding on_exit occurs
on_exit-Accounted code b h = record {
  each = λ id. omega (
    arith,
    h.each id,
    ap (occurs id) (map-append (λ w. w.0) b.settled (reject_all code b.pending)),
    occurs-append id (settled_ids b) (map (λ w. w.0) (reject_all code b.pending)),
    ap (occurs id) (reject_all-ids code b.pending),
  );
  once = h.once;
}

call_process-Accounted :
    (o : Option ℕ) (x : Text) (r : Request) (b : EngineBridge)
    → occurs x (sent_ids b) ≡ 0
    → Accounted b
    → Accounted (call_process o x r b).0
unfolding call_process
call_process-Accounted none x r b fresh h = h
call_process-Accounted (some n) x r b fresh h = record {
  each = λ id. omega (
    arith,
    h.each id,
    occurs-last id x r b.written,
    occurs-add id x b.pending (omega (arith, h.each x)),
  );
  once = λ id. elim (Bool-cases (text_eq x id)) [
    | inl t ↦
        let none_yet = ap (λ y. occurs y (sent_ids b)) (sym ((text_eq_iff x id).0 t)) ∙ fresh in
        ground (arith, t, occurs-last id x r b.written, none_yet)
    | inr f ↦ ground (arith, f, occurs-last id x r b.written, h.once id)
  ];
}

-- Where only other fields differ.
abbrev SameCalls : EngineBridge → EngineBridge → Type 0
SameCalls b b' = (b.pending ≡ b'.pending) × (b.written ≡ b'.written) × (b.settled ≡ b'.settled)

same-Accounted : (b b' : EngineBridge) → SameCalls b b' → Accounted b → Accounted b'
same-Accounted b b' (p, w, s) h = record {
  each = λ id.
      sym (ap (λ l. occurs id (map (λ x. x.0) l)) w)
      ∙ h.each id
      ∙ ap (λ l. occurs id l + occurs id (settled_ids b)) p
      ∙ ap (λ l. occurs id b'.pending + occurs id (map (λ x. x.0) l)) s;
  once = λ id. omega (arith, h.once id, ap (λ l. occurs id (map (λ x. x.0) l)) w);
}

-- The id of a call that an input makes.
unfoldable pub asks : Input → List Text
asks (Input.calls id request) = id ∷ []
asks (Input.stops id) = id ∷ []
asks _ = []

unfoldable pub asks_all : List Input → List Text
asks_all [] = []
asks_all (i ∷ inputs) = asks i ++ asks_all inputs

if-SameCalls :
    {R : Type 0} (c : Bool) (b : EngineBridge) (p q : EngineBridge × R)
    → SameCalls b p.0
    → SameCalls b q.0
    → SameCalls b (if c then p else q).0
if-SameCalls true b p q h k = h
if-SameCalls false b p q h k = k

start-SameCalls : (exists : Bool) (b : EngineBridge) → SameCalls b (start exists b).0
unfolding start
start-SameCalls exists b =
    if-SameCalls b.started b (b, Start.already_started) _ (refl, refl, refl)
      (if-SameCalls exists b _ (b, Start.not_found) (refl, refl, refl) (refl, refl, refl))

kill-SameCalls : (o : Option ℕ) (b : EngineBridge) → SameCalls b (kill o b).0
unfolding kill
kill-SameCalls none b = (refl, refl, refl)
kill-SameCalls (some n) b = (refl, refl, refl)

handle_notification-SameCalls :
    (n : RpcNotification) (b : EngineBridge) → SameCalls b (handle_notification n b)
unfolding handle_notification on_ready
handle_notification-SameCalls RpcNotification.engine_ready b = (refl, refl, refl)
handle_notification-SameCalls (RpcNotification.gossip_received t p f) b = (refl, refl, refl)
handle_notification-SameCalls (RpcNotification.neighbor_up t f) b = (refl, refl, refl)
handle_notification-SameCalls (RpcNotification.peer_connected p) b = (refl, refl, refl)
handle_notification-SameCalls (RpcNotification.peer_disconnected p) b = (refl, refl, refl)
handle_notification-SameCalls (RpcNotification.mail_received e f) b = (refl, refl, refl)
handle_notification-SameCalls (RpcNotification.browse_request i f c s l) b = (refl, refl, refl)
handle_notification-SameCalls (RpcNotification.other m p) b = (refl, refl, refl)

settle_if-Accounted :
    (x : Text) (o : Outcome) (b : EngineBridge)
    → Accounted b
    → Accounted (
        if includes b.pending x
        then record b { pending = remove x b.pending; settled = b.settled ++ (x, o) ∷ [] }
        else b)
settle_if-Accounted x o b h = choose (includes b.pending x) refl
  where
    choose :
        (c : Bool)
        → includes b.pending x ≡ c
        → Accounted (
            if c
            then record b { pending = remove x b.pending; settled = b.settled ++ (x, o) ∷ [] }
            else b)
    choose true e = settle-Accounted x o b e h
    choose false e = h

first_time :
    (x : Text) (b : EngineBridge)
    → occurs x (sent_ids b) + occurs x (x ∷ []) ≤ 1
    → occurs x (sent_ids b) ≡ 0
unfolding occurs
first_time x b h = ground (arith, text_eq_refl x)

input-Accounted :
    (i : Input) (b : EngineBridge)
    → ((id : Text) → occurs id (sent_ids b) + occurs id (asks i) ≤ 1)
    → Accounted b
    → Accounted (input i b)
unfolding input asks occurs handle_line handle_response on_write_error call stop finish_stop
    start_timeout set_node_id
input-Accounted (Input.starts exists) b once h =
    same-Accounted b (start exists b).0 (start-SameCalls exists b) h
input-Accounted (Input.times_out n) b once h =
    same-Accounted b (start_timeout n b) (refl, refl, refl) h
input-Accounted (Input.prints Line.ignored) b once h = h
input-Accounted (Input.prints (Line.notification n)) b once h =
    same-Accounted b (handle_notification n b) (handle_notification-SameCalls n b) h
input-Accounted (Input.prints (Line.response r)) b once h =
    settle_if-Accounted r.id (outcome_of r) b h
input-Accounted (Input.calls x r) b once h =
    call_process-Accounted b.proc x r b (first_time x b (once x)) h
input-Accounted (Input.fails_to_write x) b once h =
    settle_if-Accounted x (Outcome.rejected Failure.write_failed) b h
input-Accounted (Input.exits code) b once h = on_exit-Accounted code b h
input-Accounted (Input.stops x) b once h =
    call_process-Accounted b.proc x _ b (first_time x b (once x)) h
input-Accounted Input.finishes_stop b once h =
    same-Accounted b (kill b.proc b).0 (kill-SameCalls b.proc b) h
input-Accounted (Input.learns_node_id x) b once h =
    same-Accounted b (set_node_id x b) (refl, refl, refl) h

settle_if-sent :
    (id x : Text) (o : Outcome) (c : Bool) (b : EngineBridge)
    → occurs id (
        sent_ids (
          if c
          then record b { pending = remove x b.pending; settled = b.settled ++ (x, o) ∷ [] }
          else b))
      ≤ occurs id (sent_ids b) + 0
settle_if-sent id x o true b = omega arith
settle_if-sent id x o false b = omega arith

call_process-sent :
    (o : Option ℕ) (id x : Text) (r : Request) (b : EngineBridge)
    → occurs id (sent_ids (call_process o x r b).0) ≤ occurs id (sent_ids b) + occurs id (x ∷ [])
unfolding call_process occurs
call_process-sent none id x r b = omega arith
call_process-sent (some n) id x r b = omega (arith, occurs-last id x r b.written)

same-sent :
    (id : Text) (b b' : EngineBridge)
    → SameCalls b b'
    → occurs id (sent_ids b') ≤ occurs id (sent_ids b) + 0
same-sent id b b' (p, w, s) = omega (arith, ap (λ l. occurs id (map (λ x. x.0) l)) w)

-- An input sends no call but the one that it makes.
input-sent :
    (i : Input) (id : Text) (b : EngineBridge)
    → occurs id (sent_ids (input i b)) ≤ occurs id (sent_ids b) + occurs id (asks i)
unfolding input asks occurs handle_line handle_response on_write_error call stop finish_stop
    start_timeout set_node_id on_exit
input-sent (Input.starts exists) id b = same-sent id b (start exists b).0 (start-SameCalls exists b)
input-sent (Input.times_out n) id b = omega arith
input-sent (Input.prints Line.ignored) id b = omega arith
input-sent (Input.prints (Line.notification n)) id b =
    same-sent id b (handle_notification n b) (handle_notification-SameCalls n b)
input-sent (Input.prints (Line.response r)) id b =
    settle_if-sent id r.id (outcome_of r) (includes b.pending r.id) b
input-sent (Input.calls x r) id b = call_process-sent b.proc id x r b
input-sent (Input.fails_to_write x) id b =
    settle_if-sent id x (Outcome.rejected Failure.write_failed) (includes b.pending x) b
input-sent (Input.exits code) id b = omega arith
input-sent (Input.stops x) id b = call_process-sent b.proc id x _ b
input-sent Input.finishes_stop id b = same-sent id b (kill b.proc b).0 (kill-SameCalls b.proc b)
input-sent (Input.learns_node_id x) id b = omega arith

run_from-Accounted :
    (inputs : List Input) (b : EngineBridge)
    → ((id : Text) → occurs id (sent_ids b) + occurs id (asks_all inputs) ≤ 1)
    → Accounted b
    → Accounted (run inputs b)
unfolding run asks_all
run_from-Accounted [] b once h = h
run_from-Accounted (i ∷ inputs) b once h =
    run_from-Accounted inputs (input i b)
      (λ id. omega (arith, once id, input-sent i id b, occurs-append id (asks i) (asks_all inputs)))
      (input-Accounted i b
        (λ id. omega (arith, once id, occurs-append id (asks i) (asks_all inputs))) h)

-- Whatever happens to a bridge, if no id is given to two calls, then each call that was sent is either
-- pending, once, or settled, once.
pub run-Accounted :
    (inputs : List Input)
    → ((id : Text) → occurs id (asks_all inputs) ≤ 1)
    → Accounted (run inputs new_bridge)
unfolding new_bridge occurs
run-Accounted inputs once =
    run_from-Accounted inputs new_bridge (λ id. omega (arith, once id))
      (record { each = λ id. omega arith; once = λ id. omega arith })

-- Whatever has happened to a bridge, if no id is given to two calls, then once the process exits every
-- call that was sent is settled, exactly once.
pub run-exits :
    (inputs : List Input) (code : Option ℕ) (id : Text)
    → ((i : Text) → occurs i (asks_all inputs) ≤ 1)
    → let b = input (Input.exits code) (run inputs new_bridge) in
      (b.pending ≡ []) × (occurs id (settled_ids b) ≡ occurs id (sent_ids b))
unfolding input on_exit occurs
run-exits inputs code id once =
    let h = on_exit-Accounted code (run inputs new_bridge) (run-Accounted inputs once) in
    (refl, omega (arith, h.each id))
