-- ===== src/RateLimiter/Tests.antt =====
-- Runs of the limiter, and its theorems at concrete inputs.
use subspace_transceiver.Prelude.{◌+◌, ◌≤◌, ◌≡◌, refl, List, [], ◌∷◌, arith}
use subspace_transceiver.Prelude.Dict
use subspace_transceiver.Prelude.Text.{Text, codes, text_eq}
use subspace_transceiver.RateLimiter.{
  RateLimiter, new_limiter, prune, check_window, check, record_event, soft_ban, is_banned,
  get_count,
}
use subspace_transceiver.RateLimiter.Window.{count_in}
use subspace_transceiver.RateLimiter.Calls.{
  Call, attempt, begin, enter, give_up, peek, Overlaps, ban, ask_ban, ask_count, history,
}
use subspace_transceiver.RateLimiter.Bound.{history-bound}

limiter : Unit {0}
unfolding new_limiter check record_event soft_ban is_banned get_count prune Dict.get Dict.set
    text_eq history
limiter = tt

abbrev ann : Text
ann = codes "ann"

abbrev busy : List Call
busy =
    attempt ann 10
    ∷ attempt ann 12
    ∷ attempt (codes "bob") 13
    ∷ attempt ann 15
    ∷ attempt ann 20
    ∷ attempt ann 21
    ∷ ask_count ann 22
    ∷ ban ann 100 23
    ∷ attempt ann 90
    ∷ ask_ban ann 123
    ∷ attempt ann 123
    ∷ []

busy-history : history (new_limiter 2 10) ann busy ≡ 10 ∷ 12 ∷ 21 ∷ 123 ∷ []
unfolding limiter check_window
busy-history = refl

-- Two checks that are open at once: the second event is recorded beside the first, in a limiter that
-- allows one.
abbrev racing : List Call
racing =
    begin ann 10
    ∷ begin ann 11
    ∷ begin (codes "bob") 11
    ∷ enter ann 12
    ∷ peek ann 12
    ∷ enter ann 13
    ∷ give_up (codes "bob") 14
    ∷ attempt ann 15
    ∷ []

racing-history : history (new_limiter 1 10) ann racing ≡ 12 ∷ 13 ∷ []
unfolding limiter check_window
racing-history = refl

racing-Overlaps : Overlaps 1 ann (new_limiter 1 10) 0 racing
unfolding limiter check_window
racing-Overlaps = (
  λ e. omega arith,
  (
    λ e. omega arith,
    (λ e. cc, (λ e. omega arith, (λ e. tt, (λ e. omega arith, (λ e. cc, (λ e. omega arith, tt)))))),
  ),
)

history-bound_example : count_in 10 13 (history (new_limiter 1 10) ann racing) ≤ 1 + 1
history-bound_example = history-bound 1 10 1 ann racing 13 (omega arith) racing-Overlaps

abbrev used : RateLimiter
used = record_event (new_limiter 2 10) ann 4
