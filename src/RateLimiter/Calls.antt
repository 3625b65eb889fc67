-- ===== src/RateLimiter/Calls.antt =====
-- A schedule of the limiter's callers, and what every schedule keeps. `attempt` is the pair of calls
-- that checkIngestSecurity of packages/daemon/src/api.ts makes for an unsigned chunk: `check`, then `record`
-- if it returned true. For a signed chunk the code awaits an import between the two, and other calls may
-- come in between: `begin` is the check, `enter` the record, and `give_up` an end without a record.
-- `peek` is a `check` that no `record` follows. `reset` is not among the calls: it forgets the events of
-- the peer.
use subspace_transceiver.Prelude.{
  ℕ, suc, ◌-◌, ◌≤◌, ◌≡◌, Bool, true, List, [], ◌∷◌, ◌++◌, if◌then◌else◌, ◌&&◌,
}
use subspace_transceiver.Prelude.Text.{Text, text_eq}
use subspace_transceiver.RateLimiter.{
  RateLimiter, check, record_event, soft_ban, is_banned, get_count,
}

pub data Call : Type 0 where
  attempt : Text → (now : ℕ) → Call
  begin : Text → (now : ℕ) → Call
  enter : Text → (now : ℕ) → Call
  give_up : Text → (now : ℕ) → Call
  peek : Text → (now : ℕ) → Call
  ban : Text → (duration_ms now : ℕ) → Call
  ask_ban : Text → (now : ℕ) → Call
  ask_count : Text → (now : ℕ) → Call

abbrev pub time_of : Call → ℕ
time_of (attempt peer now) = now
time_of (begin peer now) = now
time_of (enter peer now) = now
time_of (give_up peer now) = now
time_of (peek peer now) = now
time_of (ban peer duration_ms now) = now
time_of (ask_ban peer now) = now
time_of (ask_count peer now) = now

abbrev pub peer_of : Call → Text
peer_of (attempt peer now) = peer
peer_of (begin peer now) = peer
peer_of (enter peer now) = peer
peer_of (give_up peer now) = peer
peer_of (peek peer now) = peer
peer_of (ban peer duration_ms now) = peer
peer_of (ask_ban peer now) = peer
peer_of (ask_count peer now) = peer

-- The clock does not go back.
abbrev pub IsOrdered : ℕ → List Call → Type 0
IsOrdered last [] = Unit
IsOrdered last (c ∷ cs) = (last ≤ time_of c) × IsOrdered (time_of c) cs

abbrev pub attempt_at : RateLimiter → Text → ℕ → RateLimiter × Bool
attempt_at l peer now =
    let (l', allowed) = check l peer now in
    (if allowed then record_event l' peer now else l', allowed)

abbrev pub step : RateLimiter → Call → RateLimiter
step l (attempt peer now) = (attempt_at l peer now).0
step l (begin peer now) = (check l peer now).0
step l (enter peer now) = record_event l peer now
step l (give_up peer now) = l
step l (peek peer now) = (check l peer now).0
step l (ban peer duration_ms now) = soft_ban l peer duration_ms now
step l (ask_ban peer now) = (is_banned l peer now).0
step l (ask_count peer now) = (get_count l peer now).0

-- The instants that one call records for a peer.
abbrev pub recorded : RateLimiter → Text → Call → List ℕ
recorded l peer (attempt p now) = if text_eq p peer && (attempt_at l p now).1 then now ∷ [] else []
recorded l peer (enter p now) = if text_eq p peer then now ∷ [] else []
recorded l peer _ = []

-- How many checks of the peer that returned true are open after a call, of those that were before it.
abbrev pub held_own : RateLimiter → ℕ → Call → ℕ
held_own l held (begin p now) = if (check l p now).1 then suc held else held
held_own l held (enter p now) = held - 1
held_own l held (give_up p now) = held - 1
held_own l held _ = held

abbrev pub held_after : RateLimiter → Text → ℕ → Call → ℕ
held_after l peer held c = if text_eq (peer_of c) peer then held_own l held c else held

-- A check is made while at most `others` are open, and only an open one ends.
abbrev pub Fits : ℕ → ℕ → Call → Type 0
Fits others held (attempt p now) = held ≤ others
Fits others held (begin p now) = held ≤ others
Fits others held (enter p now) = 1 ≤ held
Fits others held (give_up p now) = 1 ≤ held
Fits others held _ = Unit

-- Whenever the schedule checks the peer, at most `others` checks of the peer are open.
abbrev pub Overlaps : ℕ → Text → RateLimiter → ℕ → List Call → Type 0
Overlaps others peer l held [] = Unit
Overlaps others peer l held (c ∷ cs) =
    (text_eq (peer_of c) peer ≡ true → Fits others held c)
    × Overlaps others peer (step l c) (held_after l peer held c) cs

-- The instants at which a schedule records an event of the peer.
unfoldable pub history : RateLimiter → Text → List Call → List ℕ
history l peer [] = []
history l peer (c ∷ cs) = recorded l peer c ++ history (step l c) peer cs
