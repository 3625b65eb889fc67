-- ===== src/RateLimiter.antt =====
-- packages/core/src/rate-limiter.ts: the sliding-window limiter. `Date.now()` is the argument `now`;
-- a method returns the new limiter beside its result. The object that `getOrCreate` hands out is
-- the map's own, so each method writes it back.
pub mod Window
pub mod Calls
mod Others
pub mod Bound
pub mod Ban
mod Tests
use subspace_transceiver.Prelude.{
  ℕ, suc, zero, ◌+◌, Bool, true, false, List, [], ◌∷◌, ◌++◌, Option, none, some, ltb, leb, length,
  drop, if◌then◌else◌, or_else,
}
use subspace_transceiver.Prelude.Dict
use subspace_transceiver.Prelude.Text.{Text}

pub record PeerWindow : Type 0 where
  pub timestamps : List ℕ
  pub soft_banned : Bool
  pub banned_until : ℕ

pub record RateLimiter : Type 0 where
  pub max_per_window : ℕ
  pub window_ms : ℕ
  pub peers : List (Text × PeerWindow)

unfoldable pub new_limiter : ℕ → ℕ → RateLimiter
new_limiter max_per_window window_ms = record {
  max_per_window = max_per_window;
  window_ms = window_ms;
  peers = [];
}

abbrev pub fresh_window : PeerWindow
fresh_window = record { timestamps = []; soft_banned = false; banned_until = 0 }

unfoldable pub get_or_create : RateLimiter → Text → PeerWindow
get_or_create l peer = or_else (Dict.get peer l.peers) fresh_window

abbrev pub put_window : RateLimiter → Text → PeerWindow → RateLimiter
put_window l peer w = record l { peers = Dict.set peer w l.peers }

-- The loop of `prune`: how many timestamps in front are older than the cutoff `now - windowMs`.
unfoldable pub stale_count : ℕ → ℕ → List ℕ → ℕ
stale_count window_ms now [] = 0
stale_count window_ms now (t ∷ ts) =
    if ltb (t + window_ms) now then suc (stale_count window_ms now ts) else 0

unfoldable pub prune : ℕ → ℕ → PeerWindow → PeerWindow
unfolding stale_count
prune window_ms now w = record w {
  timestamps = drop (stale_count window_ms now w.timestamps) w.timestamps;
}

-- The end of `check`: the pruned window, and whether it has room.
unfoldable pub count_window : RateLimiter → ℕ → PeerWindow → PeerWindow × Bool
count_window l now w =
    let pruned = prune l.window_ms now w in
    (pruned, ltb (length pruned.timestamps) l.max_per_window)

-- `check` after `getOrCreate`
unfoldable pub check_window : RateLimiter → ℕ → PeerWindow → PeerWindow × Bool
unfolding count_window
check_window l now w =
    if w.soft_banned
    then (if ltb now w.banned_until
        then (w, false)
        else count_window l now (record w { soft_banned = false; banned_until = 0 }))
    else count_window l now w

unfoldable pub check : RateLimiter → Text → ℕ → RateLimiter × Bool
unfolding get_or_create
check l peer now =
    let (w, allowed) = check_window l now (get_or_create l peer) in (put_window l peer w, allowed)

-- The method `record`.
unfoldable pub record_event : RateLimiter → Text → ℕ → RateLimiter
unfolding get_or_create
record_event l peer now =
    let w = prune l.window_ms now (get_or_create l peer) in
    put_window l peer (record w { timestamps = w.timestamps ++ now ∷ [] })

unfoldable pub soft_ban : RateLimiter → Text → ℕ → ℕ → RateLimiter
unfolding get_or_create
soft_ban l peer duration_ms now =
    put_window l peer
      (record (get_or_create l peer) { soft_banned = true; banned_until = now + duration_ms })

-- `isBanned` lifts a ban that has expired.
unfoldable pub is_banned : RateLimiter → Text → ℕ → RateLimiter × Bool
is_banned l peer now = elim (Dict.get peer l.peers) [
  | none ↦ (l, false)
  | some w ↦
      if w.soft_banned
      then (if leb w.banned_until now
          then (put_window l peer (record w { soft_banned = false; banned_until = 0 }), false)
          else (l, true))
      else (l, false)
]

unfoldable pub get_count : RateLimiter → Text → ℕ → RateLimiter × ℕ
get_count l peer now = elim (Dict.get peer l.peers) [
  | none ↦ (l, 0)
  | some w ↦
      let pruned = prune l.window_ms now w in (put_window l peer pruned, length pruned.timestamps)
]

unfoldable pub reset : RateLimiter → Text → RateLimiter
reset l peer = record l { peers = Dict.delete peer l.peers }
