-- ===== src/RateLimiter/Ban.antt =====
-- A soft ban, before and after it expires.
use subspace_transceiver.Prelude.{ℕ, ◌+◌, ◌<◌, ◌≡◌, true, false, ltb, if◌then◌else◌, arith}
use subspace_transceiver.Prelude.Dict
use subspace_transceiver.Prelude.Text.{Text}
use subspace_transceiver.RateLimiter.{
  PeerWindow, RateLimiter, get_or_create, count_window, check_window, check, soft_ban, is_banned,
  prune,
}
use subspace_transceiver.RateLimiter.Others.{get_or_create-put_self}

-- The window that `softBan` leaves.
abbrev banned : RateLimiter → Text → ℕ → PeerWindow
banned l peer until = record (get_or_create l peer) { soft_banned = true; banned_until = until }

-- After `softBan` for a duration, at any later instant: until the ban expires `check` refuses,
-- `isBanned` answers true and `check` leaves the peer's window as the ban left it; from the expiry
-- on, `isBanned` answers false and `check` answers as it would have with no ban.
pub check-soft_ban :
    (l : RateLimiter) (peer : Text) (duration_ms now later : ℕ)
    → ((is_banned (soft_ban l peer duration_ms now) peer later).1 ≡ ltb later (now + duration_ms))
      × ((check (soft_ban l peer duration_ms now) peer later).1 ≡ (
          if ltb later (now + duration_ms)
          then false
          else (count_window l later (get_or_create l peer)).1))
      × (later < now + duration_ms
          → get_or_create (check (soft_ban l peer duration_ms now) peer later).0 peer
            ≡ get_or_create (soft_ban l peer duration_ms now) peer)
unfolding soft_ban check is_banned check_window prune
check-soft_ban l peer duration_ms now later = (
  ground (arith, Dict.get-set_self peer (banned l peer (now + duration_ms)) l.peers),
  ground (arith, Dict.get-set_self peer (banned l peer (now + duration_ms)) l.peers),
  λ h. ground (
    arith,
    Dict.get-set_self peer (banned l peer (now + duration_ms)) l.peers,
    get_or_create-put_self (soft_ban l peer duration_ms now) peer
        (banned l peer (now + duration_ms)),
  ),
)
