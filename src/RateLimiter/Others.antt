-- ===== src/RateLimiter/Others.antt =====
-- What a call does to the window of one peer, the limiter's bounds and the windows of the others.
use subspace_transceiver.Prelude.{ℕ, ◌≡◌, refl, false, [], arith, ◌⊎◌, Option-cases, inl, inr, ◌≢◌}
use subspace_transceiver.Prelude.Dict
use subspace_transceiver.Prelude.Text.{Text, text_eq_iff}
use subspace_transceiver.RateLimiter.{
  PeerWindow, RateLimiter, get_or_create, put_window, prune, check, record_event, soft_ban,
  is_banned, get_count,
}
use subspace_transceiver.RateLimiter.Calls.{
  Call, attempt, begin, enter, give_up, peek, ban, ask_ban, ask_count, peer_of, step, recorded,
}

pub get_or_create-put_self :
    (l : RateLimiter) (peer : Text) (u : PeerWindow) → get_or_create (put_window l peer u) peer ≡ u
unfolding get_or_create
get_or_create-put_self l peer u = rw (Dict.get-set_self peer u l.peers)

pub get_or_create-put_ne :
    (l : RateLimiter) (other peer : Text) (u : PeerWindow)
    → other ≢ peer
    → get_or_create (put_window l other u) peer ≡ get_or_create l peer
unfolding get_or_create
get_or_create-put_ne l other peer u h = rw (Dict.get-set_ne other peer u l.peers h)

pub config_same :
    (l : RateLimiter) (c : Call)
    → ((step l c).max_per_window ≡ l.max_per_window) × ((step l c).window_ms ≡ l.window_ms)
unfolding check record_event soft_ban is_banned get_count
config_same l (attempt p now) = ground arith
config_same l (begin p now) = ground arith
config_same l (enter p now) = ground arith
config_same l (give_up p now) = (refl, refl)
config_same l (peek p now) = ground arith
config_same l (ban p d now) = ground arith
config_same l (ask_ban p now) = ground arith
config_same l (ask_count p now) = ground arith

module _ (l : RateLimiter) (p peer : Text) (now : ℕ) (h : p ≢ peer) where
  check-other : get_or_create (check l p now).0 peer ≡ get_or_create l peer
  unfolding check
  check-other = get_or_create-put_ne l p peer _ h

  record_event-other : get_or_create (record_event l p now) peer ≡ get_or_create l peer
  unfolding record_event
  record_event-other = get_or_create-put_ne l p peer _ h

  is_banned-other : get_or_create (is_banned l p now).0 peer ≡ get_or_create l peer
  unfolding is_banned
  is_banned-other = elim (Option-cases (Dict.get p l.peers)) [
    | inl e ↦ rw (e, is_banned) refl
    | inr (u, e) ↦
        rw (e, is_banned)
          (ground (
            arith,
            get_or_create-put_ne l p peer (record u { soft_banned = false; banned_until = 0 }) h,
          ))
  ]

  get_count-other : get_or_create (get_count l p now).0 peer ≡ get_or_create l peer
  unfolding get_count
  get_count-other = elim (Option-cases (Dict.get p l.peers)) [
    | inl e ↦ rw (e, get_count) refl
    | inr (u, e) ↦ rw (e, get_count) (get_or_create-put_ne l p peer _ h)
  ]

pub is_banned-timestamps :
    (l : RateLimiter) (p : Text) (now : ℕ)
    → (get_or_create (is_banned l p now).0 p).timestamps ≡ (get_or_create l p).timestamps
unfolding is_banned get_or_create
is_banned-timestamps l p now = elim (Option-cases (Dict.get p l.peers)) [
  | inl e ↦ rw (e, is_banned) (rw e refl)
  | inr (u, e) ↦
      rw (e, is_banned)
        (ground
          (arith, Dict.get-set_self p (record u { soft_banned = false; banned_until = 0 }) l.peers))
]

-- `getCount` prunes what is there.
pub get_count_window :
    (l : RateLimiter) (p : Text) (now : ℕ)
    → ((get_or_create (get_count l p now).0 p).timestamps ≡ (get_or_create l p).timestamps)
      ⊎ ((get_or_create (get_count l p now).0 p).timestamps
          ≡ (prune l.window_ms now (get_or_create l p)).timestamps)
unfolding get_count get_or_create
get_count_window l p now = elim (Option-cases (Dict.get p l.peers)) [
  | inl e ↦ inl (rw (e, get_count) (rw e refl))
  | inr (u, e) ↦
      inr
        (rw (e, get_count) (ground (arith, Dict.get-set_self p (prune l.window_ms now u) l.peers)))
]

-- A call for another peer leaves the window alone.
pub other_same :
    (l : RateLimiter) (c : Call) (peer : Text)
    → peer_of c ≢ peer
    → (get_or_create (step l c) peer ≡ get_or_create l peer) × (recorded l peer c ≡ [])
unfolding soft_ban
other_same l (attempt p now) peer h = (
  ground (arith, check-other l p peer now h, record_event-other (check l p now).0 p peer now h),
  ground (arith, text_eq_iff p peer),
)
other_same l (begin p now) peer h = (check-other l p peer now h, refl)
other_same l (enter p now) peer h =
    (record_event-other l p peer now h, ground (arith, text_eq_iff p peer))
other_same l (give_up p now) peer h = (refl, refl)
other_same l (peek p now) peer h = (check-other l p peer now h, refl)
other_same l (ban p d now) peer h = (get_or_create-put_ne l p peer _ h, refl)
other_same l (ask_ban p now) peer h = (is_banned-other l p peer now h, refl)
other_same l (ask_count p now) peer h = (get_count-other l p peer now h, refl)
