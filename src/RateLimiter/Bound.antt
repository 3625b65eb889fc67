-- ===== src/RateLimiter/Bound.antt =====
-- The limiter's bound on the events that it lets a peer record.
use mathlib.Core.List.{append-nil, append_assoc}
use subspace_transceiver.Prelude.{
  ℕ, suc, ◌+◌, ◌-◌, ◌≤◌, ◌<◌, ◌≡◌, refl, true, false, List, [], ◌∷◌, ◌++◌, arith, ap, subst, sym,
  ◌∙◌, ◌⊎◌, Bool-cases, inl, inr, if◌then◌else◌, ltb→lt, ltb, length,
}
use subspace_transceiver.Prelude.Dict
use subspace_transceiver.Prelude.Text.{Text, text_eq, text_eq_iff, text_eq_refl}
use subspace_transceiver.RateLimiter.{
  PeerWindow, RateLimiter, new_limiter, get_or_create, put_window, prune, check_window, check,
  record_event, soft_ban, is_banned, get_count,
}
use subspace_transceiver.RateLimiter.Window.{
  count_in, length-prune-le, Tracks, prune-Tracks, later-Tracks, push-Tracks, open-Tracks,
  enter-Tracks, close-Tracks,
}
use subspace_transceiver.RateLimiter.Calls.{
  Call, attempt, begin, enter, give_up, peek, ban, ask_ban, ask_count, time_of, peer_of, IsOrdered,
  Fits, Overlaps, held_own, held_after, attempt_at, step, recorded, history,
}
use subspace_transceiver.RateLimiter.Others.{
  get_or_create-put_self, config_same, is_banned-timestamps, get_count_window, other_same,
}

-- The invariant of one peer: the limiter's bounds and what its window tracks, with so many checks open.
pub record Follows (max others w : ℕ) (peer : Text) (l : RateLimiter) (hist : List ℕ) (held now : ℕ)
    : Type 0 where
  pub max_same : l.max_per_window ≡ max
  pub window_same : l.window_ms ≡ w
  pub tracks : Tracks (max + others) w (get_or_create l peer) hist held now

-- `check` either leaves the events as they are and refuses, or prunes them and compares.
check_window_cases :
    (l : RateLimiter) (now : ℕ) (u : PeerWindow)
    → (((check_window l now u).0.timestamps ≡ u.timestamps) × ((check_window l now u).1 ≡ false))
      ⊎ (((check_window l now u).0.timestamps ≡ (prune l.window_ms now u).timestamps)
          × ((check_window l now u).1
              ≡ ltb (length (prune l.window_ms now u).timestamps) l.max_per_window))
unfolding check_window prune
check_window_cases l now u = ground arith

module _ {limit w : ℕ} {hist : List ℕ} {held : ℕ} where
  Tracks-of_timestamps :
      {u v : PeerWindow} {now : ℕ}
      → v.timestamps ≡ u.timestamps
      → Tracks limit w u hist held now
      → Tracks limit w v hist held now
  Tracks-of_timestamps e h = record {
    gone = h.gone;
    parts = cc (h.parts);
    stale = h.stale;
    past = h.past;
    bound = h.bound;
    ahead = h.ahead;
  }

  check_window-Tracks :
      (l : RateLimiter) (now : ℕ) {u : PeerWindow} {last : ℕ}
      → l.window_ms ≡ w
      → last ≤ now
      → Tracks limit w u hist held last
      → Tracks limit w (check_window l now u).0 hist held now
  check_window-Tracks l now {u} e le h = elim (check_window_cases l now u) [
    | inl (same, refused) ↦ Tracks-of_timestamps same (later-Tracks h now le)
    | inr (pruned, compared) ↦
        Tracks-of_timestamps (pruned ∙ ap (λ n. (prune n now u).timestamps) e)
          (prune-Tracks h now le)
  ]

check_window-room :
    (l : RateLimiter) (now : ℕ) (u : PeerWindow)
    → (check_window l now u).1 ≡ true
    → length (check_window l now u).0.timestamps < l.max_per_window
check_window-room l now u allowed = ground (
  arith,
  check_window_cases l now u,
  ltb→lt (length (prune l.window_ms now u).timestamps) l.max_per_window,
)

module _ {max others w : ℕ} {l : RateLimiter} {p : Text} {hist : List ℕ} {held last : ℕ} (now : ℕ)
    (f : Follows max others w p l hist held last) (le : last ≤ now) where
  checked : PeerWindow
  checked = (check_window l now (get_or_create l p)).0

  checked-Tracks : Tracks (max + others) w checked hist held now
  unfolding checked
  checked-Tracks = check_window-Tracks l now f.window_same le f.tracks

  -- A new event: what `record` does after `check` returned true.
  attempt-allowed :
      held ≤ others
      → (check_window l now (get_or_create l p)).1 ≡ true
      → Tracks
          (max + others)
          w
          (get_or_create (record_event (put_window l p checked) p now) p)
          (hist ++ now ∷ [])
          held
          now
  unfolding record_event checked
  attempt-allowed fits allowed =
      rw (get_or_create-put_self, get_or_create-put_self, f.window_same)
        (push-Tracks (prune-Tracks checked-Tracks now (omega arith)) max
          (omega (
            arith,
            length-prune-le w now checked,
            check_window-room l now (get_or_create l p) allowed,
            f.max_same,
          ))
          (omega arith))

  attempt-follows :
      held ≤ others
      → Tracks
          (max + others)
          w
          (get_or_create (attempt_at l p now).0 p)
          (hist ++ (if (attempt_at l p now).1 then now ∷ [] else []))
          held
          now
  unfolding check checked
  attempt-follows fits = elim (Bool-cases (check_window l now (get_or_create l p)).1) [
    | inl allowed ↦ rw allowed (attempt-allowed fits allowed)
    | inr refused ↦ rw (refused, append-nil, get_or_create-put_self) checked-Tracks
  ]

  begin-follows :
      held ≤ others
      → Tracks
          (max + others)
          w
          (get_or_create (check l p now).0 p)
          hist
          (if (check l p now).1 then suc held else held)
          now
  unfolding check checked
  begin-follows fits = elim (Bool-cases (check_window l now (get_or_create l p)).1) [
    | inl allowed ↦
        rw (get_or_create-put_self, allowed)
          (open-Tracks checked-Tracks max
            (omega (arith, check_window-room l now (get_or_create l p) allowed, f.max_same))
            (omega arith))
    | inr refused ↦ rw (get_or_create-put_self, refused) checked-Tracks
  ]

  enter-follows :
      1 ≤ held
      → Tracks
          (max + others)
          w
          (get_or_create (record_event l p now) p)
          (hist ++ now ∷ [])
          (held - 1)
          now
  unfolding record_event
  enter-follows some_open =
      rw (get_or_create-put_self, f.window_same)
        (enter-Tracks (prune-Tracks f.tracks now le) some_open)

  peek-follows : Tracks (max + others) w (get_or_create (check l p now).0 p) hist held now
  unfolding check checked
  peek-follows = rw get_or_create-put_self checked-Tracks

  ban-follows :
      (d : ℕ) → Tracks (max + others) w (get_or_create (soft_ban l p d now) p) hist held now
  unfolding soft_ban
  ban-follows d =
      rw get_or_create-put_self (Tracks-of_timestamps refl (later-Tracks f.tracks now le))

  ask_ban-follows : Tracks (max + others) w (get_or_create (is_banned l p now).0 p) hist held now
  unfolding is_banned
  ask_ban-follows =
      Tracks-of_timestamps (is_banned-timestamps l p now) (later-Tracks f.tracks now le)

  ask_count-follows : Tracks (max + others) w (get_or_create (get_count l p now).0 p) hist held now
  ask_count-follows = elim (get_count_window l p now) [
    | inl same ↦ Tracks-of_timestamps same (later-Tracks f.tracks now le)
    | inr pruned ↦
        Tracks-of_timestamps
          (pruned ∙ ap (λ n. (prune n now (get_or_create l p)).timestamps) f.window_same)
          (prune-Tracks f.tracks now le)
  ]

step_own :
    {max others w : ℕ} {l : RateLimiter} {hist : List ℕ} {held last : ℕ} (c : Call)
    → Follows max others w (peer_of c) l hist held last
    → last ≤ time_of c
    → Fits others held c
    → Tracks
        (max + others)
        w
        (get_or_create (step l c) (peer_of c))
        (hist ++ recorded l (peer_of c) c)
        (held_own l held c)
        (time_of c)
step_own (attempt p now) f le fits = rw text_eq_refl (attempt-follows now f le fits)
step_own (begin p now) f le fits = rw append-nil (begin-follows now f le fits)
step_own (enter p now) f le fits = rw text_eq_refl (enter-follows now f le fits)
step_own (give_up p now) f le fits = rw append-nil (close-Tracks (later-Tracks f.tracks now le))
step_own (peek p now) f le fits = rw append-nil (peek-follows now f le)
step_own (ban p d now) f le fits = rw append-nil (ban-follows now f le d)
step_own (ask_ban p now) f le fits = rw append-nil (ask_ban-follows now f le)
step_own (ask_count p now) f le fits = rw append-nil (ask_count-follows now f le)

module _ {max others w : ℕ} {l : RateLimiter} {hist : List ℕ} {held last : ℕ} (peer : Text)
    (c : Call) (f : Follows max others w peer l hist held last) (le : last ≤ time_of c)
    (fits : text_eq (peer_of c) peer ≡ true → Fits others held c) where
  step-Tracks :
      Tracks
        (max + others)
        w
        (get_or_create (step l c) peer)
        (hist ++ recorded l peer c)
        (held_after l peer held c)
        (time_of c)
  step-Tracks = elim (Bool-cases (text_eq (peer_of c) peer)) [
    | inl same ↦
        let e = (text_eq_iff (peer_of c) peer).0 same in
        rw same (
          subst
            (λ p.
              Tracks (max + others) w (get_or_create (step l c) p) (hist ++ recorded l p c)
                (held_own l held c) (time_of c))
            e
            (step_own c (subst (λ p. Follows max others w p l hist held last) (sym e) f) le
              (fits same)))
    | inr other ↦
        let (kept, nothing) = other_same l c peer (ground (arith, text_eq_iff (peer_of c) peer)) in
        rw (other, kept, nothing, append-nil) (later-Tracks f.tracks (time_of c) le)
  ]

  -- One call keeps the invariant of every peer.
  pub step-Follows :
      Follows max others w peer
        (step l c)
        (hist ++ recorded l peer c)
        (held_after l peer held c)
        (time_of c)
  step-Follows = record {
    max_same = (config_same l c).0 ∙ f.max_same;
    window_same = (config_same l c).1 ∙ f.window_same;
    tracks = step-Tracks;
  }

run-bound :
    {max others w : ℕ} (peer : Text) (cs : List Call) {l : RateLimiter} {hist : List ℕ}
    {held last : ℕ}
    → Follows max others w peer l hist held last
    → IsOrdered last cs
    → Overlaps others peer l held cs
    → (t : ℕ) → count_in w t (hist ++ history l peer cs) ≤ max + others
unfolding history
run-bound {w} peer [] {hist} f ordered overlaps t = rw append-nil (f.tracks.bound t)
run-bound {w} peer (c ∷ cs) {l} {hist} f ordered overlaps t =
    rw (← append_assoc)
      (run-bound peer cs (step-Follows peer c f ordered.0 overlaps.0) ordered.1 overlaps.1 t)

pub new_limiter-Follows :
    (max others w : ℕ) (peer : Text) → Follows max others w peer (new_limiter max w) [] 0 0
unfolding new_limiter get_or_create count_in Dict.get
new_limiter-Follows max others w peer = record {
  max_same = refl;
  window_same = refl;
  tracks = record {
    gone = [];
    parts = refl;
    stale = tt;
    past = tt;
    bound = λ t. omega arith;
    ahead = λ t le. omega arith;
  };
}

-- However calls of `check`, `record`, `softBan`, `isBanned` and `getCount` for any peers follow one
-- another on a new limiter, as long as the clock does not go back, each `record` belongs to an earlier
-- `check` that returned true, and a peer is checked only while at most `others` of its checks that
-- returned true still wait for their record: of the events recorded for the peer, at most
-- `maxPerWindow + others` lie in any closed interval of `windowMs` milliseconds, whatever the instant `t`
-- at which it ends. Where each record follows its check at once, `others` is 0.
pub history-bound :
    (max_per_window window_ms others : ℕ) (peer : Text) (calls : List Call) (t : ℕ)
    → IsOrdered 0 calls
    → Overlaps others peer (new_limiter max_per_window window_ms) 0 calls
    → count_in window_ms t (history (new_limiter max_per_window window_ms) peer calls)
      ≤ max_per_window + others
history-bound max_per_window window_ms others peer calls t ordered overlaps =
    run-bound peer calls (new_limiter-Follows max_per_window others window_ms peer) ordered overlaps
      t
