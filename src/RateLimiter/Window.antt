-- ===== src/RateLimiter/Window.antt =====
-- The events of one peer that lie in a window, and what `prune` and a recorded event do to them.
use subspace_transceiver.Prelude.{
  ℕ, suc, zero, ◌+◌, ◌-◌, ◌≤◌, ◌<◌, ◌≡◌, refl, sym, ap, ◌∙◌, ◌&&◌, List, [], ◌∷◌, ◌++◌, leb, length,
  filter, drop, All, All-append, arith, Bool-cases, inl, inr, ltb, length-append, filter-append,
  ltb→lt, ltb→le,
}
use mathlib.Core.List.{append_assoc}
use subspace_transceiver.RateLimiter.{PeerWindow, stale_count, prune}

-- How many of the instants lie in the closed window of length `w` that ends at `t`.
unfoldable pub count_in : ℕ → ℕ → List ℕ → ℕ
count_in w t xs = length (filter (λ x. leb x t && leb t (x + w)) xs)

abbrev pub IsStale : ℕ → ℕ → List ℕ → Type 0
IsStale w now xs = All (λ x. x + w < now) xs

abbrev pub IsPast : ℕ → List ℕ → Type 0
IsPast now xs = All (λ x. x ≤ now) xs

pub count_in-append :
    (w t : ℕ) (xs ys : List ℕ) → count_in w t (xs ++ ys) ≡ count_in w t xs + count_in w t ys
unfolding count_in
count_in-append w t xs ys = rw filter-append (length-append _ _)

count_in-IsStale : (w now t : ℕ) (xs : List ℕ) → IsStale w now xs → now ≤ t → count_in w t xs ≡ 0
unfolding count_in
count_in-IsStale w now t [] h le = refl
count_in-IsStale w now t (x ∷ xs) h le = ground (arith, count_in-IsStale w now t xs h.1 le)

count_in-le-length : (w t : ℕ) (xs : List ℕ) → count_in w t xs ≤ length xs
unfolding count_in
count_in-le-length w t [] = omega arith
count_in-le-length w t (x ∷ xs) = ground (arith, count_in-le-length w t xs)

-- Of events that are past, a later window holds no more than the window that ends now.
count_in_mono :
    (w now t : ℕ) (xs : List ℕ) → IsPast now xs → now ≤ t → count_in w t xs ≤ count_in w now xs
unfolding count_in
count_in_mono w now t [] h le = omega arith
count_in_mono w now t (x ∷ xs) h le = ground (arith, count_in_mono w now t xs h.1 le)

count_in_before : (w t x : ℕ) → t < x → count_in w t (x ∷ []) ≡ 0
unfolding count_in
count_in_before w t x h = ground arith

IsPast-mono : (now later : ℕ) (xs : List ℕ) → now ≤ later → IsPast now xs → IsPast later xs
IsPast-mono now later [] le h = tt
IsPast-mono now later (x ∷ xs) le h = (omega arith, IsPast-mono now later xs le h.1)

IsStale-mono : (w now later : ℕ) (xs : List ℕ) → now ≤ later → IsStale w now xs → IsStale w later xs
IsStale-mono w now later [] le h = tt
IsStale-mono w now later (x ∷ xs) le h = (omega arith, IsStale-mono w now later xs le h.1)

-- What `prune` cuts off is stale.
IsStale-prefix :
    (w now : ℕ) (ts : List ℕ)
    → (cut : List ℕ) × (ts ≡ cut ++ drop (stale_count w now ts) ts) × IsStale w now cut
unfolding stale_count
IsStale-prefix w now [] = ([], refl, tt)
IsStale-prefix w now (t ∷ ts) =
    let (cut, e, h) = IsStale-prefix w now ts in
    elim (Bool-cases (ltb (t + w) now)) [
      | inl old ↦ (t ∷ cut, rw old (ground (arith, e)), (ltb→lt _ _ old, h))
      | inr new ↦ ([], rw new, tt)
    ]

length-drop-le : (n : ℕ) (xs : List ℕ) → length (drop n xs) ≤ length xs
length-drop-le zero xs = omega arith
length-drop-le (suc n) [] = omega arith
length-drop-le (suc n) (x ∷ xs) = omega (arith, length-drop-le n xs)

pub length-prune-le :
    (w now : ℕ) (u : PeerWindow) → length (prune w now u).timestamps ≤ length u.timestamps
unfolding prune
length-prune-le w now u = length-drop-le (stale_count w now u.timestamps) u.timestamps

-- The window of a peer against the whole history of its recorded events, with so many checks open: no
-- window holds more than the limit, and what is open fits into those that end from now on.
pub record Tracks (limit w : ℕ) (u : PeerWindow) (hist : List ℕ) (held now : ℕ) : Type 0 where
  pub gone : List ℕ
  pub parts : hist ≡ gone ++ u.timestamps
  pub stale : IsStale w now gone
  pub past : IsPast now hist
  pub bound : (t : ℕ) → count_in w t hist ≤ limit
  pub ahead : (t : ℕ) → now ≤ t → count_in w t hist + held ≤ limit

module _ {limit w : ℕ} {u : PeerWindow} {hist : List ℕ} {held last : ℕ}
    (h : Tracks limit w u hist held last) where
  pub later-Tracks : (now : ℕ) → last ≤ now → Tracks limit w u hist held now
  later-Tracks now le = record {
    gone = h.gone;
    parts = h.parts;
    stale = IsStale-mono w last now h.gone le h.stale;
    past = IsPast-mono last now hist le h.past;
    bound = h.bound;
    ahead = λ t after. h.ahead t (omega arith);
  }

  pub prune-Tracks : (now : ℕ) → last ≤ now → Tracks limit w (prune w now u) hist held now
  unfolding prune
  prune-Tracks now le =
      let (cut, e, old) = IsStale-prefix w now u.timestamps in
      record {
        gone = h.gone ++ cut;
        parts =
            h.parts
            ∙ ap (λ ts. h.gone ++ ts) e
            ∙ sym (append_assoc h.gone cut (prune w now u).timestamps);
        stale = All-append _ h.gone cut (IsStale-mono w last now h.gone le h.stale) old;
        past = IsPast-mono last now hist le h.past;
        bound = h.bound;
        ahead = λ t after. h.ahead t (omega arith);
      }

  count_room : (max t : ℕ) → length u.timestamps < max → last ≤ t → count_in w t hist < max
  count_room max t room after = omega (
    arith,
    ap (count_in w last) h.parts,
    count_in-append w last h.gone u.timestamps,
    count_in-IsStale w last last h.gone h.stale,
    count_in-le-length w last u.timestamps,
    count_in_mono w last t hist h.past after,
  )

  -- The windows with a new event, of which `room` and those that stay open leave one.
  push_count :
      (stay : ℕ)
      → ((t : ℕ) → last ≤ t → count_in w t hist + suc stay ≤ limit)
      → (t : ℕ) → last ≤ t
      → count_in w t (hist ++ last ∷ []) + stay ≤ limit
  push_count stay room t after = omega (
    arith,
    room t after,
    count_in-append w t hist (last ∷ []),
    count_in-le-length w t (last ∷ []),
  )

  push-Tracks_of :
      (stay : ℕ)
      → ((t : ℕ) → last ≤ t → count_in w t hist + suc stay ≤ limit)
      → Tracks limit w
          (record u { timestamps = u.timestamps ++ last ∷ [] })
          (hist ++ last ∷ [])
          stay
          last
  push-Tracks_of stay room = record {
    gone = h.gone;
    parts = cc (h.parts, append_assoc h.gone u.timestamps (last ∷ []));
    stale = h.stale;
    past = All-append _ hist (last ∷ []) h.past (omega arith, tt);
    bound = λ t. elim (Bool-cases (ltb t last)) [
      | inl before ↦ omega (
        arith,
        h.bound t,
        count_in-append w t hist (last ∷ []),
        count_in_before w t last (ltb→lt _ _ before),
      )
      | inr after ↦ omega (arith, push_count stay room t (ltb→le t last after))
    ];
    ahead = push_count stay room;
  }

  -- A new event at once after a check.
  pub push-Tracks :
      (max : ℕ)
      → length u.timestamps < max
      → max + held ≤ limit
      → Tracks limit w
          (record u { timestamps = u.timestamps ++ last ∷ [] })
          (hist ++ last ∷ [])
          held
          last
  push-Tracks max room le =
      push-Tracks_of held (λ t after. omega (arith, count_room max t room after))

  -- A check that stays open.
  pub open-Tracks :
      (max : ℕ)
      → length u.timestamps < max
      → max + held ≤ limit
      → Tracks limit w u hist (suc held) last
  open-Tracks max room le = record {
    gone = h.gone;
    parts = h.parts;
    stale = h.stale;
    past = h.past;
    bound = h.bound;
    ahead = λ t after. omega (arith, count_room max t room after);
  }

  -- The event of a check that was open.
  pub enter-Tracks :
      1 ≤ held
      → Tracks limit w
          (record u { timestamps = u.timestamps ++ last ∷ [] })
          (hist ++ last ∷ [])
          (held - 1)
          last
  enter-Tracks some_open = push-Tracks_of (held - 1) (λ t after. omega (arith, h.ahead t after))

  pub close-Tracks : Tracks limit w u hist (held - 1) last
  close-Tracks = record {
    gone = h.gone;
    parts = h.parts;
    stale = h.stale;
    past = h.past;
    bound = h.bound;
    ahead = λ t after. omega (arith, h.ahead t after);
  }
