-- ===== src/Pow/Cache.antt =====
-- The stamp cache of a daemon, which mines for one peer.
use subspace_transceiver.Prelude.{
  none-some, ℕ, suc, ◌-◌, ◌/◌, ◌≡◌, refl, sym, ap, subst, ◌∙◌, true, List, [], ◌∷◌, ◌++◌, some,
  some_inj, ◌⊎◌, inl, inr, arith, Bool-cases, Option-cases,
}
use subspace_transceiver.Prelude.Dict
use subspace_transceiver.Prelude.Numerals.{print, print_inj, print-Lacks_colon}
use subspace_transceiver.Prelude.Text.{Text, text_eq, text_eq_iff, Lacks}
use subspace_transceiver.Schema.{HashcashStamp}
use subspace_transceiver.Pow.{
  StampCacheEntry, window_index, cache_key, cached, put_stamp, mine_stamp, verify_stamp,
  get_or_mine,
}
use subspace_transceiver.Pow.Mining.{mine_stamp-verify}

cons-tail : {c d : ℕ} {s t : Text} → c ∷ s ≡ d ∷ t → s ≡ t
cons-tail h = cc

has_separator : (sep : ℕ) (p s : Text) → ¬ Lacks sep (p ++ sep ∷ s)
has_separator sep [] s h = h.0 refl
has_separator sep (c ∷ p) s h = has_separator sep p s (h.1)

-- A text is cut at its last separator in one way.
last_part :
    (sep : ℕ) (a b x y : Text)
    → Lacks sep x
    → Lacks sep y
    → a ++ sep ∷ x ≡ b ++ sep ∷ y
    → (a ≡ b) × (x ≡ y)
last_part sep [] [] x y hx hy h = (refl, cc)
last_part sep [] (d ∷ b) x y hx hy h =
    absurd (has_separator sep b y (subst (Lacks sep) (cons-tail h) hx))
last_part sep (c ∷ a) [] x y hx hy h =
    absurd (has_separator sep a x (subst (Lacks sep) (sym (cons-tail h)) hy))
last_part sep (c ∷ a) (d ∷ b) x y hx hy h =
    let heads : c ≡ d = cc in let (e, f) = last_part sep a b x y hx hy cc in (cc, f)

cache_key_inj :
    (scope scope' : Text) (bits bits' window_ms window_ms' : ℕ)
    → cache_key scope bits window_ms ≡ cache_key scope' bits' window_ms'
    → (scope ≡ scope') × (bits ≡ bits') × (window_ms ≡ window_ms')
cache_key_inj scope scope' bits bits' window_ms window_ms' h =
    let outer =
      last_part b':' (scope ++ b':' ∷ print 10 bits) (scope' ++ b':' ∷ print 10 bits')
        (print 10 window_ms) (print 10 window_ms') (print-Lacks_colon 10 window_ms)
        (print-Lacks_colon 10 window_ms') h in
    let inner =
      last_part b':' scope scope' (print 10 bits) (print 10 bits') (print-Lacks_colon 10 bits)
        (print-Lacks_colon 10 bits') outer.0 in
    (inner.0, print_inj bits bits' inner.1, print_inj window_ms window_ms' outer.1)

-- What `set` stores.
abbrev fresh_entry : ℕ → ℕ → HashcashStamp → ℕ → ℕ → StampCacheEntry
fresh_entry bits window_ms stamp mine_time_ms now = record {
  stamp = stamp;
  window_index = window_index window_ms now;
  bits = bits;
  window_ms = window_ms;
  mined_at = now;
  mine_time_ms = mine_time_ms;
}

pub cached_found :
    (cache : List (Text × StampCacheEntry)) (scope : Text) (bits window_ms now : ℕ)
    (entry : StampCacheEntry)
    → cached cache scope bits window_ms now ≡ some entry
    → (Dict.get (cache_key scope bits window_ms) cache ≡ some entry)
      × (window_index window_ms now ≡ entry.window_index)
unfolding cached
cached_found cache scope bits window_ms now entry h = ground arith

cached_known :
    (cache : List (Text × StampCacheEntry)) (scope : Text) (bits window_ms now : ℕ)
    (entry : StampCacheEntry)
    → Dict.get (cache_key scope bits window_ms) cache ≡ some entry
    → window_index window_ms now ≡ entry.window_index
    → cached cache scope bits window_ms now ≡ some entry
unfolding cached
cached_known cache scope bits window_ms now entry h in_window = ground arith

cached-put_stamp :
    (cache : List (Text × StampCacheEntry)) (scope : Text) (bits window_ms : ℕ)
    (stamp : HashcashStamp) (mine_time_ms done later : ℕ)
    → window_index window_ms later ≡ window_index window_ms done
    → cached
        (put_stamp cache scope bits window_ms stamp mine_time_ms done)
        scope
        bits
        window_ms
        later
      ≡ some (fresh_entry bits window_ms stamp mine_time_ms done)
unfolding put_stamp
cached-put_stamp cache scope bits window_ms stamp mine_time_ms done later in_window =
    let fresh = fresh_entry bits window_ms stamp mine_time_ms done in
    cached_known _ scope bits window_ms later fresh
      (Dict.get-set_self (cache_key scope bits window_ms) fresh cache) in_window

module _ (sha256 : Text → Text) where
  -- Each cached stamp is accepted, for its peer, scope, difficulty and window length, throughout the
  -- window that the entry names.
  abbrev pub IsValid : Text → List (Text × StampCacheEntry) → Type 0
  IsValid peer cache =
      (scope : Text) (bits window_ms : ℕ) (entry : StampCacheEntry)
      → Dict.get (cache_key scope bits window_ms) cache ≡ some entry
      → (later : ℕ) → window_index window_ms later ≡ entry.window_index
      → verify_stamp sha256 entry.stamp peer scope bits window_ms later ≡ true

  put_stamp-IsValid :
      (peer : Text) (cache : List (Text × StampCacheEntry)) (scope : Text) (bits window_ms : ℕ)
      (stamp : HashcashStamp) (mine_time_ms now : ℕ)
      → ((later : ℕ)
          → window_index window_ms later ≡ window_index window_ms now
          → verify_stamp sha256 stamp peer scope bits window_ms later ≡ true)
      → IsValid peer cache
      → IsValid peer (put_stamp cache scope bits window_ms stamp mine_time_ms now)
  unfolding put_stamp
  put_stamp-IsValid peer cache scope bits window_ms stamp mine_time_ms now good valid scope' bits'
        window_ms' entry h later at_that =
      let key = cache_key scope bits window_ms in
      let key' = cache_key scope' bits' window_ms' in
      let fresh = fresh_entry bits window_ms stamp mine_time_ms now in
      elim (Bool-cases (text_eq key key')) [
        | inl t ↦
            let found = some_inj (rw t at (sym (Dict.get-set key key' fresh cache) ∙ h)) in
            let (same_scope, same_bits, same_window) =
              cache_key_inj scope scope' bits bits' window_ms window_ms'
                ((text_eq_iff key key').0 t) in
            rw (← found, ← same_scope, ← same_bits, ← same_window)
              (good later
                (ap (λ w. later / w) same_window ∙ at_that ∙ sym (ap (λ d. d.window_index) found)))
        | inr f ↦
            valid scope' bits' window_ms' entry
              (rw f at (sym (Dict.get-set key key' fresh cache) ∙ h)) later at_that
      ]

  -- `getOrMine` on a valid cache leaves a valid cache, and the stamp that it returns is accepted
  -- throughout the window in which it was asked for. Mining may run into the next window, no further.
  pub get_or_mine-verify :
      (fuel : ℕ) (cache cache' : List (Text × StampCacheEntry)) (peer scope : Text)
      (bits window_ms now done : ℕ) (stamp : HashcashStamp)
      → IsValid peer cache
      → (window_index window_ms done ≡ window_index window_ms now)
        ⊎ (window_index window_ms done ≡ suc (window_index window_ms now))
      → get_or_mine sha256 fuel cache peer scope bits window_ms now done ≡ some (cache', stamp)
      → IsValid peer cache'
        × ((later : ℕ)
            → window_index window_ms later ≡ window_index window_ms now
            → verify_stamp sha256 stamp peer scope bits window_ms later ≡ true)
  unfolding get_or_mine
  get_or_mine-verify fuel cache cache' peer scope bits window_ms now done stamp valid near h =
      elim (Option-cases (cached cache scope bits window_ms now)) [
        | inr (entry, e) ↦
            let same : some (cache, entry.stamp) ≡ some (cache', stamp) =
              rw (e, get_or_mine) at h in
            let (kept, at_now) = cached_found cache scope bits window_ms now entry e in
            (
              subst (IsValid peer) (ap (λ p. p.0) (some_inj same)) valid,
              λ later when.
                  subst (λ s. verify_stamp sha256 s peer scope bits window_ms later ≡ true)
                    (ap (λ p. p.1) (some_inj same))
                    (valid scope bits window_ms entry kept later (when ∙ at_now)),
            )
        | inl e ↦ elim (Option-cases (mine_stamp sha256 fuel peer scope bits window_ms now)) [
          | inl none_found ↦ absurd (none-some (rw (e, none_found, get_or_mine) at h))
          | inr (mined, found) ↦
              let stored = put_stamp cache scope bits window_ms mined (done - now) done in
              let same : some (stored, mined) ≡ some (cache', stamp) =
                rw (e, found, get_or_mine) at h in
              (
                subst (IsValid peer) (ap (λ p. p.0) (some_inj same)) (
                    put_stamp-IsValid peer cache scope bits window_ms mined (done - now) done
                      (λ later at_done.
                        mine_stamp-verify sha256 fuel peer scope bits window_ms now later mined
                          found (rw at_done near))
                      valid),
                λ later when.
                    subst (λ s. verify_stamp sha256 s peer scope bits window_ms later ≡ true)
                      (ap (λ p. p.1) (some_inj same))
                      (mine_stamp-verify sha256 fuel peer scope bits window_ms now later mined found
                        (inl when)),
              )
        ]
      ]

  get_or_mine_hit :
      (cache : List (Text × StampCacheEntry)) (peer scope : Text) (bits window_ms now done : ℕ)
      (entry : StampCacheEntry)
      → cached cache scope bits window_ms now ≡ some entry
      → get_or_mine sha256 0 cache peer scope bits window_ms now done ≡ some (cache, entry.stamp)
  unfolding get_or_mine
  get_or_mine_hit cache peer scope bits window_ms now done entry e = rw (e, get_or_mine) refl

  -- Within one window the second `getOrMine` for a scope, difficulty and window length returns the
  -- stamp of the first and mines nothing, if the first one's mining ended in that window.
  pub get_or_mine-again :
      (fuel : ℕ) (cache cache' : List (Text × StampCacheEntry)) (peer scope : Text)
      (bits window_ms now done later done' : ℕ) (stamp : HashcashStamp)
      → window_index window_ms done ≡ window_index window_ms now
      → window_index window_ms later ≡ window_index window_ms now
      → get_or_mine sha256 fuel cache peer scope bits window_ms now done ≡ some (cache', stamp)
      → get_or_mine sha256 0 cache' peer scope bits window_ms later done' ≡ some (cache', stamp)
  unfolding get_or_mine
  get_or_mine-again fuel cache cache' peer scope bits window_ms now done later done' stamp in_window
        soon h =
      elim (Option-cases (cached cache scope bits window_ms now)) [
        | inr (entry, e) ↦
            let same : some (cache, entry.stamp) ≡ some (cache', stamp) =
              rw (e, get_or_mine) at h in
            let (kept, at_now) = cached_found cache scope bits window_ms now entry e in
            subst (λ p. get_or_mine sha256 0 (p.0) peer scope bits window_ms later done' ≡ some p)
              (some_inj same)
              (get_or_mine_hit cache peer scope bits window_ms later done' entry
                (cached_known cache scope bits window_ms later entry kept (soon ∙ at_now)))
        | inl e ↦ elim (Option-cases (mine_stamp sha256 fuel peer scope bits window_ms now)) [
          | inl none_found ↦ absurd (none-some (rw (e, none_found, get_or_mine) at h))
          | inr (mined, found) ↦
              let stored = put_stamp cache scope bits window_ms mined (done - now) done in
              let same : some (stored, mined) ≡ some (cache', stamp) =
                rw (e, found, get_or_mine) at h in
              let fresh = fresh_entry bits window_ms mined (done - now) done in
              subst (λ p. get_or_mine sha256 0 (p.0) peer scope bits window_ms later done' ≡ some p)
                (some_inj same)
                (get_or_mine_hit stored peer scope bits window_ms later done' fresh (
                  cached-put_stamp cache scope bits window_ms mined (done - now) done later
                    (soon ∙ sym in_window)))
        ]
      ]
