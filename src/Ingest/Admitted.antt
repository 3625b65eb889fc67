-- ===== src/Ingest/Admitted.antt =====
-- How many chunks of one peer the guard admits in a window, with guards that overlap.
use mathlib.Core.List.{append-nil, append_assoc}
use subspace_transceiver.Prelude.{
  ℕ, zero, suc, ◌+◌, ◌≤◌, ◌≡◌, refl, sym, ap, ◌∙◌, subst, Bool, true, false, ◌&&◌, List, [], ◌∷◌,
  ◌++◌, Option, some, some_inj, none-some, Option-cases, if◌then◌else◌, arith, Bool-cases, inl, inr,
}
use subspace_transceiver.Prelude.Text.{Text, truthy, text_eq, text_eq_iff}
use subspace_transceiver.RateLimiter.{RateLimiter, new_limiter, check, record_event}
use subspace_transceiver.RateLimiter.Window.{count_in, later-Tracks}
use subspace_transceiver.RateLimiter.Calls.{attempt, begin, enter, give_up, peek, ban}
use subspace_transceiver.RateLimiter.Bound.{Follows, step-Follows, new_limiter-Follows}
use subspace_transceiver.Reputation.{ScoreArith}
use subspace_transceiver.Ingest.{IncomingChunk, Security, IngestResult, peer_id_of, DaemonState}
use subspace_transceiver.Ingest.Rate.{
  is_ok, Outcome, untouched, checked, entered, banned, pow_cases, pow_unnamed,
}
use subspace_transceiver.Ingest.Overlap.{
  Begun, ended, awaits, begin_ingest, resume_ingest, Guards, GuardEvent, arrives, resumes, take_out,
  after_begin, guard_step, admits, admissions, InOrder, waiting, AtMost,
}
use subspace_transceiver.Ingest.Begun.{
  BeginOutcome, at_end, at_await, begin_ingest-cases, begin_ingest-unnamed,
}

waiting-append :
    (p : Text) (c : IncomingChunk) (cs : List IncomingChunk)
    → waiting p (cs ++ c ∷ [])
      ≡ (if text_eq (peer_id_of c) p then suc (waiting p cs) else waiting p cs)
unfolding waiting
waiting-append p c [] = refl
waiting-append p c (d ∷ cs) = ground (arith, waiting-append p c cs)

waiting-take_out :
    (p : Text) (n : ℕ) (cs : List IncomingChunk) (taken : IncomingChunk × List IncomingChunk)
    → take_out n cs ≡ some taken
    → waiting p cs
      ≡ (if text_eq (peer_id_of taken.0) p then suc (waiting p taken.1) else waiting p taken.1)
unfolding take_out waiting
waiting-take_out p n [] taken h = absurd (none-some h)
waiting-take_out p zero (c ∷ cs) taken h =
    subst
      (λ (t : IncomingChunk × List IncomingChunk).
        waiting p (c ∷ cs)
        ≡ (if text_eq (peer_id_of t.0) p then suc (waiting p t.1) else waiting p t.1))
      (some_inj h) refl
waiting-take_out p (suc n) (c ∷ cs) taken h = elim (Option-cases (take_out n cs)) [
  | inl e ↦ absurd (none-some (rw (e, take_out) at h))
  | inr (t, e) ↦
      subst
        (λ (u : IncomingChunk × List IncomingChunk).
          waiting p (c ∷ cs)
          ≡ (if text_eq (peer_id_of u.0) p then suc (waiting p u.1) else waiting p u.1))
        (some_inj (rw (e, take_out) at h)) (ground (arith, waiting-take_out p n cs t e))
]

module _ {max others w : ℕ} {p : Text} where
  -- The invariant, at what is equal.
  Follows-same :
      {l l' : RateLimiter} {hist hist' : List ℕ} {held held' now : ℕ}
      → l ≡ l'
      → hist ≡ hist'
      → held ≡ held'
      → Follows max others w p l hist held now
      → Follows max others w p l' hist' held' now
  Follows-same {l} {l'} {hist} {hist'} {held} {held'} {now} a b c f =
      subst (λ k. Follows max others w p l' hist' k now) c
        (subst (λ h. Follows max others w p l' h held now) b
          (subst (λ x. Follows max others w p x hist held now) a f))

  module _ {l : RateLimiter} {hist : List ℕ} {held last : ℕ} (now : ℕ)
      (f : Follows max others w p l hist held last) (le : last ≤ now) where
    untouched-Follows : Follows max others w p l hist held now
    untouched-Follows = record {
      max_same = f.max_same;
      window_same = f.window_same;
      tracks = later-Tracks f.tracks now le;
    }

    peek-Follows : (peer : Text) → Follows max others w p (check l peer now).0 hist held now
    peek-Follows peer =
        Follows-same refl (append-nil hist) (ground arith)
          (step-Follows p (peek peer now) f le (λ e. tt))

    -- The outcome of a guard that ends at once.
    Outcome-Follows :
        (peer : Text) (window_ms : ℕ) (l' : RateLimiter) (admitted : Bool)
        → (text_eq peer p ≡ true → held ≤ others)
        → Outcome peer window_ms now l l' admitted
        → Follows max others w p l'
            (hist ++ (if text_eq peer p && admitted then now ∷ [] else []))
            held
            now
    Outcome-Follows peer window_ms l' admitted fits (untouched same out) =
        Follows-same (sym same) (sym (append-nil hist) ∙ ground (arith, out)) refl untouched-Follows
    Outcome-Follows peer window_ms l' admitted fits (checked same out) =
        Follows-same (sym same) (sym (append-nil hist) ∙ ground (arith, out)) refl
          (peek-Follows peer)
    Outcome-Follows peer window_ms l' admitted fits (entered allowed same inside) =
        Follows-same (rw allowed (sym same)) (rw allowed (ground (arith, inside))) (ground arith)
          (step-Follows p (attempt peer now) f le fits)
    Outcome-Follows peer window_ms l' admitted fits (banned same out) =
        let g = peek-Follows peer in
        Follows-same (sym same) (ground (arith, out)) (ground arith)
          (step-Follows p (ban peer window_ms now) g (omega arith) (λ e. tt))

    await-Follows :
        (peer : Text)
        → (text_eq peer p ≡ true → held ≤ others)
        → (check l peer now).1 ≡ true
        → Follows max others w p
            (check l peer now).0
            hist
            (if text_eq peer p then suc held else held)
            now
    await-Follows peer fits allowed =
        Follows-same refl (append-nil hist) (rw allowed refl)
          (step-Follows p (begin peer now) f le fits)

unnamed_apart : (p q : Text) → truthy p ≡ true → truthy q ≡ false → text_eq q p ≡ false
unnamed_apart [] q h k = absurd (cc)
unnamed_apart (c ∷ p) [] h k = ground (arith, text_eq_iff [] (c ∷ p))
unnamed_apart (c ∷ p) (d ∷ q) h k = absurd (cc)

module _ (sha256 : Text → Text) (A : ScoreArith) (security : Security) (max others w : ℕ)
    (p : Text) where
  -- The invariant of the guards.
  abbrev Holds : Guards sha256 A → List ℕ → ℕ → Type 0
  Holds g hist now = Follows max others w p g.state.limiter hist (waiting p g.awaiting) now

  -- The events of the peer that an event adds.
  abbrev added : ℕ → Option (IncomingChunk × IngestResult) → List ℕ
  added now r = if admits p r then now ∷ [] else []

  module _ (g : Guards sha256 A) (hist : List ℕ) (last now : ℕ) (f : Holds g hist last)
      (le : last ≤ now) where
    begun-Holds :
        (chunk : IncomingChunk) (s : DaemonState sha256 A) (b : Begun)
        → (text_eq (peer_id_of chunk) p ≡ true → waiting p g.awaiting ≤ others)
        → BeginOutcome
            (peer_id_of chunk)
            security.rate_limit_window_ms
            now
            g.state.limiter
            s.limiter
            b
        → let (later, r) = after_begin sha256 A chunk g.awaiting (s, b) in
          Holds later (hist ++ added now r) now
    unfolding after_begin admits
    begun-Holds chunk s (ended result) fits (at_end k o) =
        Outcome-Follows now f le (peer_id_of chunk) _ s.limiter (is_ok result) fits o
    begun-Holds chunk s awaits fits (at_await allowed same) =
        Follows-same (sym same) (sym (append-nil hist)) (sym (waiting-append p chunk g.awaiting))
          (await-Follows now f le (peer_id_of chunk) fits allowed)

    unnamed-Holds :
        (chunk : IncomingChunk) (s : DaemonState sha256 A) (b : Begun) (result : IngestResult)
        → text_eq (peer_id_of chunk) p ≡ false
        → s.limiter ≡ g.state.limiter
        → b ≡ ended result
        → let (later, r) = after_begin sha256 A chunk g.awaiting (s, b) in
          Holds later (hist ++ added now r) now
    unfolding after_begin admits
    unnamed-Holds chunk s b result apart same e =
        subst
          (λ x.
            let (later, r) = after_begin sha256 A chunk g.awaiting (s, x) in
            Holds later (hist ++ added now r) now)
          (sym e)
          (Follows-same (sym same) (sym (append-nil hist) ∙ rw apart refl) refl
            (untouched-Follows now f le))

    arrives-Holds :
        (chunk : IncomingChunk)
        → truthy p ≡ true
        → (text_eq (peer_id_of chunk) p ≡ true → waiting p g.awaiting ≤ others)
        → let (later, r) = guard_step sha256 A security (arrives chunk now) g in
          Holds later (hist ++ added now r) now
    unfolding guard_step
    arrives-Holds chunk named fits =
        let r = begin_ingest sha256 A security chunk now g.state in
        elim (Bool-cases (truthy (peer_id_of chunk))) [
          | inl t ↦
              begun-Holds chunk r.0 r.1 fits
                (begin_ingest-cases sha256 A security chunk now g.state t)
          | inr n ↦
              let (same, result, e) = begin_ingest-unnamed sha256 A security chunk now g.state n in
              unnamed-Holds chunk r.0 r.1 result (unnamed_apart p (peer_id_of chunk) named n) same e
        ]

    -- The guard of a chunk that was taken out has ended, with or without an event.
    module _ (chunk : IncomingChunk) (rest : List IncomingChunk)
        (counted : waiting p g.awaiting
          ≡ (if text_eq (peer_id_of chunk) p then suc (waiting p rest) else waiting p rest)) where
      entered-Follows :
          Follows max others w p
            (record_event g.state.limiter (peer_id_of chunk) now)
            (hist ++ (if text_eq (peer_id_of chunk) p then now ∷ [] else []))
            (waiting p rest)
            now
      entered-Follows =
          Follows-same refl refl (ground (arith, counted))
            (step-Follows p (enter (peer_id_of chunk) now) f le (λ e. ground (arith, counted, e)))

      gone-Follows : Follows max others w p g.state.limiter hist (waiting p rest) now
      gone-Follows =
          Follows-same refl (append-nil hist) (ground (arith, counted))
            (step-Follows p (give_up (peer_id_of chunk) now) f le (λ e. ground (arith, counted, e)))

      resumed-Holds :
          truthy p ≡ true
          → let (s, result) = resume_ingest sha256 A security chunk now g.state in
            Follows max others w p s.limiter
              (hist ++ added now (some (chunk, result)))
              (waiting p rest)
              now
      unfolding admits
      resumed-Holds named = elim (Bool-cases (truthy (peer_id_of chunk))) [
        | inr n ↦
            Follows-same
              (sym (pow_unnamed sha256 A security chunk (peer_id_of chunk) now g.state n))
              (sym (append-nil hist) ∙ rw (unnamed_apart p (peer_id_of chunk) named n) refl) refl
              gone-Follows
        | inl t ↦ elim (pow_cases sha256 A security chunk (peer_id_of chunk) now g.state t) [
          | inl (l, k) ↦
              Follows-same (sym l) (ap (λ x. hist ++ x) (ground (arith, k))) refl entered-Follows
          | inr (l, k) ↦
              Follows-same (sym l) (sym (append-nil hist) ∙ ap (λ x. hist ++ x) (ground (arith, k)))
                refl gone-Follows
        ]
      ]

    resumes-Holds :
        (place : ℕ)
        → truthy p ≡ true
        → let (later, r) = guard_step sha256 A security (resumes place now) g in
          Holds later (hist ++ added now r) now
    unfolding guard_step admits
    resumes-Holds place named = elim (Option-cases (take_out place g.awaiting)) [
      | inl e ↦
          rw (e, guard_step)
            (Follows-same refl (sym (append-nil hist)) refl (untouched-Follows now f le))
      | inr ((chunk, rest), e) ↦
          rw (e, guard_step)
            (resumed-Holds chunk rest (waiting-take_out p place g.awaiting (chunk, rest) e) named)
    ]

  admissions_lem :
      (events : List GuardEvent) (g : Guards sha256 A) (hist : List ℕ) (last : ℕ)
      → truthy p ≡ true
      → Holds g hist last
      → InOrder last events
      → AtMost sha256 A security others p events g
      → (t : ℕ) → count_in w t (hist ++ admissions sha256 A security events g p) ≤ max + others
  unfolding admissions
  admissions_lem [] g hist last named f ordered few t = rw append-nil (f.tracks.bound t)
  admissions_lem (arrives chunk now ∷ events) g hist last named f ordered few t =
      rw (← append_assoc) (
        admissions_lem events _ _ now named
          (arrives-Holds g hist last now f ordered.0 chunk named few.0) ordered.1 few.1 t)
  admissions_lem (resumes place now ∷ events) g hist last named f ordered few t =
      rw (← append_assoc) (
        admissions_lem events _ _ now named (resumes-Holds g hist last now f ordered.0 place named)
          ordered.1 few.1 t)

-- Whatever chunks from whatever peers arrive at the guard, and in whatever order the guards of signed
-- chunks go on after the import that they await, as long as the clock does not go back, and a chunk of the
-- peer arrives only while at most `others` guards of the peer await: starting from a new limiter, any
-- reputations and no guard that awaits, at most `maxPerWindow + others` of the chunks that name the peer
-- are admitted in any closed interval of the limiter's `windowMs` milliseconds. Where no guards of the peer
-- overlap, `others` is 0.
pub admissions-bound :
    (sha256 : Text → Text) (A : ScoreArith) (security : Security)
    (max_per_window window_ms others : ℕ) (s : DaemonState sha256 A) (events : List GuardEvent)
    (p : Text) (t : ℕ)
    → s.limiter ≡ new_limiter max_per_window window_ms
    → InOrder 0 events
    → truthy p ≡ true
    → AtMost sha256 A security others p events (record { state = s; awaiting = [] })
    → count_in window_ms t
        (admissions sha256 A security events (record { state = s; awaiting = [] }) p)
      ≤ max_per_window + others
unfolding waiting
admissions-bound sha256 A security max_per_window window_ms others s events p t new ordered named
      few =
    admissions_lem sha256 A security max_per_window others window_ms p events
      (record { state = s; awaiting = [] }) [] 0 named
      (subst (λ l. Follows max_per_window others window_ms p l [] 0 0) (sym new)
        (new_limiter-Follows max_per_window others window_ms p))
      ordered few t
