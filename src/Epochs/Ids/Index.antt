-- ===== src/Epochs/Ids/Index.antt =====
-- The ids `epoch-<index>` of durations other than a week.
use native.Mathlib.Nat.{div-mul-le_self, lt-div-mul-add}
use subspace_transceiver.Prelude.{
  ℕ, ◌+◌, ◌*◌, ◌/◌, ◌≤◌, ◌<◌, ◌≡◌, ◌≢◌, refl, sym, ap, subst, ◌∙◌, false, ◌==◌, [], ◌∷◌, ◌++◌, none,
  some, arith, ==_iff,
}
use subspace_transceiver.Prelude.Numerals.{print, print-all_digits, parse_int-print, length-print}
use subspace_transceiver.Prelude.Text.{Text, codes, starts_with}
use subspace_transceiver.Epochs.Ids.{
  week_ms, compute_epoch_id, match_week, match_index, epoch_start_ms,
}

match_week-letter : (s : Text) → match_week (b'e' ∷ s) ≡ none
unfolding match_week
match_week-letter [] = refl
match_week-letter (a ∷ []) = refl
match_week-letter (a ∷ b ∷ []) = refl
match_week-letter (a ∷ b ∷ c ∷ []) = refl
match_week-letter (a ∷ b ∷ c ∷ d ∷ []) = refl
match_week-letter (a ∷ b ∷ c ∷ d ∷ e ∷ []) = refl
match_week-letter (a ∷ b ∷ c ∷ d ∷ e ∷ f ∷ []) = refl
match_week-letter (a ∷ b ∷ c ∷ d ∷ e ∷ f ∷ g ∷ []) = refl
match_week-letter (a ∷ b ∷ c ∷ d ∷ e ∷ f ∷ g ∷ h ∷ s) = refl

match_index-print : (n : ℕ) → match_index (codes "epoch-" ++ print 10 n) ≡ some n
unfolding match_index starts_with
match_index-print n = ground (arith, length-print n, print-all_digits n, parse_int-print n)

start_of_index :
    (n duration : ℕ) → epoch_start_ms (codes "epoch-" ++ print 10 n) duration ≡ n * duration
unfolding epoch_start_ms
start_of_index n duration =
    rw (match_week-letter (codes "poch-" ++ print 10 n), match_index-print n, epoch_start_ms) refl

start_of_id :
    (now duration : ℕ)
    → duration ≢ week_ms
    → epoch_start_ms (compute_epoch_id now duration) duration ≡ now / duration * duration
unfolding compute_epoch_id
start_of_id now duration other =
    let f : duration == week_ms ≡ false = ground (arith, ==_iff duration week_ms) in
    ap (λ id. epoch_start_ms id duration) (rw f refl) ∙ start_of_index (now / duration) duration

-- For a duration other than a week, and not zero, the id of a time names the epoch that the time is
-- in: the start read back from the id is a multiple of the duration, and the time is in the duration
-- that begins there.
pub epoch_start-compute_id :
    (now duration : ℕ)
    → duration ≢ week_ms
    → 1 ≤ duration
    → (epoch_start_ms (compute_epoch_id now duration) duration ≤ now)
      × (now < epoch_start_ms (compute_epoch_id now duration) duration + duration)
      × (epoch_start_ms (compute_epoch_id now duration) duration ≡ now / duration * duration)
epoch_start-compute_id now duration other positive =
    let start = start_of_id now duration other in
    (
      subst (λ t. t ≤ now) (sym start) (div-mul-le_self now duration),
      subst (λ t. now < t + duration) (sym start) (lt-div-mul-add positive),
      start,
    )
