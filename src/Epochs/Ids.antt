-- ===== src/Epochs/Ids.antt =====
-- packages/core/src/epoch-manager.ts: computeEpochId and epochStartMs. A `Date` is its milliseconds
-- since 1970, which its day, its day of the week and its year are computed from; times before 1970,
-- and ids of years before it, are left aside.
pub mod Index
mod Printed
pub mod Weeks
use subspace_transceiver.Prelude.{
  ℕ, zero, suc, ◌+◌, ◌-◌, ◌*◌, ◌/◌, ◌%◌, Bool, true, false, not, ◌&&◌, ◌||◌, ◌==◌, List, [], ◌∷◌,
  ◌++◌, Option, none, some, ltb, leb, if◌then◌else◌, length, all, drop,
}
use subspace_transceiver.Prelude.Numerals.{print, is_digit, parse_int}
use subspace_transceiver.Prelude.Text.{Text, codes, starts_with}

abbrev pub day_ms : ℕ
day_ms = 86400000

-- `WEEK_MS`
abbrev pub week_ms : ℕ
week_ms = 604800000

abbrev is_leap : ℕ → Bool
is_leap y = (y % 4 == 0 && not (y % 100 == 0)) || y % 400 == 0

-- The days from 1970 to the start of the year that is `n` years later.
unfoldable pub days_before : ℕ → ℕ
days_before zero = 0
days_before (suc n) = days_before n + (if is_leap (1970 + n) then 366 else 365)

-- The first year from the `n`th on that does not end before the day; `suc d` rounds are enough.
unfoldable pub year_from : ℕ → ℕ → ℕ → ℕ
year_from zero n d = n
year_from (suc fuel) n d =
    let rest = year_from fuel (suc n) d in if ltb d (days_before (suc n)) then n else rest

-- `getUTCFullYear()` of a day, counted from 1970.
unfoldable pub year_of : ℕ → ℕ
unfolding year_from
year_of d = year_from (suc d) 0 d

-- The days since Monday: `(getUTCDay() || 7) - 1`.
abbrev pub days_since_monday : ℕ → ℕ
days_since_monday d = (d + 3) % 7

-- `thursday`: the same time of day on the Thursday of the week.
abbrev pub thursday_of : ℕ → ℕ
thursday_of now = (now + 3 * day_ms) - days_since_monday (now / day_ms) * day_ms

-- `Math.ceil(((thursday - yearStart) / 86_400_000 + 1) / 7)`
unfoldable pub week_number : ℕ → ℕ → ℕ
week_number thursday year_start = ((thursday - year_start) + day_ms + (week_ms - 1)) / week_ms

-- `String(n).padStart(2, '0')`
abbrev pub padded : ℕ → Text
padded n = if ltb n 10 then b'0' ∷ print 10 n else print 10 n

unfoldable pub compute_epoch_id : ℕ → ℕ → Text
unfolding week_number
compute_epoch_id now duration =
    if duration == week_ms
    then (let thursday = thursday_of now in
        let year = year_of (thursday / day_ms) in
        print 10 (1970 + year)
        ++ codes "-W"
        ++ padded (week_number thursday (days_before year * day_ms)))
    else codes "epoch-" ++ print 10 (now / duration)

-- `/^(\d{4})-W(\d{2})$/`, and the two numbers.
unfoldable pub match_week : Text → Option (ℕ × ℕ)
unfolding parse_int
match_week (a ∷ b ∷ c ∷ d ∷ dash ∷ w ∷ e ∷ f ∷ []) =
    if all is_digit (a ∷ b ∷ c ∷ d ∷ e ∷ f ∷ []) && dash == b'-' && w == b'W'
    then some (parse_int 0 (a ∷ b ∷ c ∷ d ∷ []), parse_int 0 (e ∷ f ∷ []))
    else none
match_week _ = none

-- `/^epoch-(\d+)$/`, and the number.
unfoldable pub match_index : Text → Option ℕ
unfolding parse_int
match_index s =
    let digits = drop 6 s in
    if starts_with s (codes "epoch-") && (ltb 0 (length digits) && all is_digit digits)
    then some (parse_int 0 digits)
    else none

-- The Monday of the first week of a year, `week - 1` weeks on.
unfoldable pub week_start : ℕ → ℕ → ℕ
week_start year week =
    let jan4 = days_before (year - 1970) + 3 in
    ((jan4 + week * 7) - (days_since_monday jan4 + 7)) * day_ms

unfoldable pub epoch_start_ms : Text → ℕ → ℕ
unfolding match_week match_index week_start
epoch_start_ms id duration = elim (match_week id) [
  | some (year, week) ↦ week_start year week
  | none ↦ elim (match_index id) [ none ↦ 0 | some index ↦ index * duration ]
]
