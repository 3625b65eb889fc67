-- ===== src/Epochs/Ids/Weeks.antt =====
-- The ids `<year>-W<week>` of the epochs of one week.
use subspace_transceiver.Prelude.{
  ℕ, zero, suc, ◌+◌, ◌-◌, ◌*◌, ◌/◌, ◌%◌, ◌≤◌, ◌<◌, ◌≡◌, ◌≢◌, refl, sym, ap, ◌∙◌, inl, inr, Bool,
  true, false, ◌&&◌, ◌==◌, ◌++◌, arith, Bool-cases, if◌then◌else◌, ltb,
}
use subspace_transceiver.Prelude.Numerals.{print}
use subspace_transceiver.Prelude.Text.{codes}
use subspace_transceiver.Epochs.Ids.{
  day_ms, week_ms, days_before, year_from, year_of, thursday_of, week_number, padded,
  compute_epoch_id, week_start, epoch_start_ms,
}
use subspace_transceiver.Epochs.Ids.Printed.{match_week-print}

-- The year of a day does not begin after it, and ends after it.
days_before-le : (n : ℕ) → n ≤ days_before n
unfolding days_before
days_before-le zero = omega arith
days_before-le (suc n) = ground (arith, days_before-le n)

year_from-holds :
    (fuel n d : ℕ)
    → days_before n ≤ d
    → d < n + fuel
    → (days_before (year_from fuel n d) ≤ d) × (d < days_before (suc (year_from fuel n d)))
unfolding year_from
year_from-holds zero n d low high = absurd (omega (arith, days_before-le n))
year_from-holds (suc fuel) n d low high = elim (Bool-cases (ltb d (days_before (suc n)))) [
  | inl t ↦ rw t (low, ground (arith, t))
  | inr f ↦ rw f (year_from-holds fuel (suc n) d (ground (arith, f)) (omega arith))
]

zero_days : (d : ℕ) → days_before 0 ≤ d
unfolding days_before
zero_days d = omega arith

year_of-holds : (d : ℕ) → (days_before (year_of d) ≤ d) × (d < days_before (suc (year_of d)))
unfolding year_of
year_of-holds d = year_from-holds (suc d) 0 d (zero_days d) (omega arith)

-- The day of the Thursday of a time, and the time of day.
thursday_facts :
    (now : ℕ)
    → week_ms ≤ now
    → (thursday_of now ≡ thursday_of now / day_ms * day_ms + now % day_ms)
      × ((thursday_of now / day_ms - 3) * day_ms ≤ now)
      × (now < (thursday_of now / day_ms + 4) * day_ms)
      × (thursday_of now / day_ms % 7 ≡ 0)
thursday_facts now late = (omega arith, omega arith, omega arith, omega arith)

year_is_short : (n : ℕ) → days_before (suc n) ≤ days_before n + 366
unfolding days_before
year_is_short n = ground arith

-- The number of the week of the `n`th day of a year: one too many at the end of a full week, but for
-- midnight.
week_number_lem :
    (before n time : ℕ)
    → time < day_ms
    → week_number ((before + n) * day_ms + time) (before * day_ms)
      ≡ (if n % 7 == 6 && ltb 0 time then n / 7 + 2 else n / 7 + 1)
unfolding week_number
week_number_lem before n time h = ground arith

start_of_week :
    (year w : ℕ)
    → year < 8030
    → w < 100
    → epoch_start_ms (print 10 (1970 + year) ++ codes "-W" ++ padded w) week_ms
      ≡ week_start (1970 + year) w
unfolding epoch_start_ms
start_of_week year w soon short =
    rw (match_week-print (1970 + year) w (omega arith) (omega arith) short, epoch_start_ms) refl

week_start_lem :
    (year w : ℕ)
    → week_start (1970 + year) w
      ≡ ((days_before year + 3 + w * 7) - ((days_before year + 3 + 3) % 7 + 7)) * day_ms
unfolding week_start
week_start_lem year w =
    let same : 1970 + year - 1970 ≡ year = omega arith in
    ap (λ y. ((days_before y + 3 + w * 7) - ((days_before y + 3 + 3) % 7 + 7)) * day_ms) same

-- The Monday that the number of the week leads to, which is a week later where the number is one too many.
late_monday :
    (before n w : ℕ) (b : Bool)
    → 7 ≤ before + n
    → (before + n) % 7 ≡ 0
    → w ≡ (if b then n / 7 + 2 else n / 7 + 1)
    → ((before + 3 + w * 7) - ((before + 3 + 3) % 7 + 7)) ≡ before + n - 3 + (if b then 7 else 0)
late_monday before n w true big whole e = omega arith
late_monday before n w false big whole e = omega arith

-- The start read back from the id of a time whose Thursday is the `n`th day of its year.
start_of_week_id :
    (now before n : ℕ)
    → week_ms ≤ now
    → before ≡ days_before (year_of (thursday_of now / day_ms))
    → before + n ≡ thursday_of now / day_ms
    → n < 366
    → year_of (thursday_of now / day_ms) < 8030
    → epoch_start_ms (compute_epoch_id now week_ms) week_ms
      ≡ (thursday_of now / day_ms - 3 + (if n % 7 == 6 && ltb 0 (now % day_ms) then 7 else 0))
        * day_ms
unfolding compute_epoch_id
start_of_week_id now before n late first sum short soon =
    let year = year_of (thursday_of now / day_ms) in
    let (split, monday, sunday, whole) = thursday_facts now late in
    let number = week_number (thursday_of now) (before * day_ms) in
    let counted : number ≡ (if n % 7 == 6 && ltb 0 (now % day_ms) then n / 7 + 2 else n / 7 + 1) =
      ap (λ t. week_number t (before * day_ms))
        (split ∙ ap (λ d. d * day_ms + now % day_ms) (sym sum))
      ∙ week_number_lem before n (now % day_ms) (omega arith) in
    let small : number < 100 = ground (arith, counted, short) in
    ap
      (λ b.
        epoch_start_ms
          (print 10 (1970 + year)
            ++ codes "-W"
            ++ padded (week_number (thursday_of now) (b * day_ms)))
          week_ms)
      (sym first)
    ∙ start_of_week year number soon small
    ∙ week_start_lem year number
    ∙ ap (λ b. ((b + 3 + number * 7) - ((b + 3 + 3) % 7 + 7)) * day_ms) (sym first)
    ∙ ap (λ d. d * day_ms)
        (late_monday before n number (n % 7 == 6 && ltb 0 (now % day_ms)) (omega arith)
          (omega arith) counted)
    ∙ ap (λ d. (d - 3 + (if n % 7 == 6 && ltb 0 (now % day_ms) then 7 else 0)) * day_ms) sum

monday_whole : (d : ℕ) → d % 7 ≡ 0 → 4 ≤ d → ((d - 3 + 7) * day_ms + 3 * day_ms) % week_ms ≡ 0
monday_whole d whole far = omega arith

-- The days before the year of the Thursday of a time.
abbrev pub before_year : ℕ → ℕ
before_year now = days_before (year_of (thursday_of now / day_ms))

-- Up to the year 9999, and from the second week of 1970 on: where the year of the week does not begin on
-- a Friday, the id of a time under a duration of one week names the week that the time is in, from the
-- start read back from the id on.
pub week_start-compute_id :
    (now : ℕ)
    → week_ms ≤ now
    → year_of (thursday_of now / day_ms) < 8030
    → before_year now % 7 ≢ 1
    → (epoch_start_ms (compute_epoch_id now week_ms) week_ms ≤ now)
      × (now < epoch_start_ms (compute_epoch_id now week_ms) week_ms + week_ms)
week_start-compute_id now late soon no_friday =
    let (begun, ended) = year_of-holds (thursday_of now / day_ms) in
    let (split, monday, sunday, whole) = thursday_facts now late in
    let n = thursday_of now / day_ms - before_year now in
    let sum : before_year now + n ≡ thursday_of now / day_ms = omega (arith, begun) in
    let short : n < 366 =
      omega (arith, ended, year_is_short (year_of (thursday_of now / day_ms)), sum) in
    let e = start_of_week_id now (before_year now) n late refl sum short soon in
    let test : n % 7 == 6 && ltb 0 (now % day_ms) ≡ false = ground (arith, no_friday, whole, sum) in
    let start : epoch_start_ms (compute_epoch_id now week_ms) week_ms
        ≡ (thursday_of now / day_ms - 3 + 0) * day_ms =
      e ∙ ap (λ (b : Bool). (thursday_of now / day_ms - 3 + (if b then 7 else 0)) * day_ms) test in
    (omega (arith, start), omega (arith, start))

-- Up to the year 9999, and from the second week of 1970 on: where the year of the week begins on a
-- Friday, and the time is not midnight, the id of a time under a duration of one week names the week after
-- the one that the time is in: the start read back from the id is a Monday, lies after the time, and at
-- most one week after it.
pub week_start-late :
    (now : ℕ)
    → week_ms ≤ now
    → year_of (thursday_of now / day_ms) < 8030
    → before_year now % 7 ≡ 1
    → 1 ≤ now % day_ms
    → let start = epoch_start_ms (compute_epoch_id now week_ms) week_ms in
      (now < start) × (start ≤ now + week_ms) × ((start + 3 * day_ms) % week_ms ≡ 0)
week_start-late now late soon friday day =
    let (begun, ended) = year_of-holds (thursday_of now / day_ms) in
    let (split, monday, sunday, whole) = thursday_facts now late in
    let n = thursday_of now / day_ms - before_year now in
    let sum : before_year now + n ≡ thursday_of now / day_ms = omega (arith, begun) in
    let short : n < 366 =
      omega (arith, ended, year_is_short (year_of (thursday_of now / day_ms)), sum) in
    let e = start_of_week_id now (before_year now) n late refl sum short soon in
    let test : n % 7 == 6 && ltb 0 (now % day_ms) ≡ true =
      ground (arith, friday, day, whole, sum) in
    let start : epoch_start_ms (compute_epoch_id now week_ms) week_ms
        ≡ (thursday_of now / day_ms - 3 + 7) * day_ms =
      e ∙ ap (λ (b : Bool). (thursday_of now / day_ms - 3 + (if b then 7 else 0)) * day_ms) test in
    (
      omega (arith, start),
      omega (arith, start),
      ap (λ x. (x + 3 * day_ms) % week_ms) start
          ∙ monday_whole (thursday_of now / day_ms) whole (omega (arith, sunday)),
    )
