-- ===== src/Calendar.antt =====
-- The calendar dates that the code keeps in JavaScript `Date` objects: midnights in UTC, as
-- `Date.UTC` makes them and `getUTCFullYear`, `getUTCMonth` and `getUTCDate` read them.
-- backend/src/shared/utils/validation.ts (`parseDateOnly`, `parseYearMonth`) and
-- backend/src/modules/goals/goal-plan.calculator.ts (the helpers on dates) are translated here.
-- Years stay below 10000, far inside the range of `Date`, so that `getTime()` is never NaN.
pub mod Months
pub mod Parse
pub mod DateOnly
use monqom.Common.{
  ℕ, zero, suc, ◌+◌, ◌-◌, ◌*◌, ◌/◌, ◌%◌, min, Bool, not, ◌&&◌, ◌||◌, ◌≤◌, ◌<◌, ltb, ◌==◌,
  if◌then◌else◌,
}

-- `month` counts from 0, as `getUTCMonth()` does.
pub record Date : Type 0 where
  pub year : ℕ
  pub month : ℕ
  pub day : ℕ

-- 29 February is there in the years that `Date` takes for leap years.
unfoldable pub is_leap : ℕ → Bool
is_leap y = (y % 4 == 0) && (not (y % 100 == 0) || (y % 400 == 0))

abbrev is_short_month : ℕ → Bool
is_short_month m = (m == 3) || (m == 5) || (m == 8) || (m == 10)

-- the month counts from 0
unfoldable pub days_in_month : ℕ → ℕ → ℕ
days_in_month y m =
    let february = if is_leap y then 29 else 28 in
    if is_short_month m then 30 else if m == 1 then february else 31

abbrev pub date : (year month day : ℕ) → Date
date year month day = record { year = year; month = month; day = day }

-- Months since year 0: the number that `getUTCFullYear() * 12 + getUTCMonth()` is.
abbrev pub month_index : Date → ℕ
month_index d = d.year * 12 + d.month

-- The date `day` of the month with a given index.
abbrev pub in_month : ℕ → ℕ → Date
in_month index day = date (index / 12) (index % 12) day

abbrev pub month_length : ℕ → ℕ
month_length index = days_in_month (index / 12) (index % 12)

unfoldable pub next_day : Date → Date
next_day d =
    if ltb d.day (days_in_month d.year d.month)
    then date d.year d.month (d.day + 1)
    else in_month (month_index d + 1) 1

unfoldable pub advance : ℕ → Date → Date
advance zero d = d
advance (suc n) d = advance n (next_day d)

-- `Date.UTC` takes the years 0 to 99 for 1900 to 1999.
abbrev pub full_year : ℕ → ℕ
full_year y = if ltb y 100 then 1900 + y else y

-- The date `day` of the month with a given index, counted from its first day: days past the end
-- roll over, and day 0 is the last day of the month before.
unfoldable pub date_of_index : ℕ → ℕ → Date
date_of_index index zero = in_month (index - 1) (month_length (index - 1))
date_of_index index (suc n) = advance n (in_month index 1)

-- `new Date(Date.UTC(year, month - 1, day))`. The first month counts as 1, so that the source's
-- `month - 1` of a month "00" needs no negative number.
unfoldable pub date_utc : ℕ → ℕ → ℕ → Date
unfolding date_of_index
date_utc year month day = date_of_index (full_year year * 12 + month - 1) day

-- A number that orders midnights as `getTime()` does (`Calendar.Months.stamp-lt-next_day`).
abbrev pub stamp : Date → ℕ
stamp d = month_index d * 32 + d.day

-- `startOfUtcMonth`
unfoldable pub start_of_utc_month : Date → Date
start_of_utc_month d = date_utc d.year (d.month + 1) 1

-- `addUtcMonthsClamped`
unfoldable pub add_utc_months_clamped : Date → ℕ → Date
add_utc_months_clamped d months =
    let month = d.month + months in
    let last_day = (date_utc d.year (month + 2) 0).day in
    date_utc d.year (month + 1) (min d.day last_day)

-- A day that the calendar has, in a year that `Date.UTC` takes as it is.
pub record IsCivil (d : Date) : Type 0 where
  pub year_low : 100 ≤ d.year
  pub month_high : d.month < 12
  pub day_low : 1 ≤ d.day
  pub day_high : d.day ≤ days_in_month d.year d.month
