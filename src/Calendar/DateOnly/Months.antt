-- ===== src/Calendar/DateOnly/Months.antt =====
-- `shiftMonth` and `getMonthDateRange` of frontend/src/lib/date-only.ts.
use monqom.Common.{ℕ, ◌+◌, ◌-◌, ◌*◌, ◌/◌, ◌%◌, ◌≤◌, ◌<◌, ◌≡◌, refl, some, arith, slice, le→ltb}
use mathlib.Core.Path.{ap₂, subst}
use monqom.Common.Int.{ℤ, pos, ◌-ℤ◌, -ℤ_parts, pos_part, neg_part}
use monqom.Common.Text.{Text}
use monqom.Common.Digits.{pad_start-two, show-four}
use monqom.Calendar.{date, days_in_month, date_of_index, date_utc, advance}
use monqom.Calendar.Months.{days_in_month_bounds}
use monqom.Calendar.Parse.{
  dashed, parse_date_only-dashed, dashed_month, parse_year_month-dashed, parse_date_only,
}
use monqom.Calendar.DateOnly.{
  number, parse_year_month, month_text, shifted, shift_month, get_month_date_range,
}

number-dashed_month :
    (y m : ℕ)
    → (number (slice 0 4 (dashed_month y m)) ≡ y) × (number (slice 5 7 (dashed_month y m)) ≡ m)
unfolding number
number-dashed_month y m = (omega arith, omega arith)

pub read-dashed_month :
    (y m : ℕ) → y < 10000 → 1 ≤ m → m ≤ 12 → parse_year_month (dashed_month y m) ≡ some (y, m)
unfolding parse_year_month
read-dashed_month y m h l k =
    rw (parse_year_month-dashed y m h l k) (ground (arith, number-dashed_month y m))

month_text-dashed : (y m : ℕ) → 1000 ≤ y → y < 10000 → m < 100 → month_text y m ≡ dashed_month y m
month_text-dashed y m l h k = rw (show-four y l h, pad_start-two m k) refl

-- `shiftMonth` moves a month of the years 1000 to 9999 by `delta` months, forward or back, as long
-- as the result stays in those years.
pub shift_month_lem :
    (y m : ℕ) (delta : ℤ)
    → 1000 ≤ y
    → y < 10000
    → 1 ≤ m
    → m ≤ 12
    → 12000 ≤ shifted y m delta
    → shifted y m delta < 120000
    → shift_month (dashed_month y m) delta
      ≡ dashed_month (shifted y m delta / 12) (shifted y m delta % 12 + 1)
unfolding shift_month date_of_index advance
shift_month_lem y m delta l h k j low high =
    rw (read-dashed_month y m h k j, shift_month)
      (month_text-dashed (shifted y m delta / 12) (shifted y m delta % 12 + 1) (omega arith)
        (omega arith) (omega arith))

shifted_lem :
    (y m : ℕ) (delta : ℤ)
    → 100 ≤ y
    → shifted y m delta ≡ y * 12 + m - 1 + pos_part delta - neg_part delta
shifted_lem y m delta h = rw (le→ltb y 100 h) refl

-- Months taken from a month whose index is known.
shift_to :
    (i j : ℕ) (delta : ℤ)
    → 12000 ≤ i
    → i < 120000
    → 12000 ≤ j
    → j < 120000
    → i + pos_part delta - neg_part delta ≡ j
    → shift_month (dashed_month (i / 12) (i % 12 + 1)) delta ≡ dashed_month (j / 12) (j % 12 + 1)
shift_to i j delta l h l' h' e =
    let reach = shifted_lem (i / 12) (i % 12 + 1) delta (omega arith) in
    let same : shifted (i / 12) (i % 12 + 1) delta ≡ j = omega arith in
    rw
      (
        shift_month_lem (i / 12) (i % 12 + 1) delta (omega arith) (omega arith) (omega arith)
            (omega arith) (omega arith) (omega arith),
        same,
      )
      refl

-- For months of the years 1000 to 9999, going `n` months forward and `n` months back gives the
-- month again, if the way does not leave those years.
pub shift_month_back :
    (y m n : ℕ)
    → 1000 ≤ y
    → y * 12 + m + n ≤ 120000
    → 1 ≤ m
    → m ≤ 12
    → shift_month (shift_month (dashed_month y m) (pos n)) (pos 0 -ℤ pos n) ≡ dashed_month y m
shift_month_back y m n l h k j =
    let i = y * 12 + m - 1 in
    let parts = -ℤ_parts (pos 0) (pos n) in
    let written : dashed_month (i / 12) (i % 12 + 1) ≡ dashed_month y m =
      ap₂ dashed_month (omega arith) (omega arith) in
    subst (λ t. shift_month (shift_month t (pos n)) (pos 0 -ℤ pos n) ≡ t) written
      (rw
        (shift_to i (i + n) (pos n) (omega arith) (omega arith) (omega arith) (omega arith)
          (omega arith))
        (shift_to (i + n) i (pos 0 -ℤ pos n) (omega arith) (omega arith) (omega arith) (omega arith)
          (omega arith)))

last_day :
    (y m : ℕ) → 100 ≤ y → 1 ≤ m → m ≤ 12 → (date_utc y (m + 1) 0).day ≡ days_in_month y (m - 1)
unfolding date_utc
last_day y m h k j = ground arith

-- The range of a month of the years 100 to 9999 begins on its first day and ends on its last one,
-- as the backend reads the two dates.
pub get_month_date_range_lem :
    (y m : ℕ)
    → 100 ≤ y
    → y < 10000
    → 1 ≤ m
    → m ≤ 12
    → (from : Text) × (to : Text) × (get_month_date_range (dashed_month y m) ≡ some (from, to))
      × (parse_date_only from ≡ some (date y (m - 1) 1))
      × (parse_date_only to ≡ some (date y (m - 1) (days_in_month y (m - 1))))
unfolding get_month_date_range
get_month_date_range_lem y m l h k j =
    let bounds = days_in_month_bounds y (m - 1) in
    (
      dashed y m 1,
      dashed y m (days_in_month y (m - 1)),
      rw (read-dashed_month y m h k j, get_month_date_range)
          (rw (last_day y m l k j)
            (rw (pad_start-two (days_in_month y (m - 1)) (omega arith)) refl)),
      parse_date_only-dashed y m 1 l h k j (omega arith) (omega arith),
      parse_date_only-dashed y m (days_in_month y (m - 1)) l h k j (omega arith) (omega arith),
    )
