-- ===== src/Calendar/Months.antt =====
-- Walking the calendar by days and by months: `Date.UTC`, `startOfUtcMonth` and
-- `addUtcMonthsClamped` of backend/src/modules/goals/goal-plan.calculator.ts.
use monqom.Common.{ℕ, zero, suc, ◌+◌, ◌*◌, ◌/◌, ◌%◌, ◌≤◌, ◌<◌, min, ◌≡◌, arith}
use monqom.Calendar.{
  Date, date, days_in_month, month_index, in_month, month_length, next_day, advance, date_utc,
  stamp, start_of_utc_month, add_utc_months_clamped, IsCivil,
}

pub days_in_month_bounds : (y m : ℕ) → (28 ≤ days_in_month y m) × (days_in_month y m ≤ 31)
unfolding days_in_month
days_in_month_bounds y m = ground arith

-- The days go forward in the order of `stamp`.
pub stamp-lt-next_day : (d : Date) → IsCivil d → stamp d < stamp (next_day d)
unfolding next_day
stamp-lt-next_day d c = ground (arith, days_in_month_bounds d.year d.month)

-- Inside a month the walk counts the days up.
pub advance-in_month :
    (n y m d : ℕ) → d + n ≤ days_in_month y m → advance n (date y m d) ≡ date y m (d + n)
unfolding advance next_day
advance-in_month zero y m d h = ground arith
advance-in_month (suc n) y m d h = ground (arith, advance-in_month n y m (d + 1))

month_index-in_month : (i k : ℕ) → month_index (in_month i k) ≡ i
month_index-in_month i k = omega arith

next_day-month_index : (d : Date) → (month_index d ≤ month_index (next_day d))
unfolding next_day
next_day-month_index d = ground arith

pub advance-month_index : (n : ℕ) (d : Date) → month_index d ≤ month_index (advance n d)
unfolding advance
advance-month_index zero d = omega arith
advance-month_index (suc n) d =
    omega (arith, advance-month_index n (next_day d), next_day-month_index d)

-- A walk past the end of a month leaves the month.
pub advance-leaves :
    (n y m d : ℕ)
    → d ≤ days_in_month y m
    → days_in_month y m < d + n
    → y * 12 + m < month_index (advance n (date y m d))
unfolding advance next_day
advance-leaves zero y m d h k = absurd (omega arith)
advance-leaves (suc n) y m d h k =
    ground
      (arith, advance-leaves n y m (d + 1), advance-month_index n (in_month (y * 12 + m + 1) 1))

-- A day of a month, of a year past 99, whatever the month's number.
pub date_utc-in_month :
    (y m k : ℕ)
    → 100 ≤ y
    → 1 ≤ k
    → k ≤ month_length (y * 12 + m)
    → date_utc y (m + 1) k ≡ in_month (y * 12 + m) k
unfolding date_utc
date_utc-in_month y m zero h l k = absurd (omega arith)
date_utc-in_month y m (suc n) h l k =
    ground (arith, advance-in_month n ((y * 12 + m) / 12) ((y * 12 + m) % 12) 1)

-- Day 0 of a month is the last day of the month before.
pub date_utc_zero :
    (y m : ℕ) → 100 ≤ y → date_utc y (m + 2) 0 ≡ in_month (y * 12 + m) (month_length (y * 12 + m))
unfolding date_utc
date_utc_zero y m h = ground arith

-- `Date.UTC` with the parts of a date of the calendar gives that date.
pub date_utc_of_IsCivil : (d : Date) → IsCivil d → date_utc d.year (d.month + 1) d.day ≡ d
date_utc_of_IsCivil d c = ground (arith, date_utc-in_month d.year d.month d.day)

pub start_of_utc_month_lem : (d : Date) → IsCivil d → start_of_utc_month d ≡ date d.year d.month 1
unfolding start_of_utc_month
start_of_utc_month_lem d c =
    ground (arith, date_utc-in_month d.year d.month 1, days_in_month_bounds d.year d.month)

-- The same months later, on the same day or on the last one of a shorter month.
pub add_utc_months_clamped_lem :
    (d : Date) (n : ℕ)
    → IsCivil d
    → add_utc_months_clamped d n
      ≡ in_month (month_index d + n) (min d.day (month_length (month_index d + n)))
unfolding add_utc_months_clamped
add_utc_months_clamped_lem d n c = ground (
  arith,
  date_utc_zero d.year (d.month + n),
  date_utc-in_month d.year (d.month + n) (min d.day (month_length (month_index d + n))),
  days_in_month_bounds ((d.year * 12 + (d.month + n)) / 12) ((d.year * 12 + (d.month + n)) % 12),
)

-- Adding `n` months to a date of the calendar, of a year from 100 on, gives a date of the calendar in the month `n` months
-- later, on the same day where that month has it, and otherwise on that month's last day.
pub add_utc_months_clamped-IsCivil :
    (d : Date) (n : ℕ)
    → IsCivil d
    → IsCivil (add_utc_months_clamped d n)
      × (month_index (add_utc_months_clamped d n) ≡ month_index d + n)
      × ((add_utc_months_clamped d n).day
          ≡ min d.day
              (days_in_month (add_utc_months_clamped d n).year (add_utc_months_clamped d n).month))
add_utc_months_clamped-IsCivil d n c =
    rw (add_utc_months_clamped_lem d n c)
      (ground (arith, days_in_month_bounds ((month_index d + n) / 12) ((month_index d + n) % 12)))

-- For dates of the calendar, adding months keeps the order: a date that is not later, moved by no
-- more months, is not later.
pub add_utc_months_clamped_mono :
    (d e : Date) (n k : ℕ)
    → IsCivil d
    → IsCivil e
    → stamp d ≤ stamp e
    → n ≤ k
    → stamp (add_utc_months_clamped d n) ≤ stamp (add_utc_months_clamped e k)
add_utc_months_clamped_mono d e n k c c' h l =
    rw (add_utc_months_clamped_lem d n c, add_utc_months_clamped_lem e k c')
      (ground (
        arith,
        days_in_month_bounds ((month_index d + n) / 12) ((month_index d + n) % 12),
        days_in_month_bounds ((month_index e + k) / 12) ((month_index e + k) % 12),
        days_in_month_bounds d.year d.month,
        days_in_month_bounds e.year e.month,
      ))
