-- ===== src/Goals/Preview.antt =====
-- frontend/src/lib/goals.ts: the dates and the monthly amount that a new goal is shown with.
-- `mapGoal` and `mapGoalOperation` only rename fields, and `todayInTimeZone` is a call of `Intl`.
pub mod Laws
pub mod Agreement
use monqom.Common.{
  ℕ, suc, ◌+◌, ◌-◌, ◌*◌, ◌/◌, min, max, Bool, Option, none, some, ◌∷◌, ◌++◌, ltb, if◌then◌else◌,
}
use monqom.Common.Chain.{◌>>=◌}
use monqom.Common.Int.{ℤ, pos, pos_part, sub_ℕ, ◌+ℤ◌}
use monqom.Common.Text.{Text, text_lt}
use monqom.Common.Digits.{show, pad_start}
use monqom.Calendar.{Date, date_of_index, date_utc}
use monqom.Calendar.DateOnly.{parse_date_only_parts, shifted}
use monqom.Goals.Plan.{ceil_div}

-- `dateParts`
abbrev pub date_parts : ℕ → ℕ → ℕ → Text
date_parts year month day =
    pad_start 4 (show year)
    ++ (b'-' ∷ (pad_start 2 (show month) ++ (b'-' ∷ pad_start 2 (show day))))

-- `none` is the `RangeError` of `requireDateOnlyParts`. The years of a goal's dates are at least
-- 100, and `months` reaches back to the year 0 at most.
unfoldable pub add_months_clamped : Text → ℤ → Option Text
add_months_clamped date months = do
  (year, month, day) ← parse_date_only_parts date
  let first = date_of_index (shifted year month months) 1
  let last_day = (date_utc first.year (first.month + 2) 0).day
  some (date_parts first.year (first.month + 1) (min day last_day))

unfoldable pub months_until_date : Text → Text → Option ℕ
months_until_date today target = do
  (ty, tm, _) ← parse_date_only_parts today
  (yy, ym, _) ← parse_date_only_parts target
  let months = sub_ℕ (yy * 12 + ym) (ty * 12 + tm)
  moved ← add_months_clamped today months
  let counted = if text_lt moved target then months +ℤ pos 1 else months
  some (min 120 (max 1 (pos_part counted)))

pub record Preview : Type 0 where
  pub months : ℕ
  pub monthly_amount_cents : ℕ

pub record PreviewInput : Type 0 where
  pub target_amount_cents : ℕ
  pub initial_amount_cents : ℕ
  pub today : Text
  pub target_date : Text
  pub include_current_month : Bool

-- The subtractions of ℕ stop at 0, as `Math.max(0, …)` and `Math.max(…, 0)` do.
unfoldable pub preview_monthly_amount : PreviewInput → Option Preview
preview_monthly_amount input = do
  (today_year, today_month, _) ← parse_date_only_parts input.today
  (target_year, target_month, _) ← parse_date_only_parts input.target_date
  let start_offset : ℕ = if input.include_current_month then 0 else 1
  let months = target_year * 12 + target_month + 1 - (today_year * 12 + today_month + start_offset)
  let remaining = input.target_amount_cents - input.initial_amount_cents
  some (record {
    months = months;
    monthly_amount_cents = if ltb 0 months then ceil_div remaining months else remaining;
  })
