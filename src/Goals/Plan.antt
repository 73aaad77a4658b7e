-- ===== src/Goals/Plan.antt =====
-- backend/src/modules/goals/goal-plan.calculator.ts. Amounts are whole cents. The percentage is a
-- quotient of binary floats, cut to two places: its type and the division are parameters.
pub mod Laws
use monqom.Common.{
  ℕ, ◌+◌, ◌-◌, ◌*◌, ◌/◌, ◌≤◌, ◌<◌, max, Bool, true, false, Option, none, some, ltb, leb, ◌==◌,
  if◌then◌else◌,
}
use monqom.Common.Int.{ℤ, pos, pos_part, neg_part, ◌+ℤ◌, ◌-ℤ◌, leb_ℤ}
use monqom.Calendar.{Date, month_index, stamp, start_of_utc_month}

pub data GoalStatus : Type 0 where
  active completed overdue : GoalStatus

pub record GoalPlan (Percentage : Type 0) : Type 0 where
  pub current_amount_cents : ℤ
  pub remaining_amount_cents : ℕ
  pub progress_percentage : Percentage
  pub remaining_months : ℕ
  pub recommended_monthly_amount_cents : Option ℕ
  pub status : GoalStatus

pub record GoalPlanInput : Type 0 where
  pub target_amount_cents : ℕ
  pub initial_amount_cents : ℕ
  pub deposited_amount_cents : ℕ
  pub withdrawn_amount_cents : ℕ
  pub target_date : Date
  pub plan_start_month : Date
  pub today : Date

-- `laterMonth`
unfoldable pub later_month : Date → Date → Date
later_month left right =
    if leb (stamp right) (stamp left) then start_of_utc_month left else start_of_utc_month right

-- `inclusiveMonthCount`: the difference is taken before `Math.max(…, 0)`, as `-` of ℕ does.
unfoldable pub inclusive_month_count : Date → Date → ℕ
inclusive_month_count start end = month_index end + 1 - month_index start

-- `Math.max(target - current, 0)`
abbrev pub shortfall : ℕ → ℤ → ℕ
shortfall target current = target + neg_part current - pos_part current

-- `Math.ceil(amount / months)`
abbrev pub ceil_div : ℕ → ℕ → ℕ
ceil_div amount months = (amount + (months - 1)) / months

abbrev pub current_of : GoalPlanInput → ℤ
current_of input =
    pos input.initial_amount_cents
    +ℤ pos input.deposited_amount_cents
    -ℤ pos input.withdrawn_amount_cents

abbrev pub is_completed : GoalPlanInput → Bool
is_completed input = leb_ℤ (pos input.target_amount_cents) (current_of input)

-- `compareDateOnly(targetDate, today) < 0`
abbrev pub is_overdue : GoalPlanInput → Bool
is_overdue input = ltb (stamp input.target_date) (stamp input.today)

abbrev pub status_of : GoalPlanInput → GoalStatus
status_of input =
    if is_completed input then completed else if is_overdue input then overdue else active

unfoldable pub months_left : GoalPlanInput → ℕ
months_left input =
    if is_overdue input
    then 0
    else inclusive_month_count (later_month input.plan_start_month (start_of_utc_month input.today))
        (start_of_utc_month input.target_date)

module _ {Percentage : Type 0} (percent_of : ℤ → ℕ → Percentage) (zero_percent : Percentage) where
  unfoldable pub calculate_goal_plan : GoalPlanInput → GoalPlan Percentage
  calculate_goal_plan input =
      let current = current_of input in
      let remaining = shortfall input.target_amount_cents current in
      let months = months_left input in
      record {
        current_amount_cents = current;
        remaining_amount_cents = remaining;
        progress_percentage =
            if input.target_amount_cents == 0
            then zero_percent
            else percent_of current input.target_amount_cents;
        remaining_months = months;
        recommended_monthly_amount_cents =
            if is_completed input
            then some 0
            else if ltb 0 months
            then some (ceil_div remaining months)
            else none;
        status = status_of input;
      }
