-- ===== src/Tests/Goals.antt =====
-- Runs of the goal plans and previews, and instances of their theorems.
use monqom.Common.{ℕ, ◌+◌, ◌-◌, ◌*◌, ◌≤◌, ◌<◌, ◌≡◌, refl, ◌↔◌, ◌⊎◌, max, true, none, some, arith}
use monqom.Common.Int.{ℤ, pos, ◌≤ℤ◌, ◌+ℤ◌, ◌-ℤ◌}
use monqom.Common.Digits.{show, pad_start, digits, expect}
use monqom.Calendar.{
  Date, date, is_leap, days_in_month, month_index, stamp, next_day, advance, date_utc,
  start_of_utc_month, add_utc_months_clamped, IsCivil,
}
use monqom.Calendar.Parse.{match_date_only, date_string}
use monqom.Goals.Plan.{
  GoalPlan, GoalPlanInput, GoalStatus, later_month, inclusive_month_count, months_left,
  calculate_goal_plan,
}
use monqom.Goals.Plan.Laws.{
  calculate_goal_plan_reaches_target, calculate_goal_plan_status, calculate_goal_plan_months,
}
use monqom.Goals.Preview.{Preview, add_months_clamped, months_until_date, preview_monthly_amount}
use monqom.Goals.Preview.Laws.{add_months_clamped-eq, months_until_date_least}
use monqom.Goals.Preview.Agreement.{new_goal, form, preview_monthly_amount-eq-plan}

run : Unit {0}
unfolding is_leap days_in_month next_day advance date_utc start_of_utc_month add_utc_months_clamped
    digits expect show pad_start match_date_only date_string later_month inclusive_month_count
    months_left calculate_goal_plan ◌+ℤ◌ ◌-ℤ◌
run = tt

abbrev today : Date
today = date 2026 0 31

abbrev holiday : Date
holiday = date 2026 5 15

days-IsCivil : IsCivil today × IsCivil holiday
unfolding run
days-IsCivil = (omega arith, omega arith)

-- 1000.00 to save from 100.00, with a deposit of 50.00, in five months from February.
abbrev input : GoalPlanInput
input = record {
  target_amount_cents = 100000;
  initial_amount_cents = 10000;
  deposited_amount_cents = 5000;
  withdrawn_amount_cents = 0;
  target_date = holiday;
  plan_start_month = date 2026 1 1;
  today = today;
}

abbrev ratio : ℤ → ℕ → ℤ × ℕ
ratio a b = (a, b)

abbrev plan : GoalPlan (ℤ × ℕ)
plan = calculate_goal_plan ratio (pos 0, 1) input

plan_lem : plan ≡ record {
  current_amount_cents = pos 15000;
  remaining_amount_cents = 85000;
  progress_percentage = (pos 15000, 100000);
  remaining_months = 5;
  recommended_monthly_amount_cents = some 17000;
  status = GoalStatus.active;
}
unfolding run
plan_lem = refl

recommended : plan.recommended_monthly_amount_cents ≡ some 17000
unfolding run
recommended = refl

calculate_goal_plan_reaches_target_example :
    (pos 100000 ≤ℤ plan.current_amount_cents +ℤ pos (17000 * plan.remaining_months))
    × ((◌≡◌ {A = ℕ} 17000 0)
        ⊎ (17000 * plan.remaining_months < plan.remaining_amount_cents + plan.remaining_months))
calculate_goal_plan_reaches_target_example =
    calculate_goal_plan_reaches_target ratio (pos 0, 1) input 17000 recommended

calculate_goal_plan_status_example :
    ((plan.status ≡ GoalStatus.completed) ↔ (pos 100000 ≤ℤ plan.current_amount_cents))
    × ((plan.status ≡ GoalStatus.overdue)
        ↔ (¬ (pos 100000 ≤ℤ plan.current_amount_cents) × (stamp holiday < stamp today)))
    × ((plan.recommended_monthly_amount_cents ≡ none)
        ↔ (¬ (plan.status ≡ GoalStatus.completed) × (plan.remaining_months ≡ 0)))
calculate_goal_plan_status_example = calculate_goal_plan_status ratio (pos 0, 1) input

calculate_goal_plan_months_example :
    plan.remaining_months
    ≡ month_index holiday + 1 - max (month_index (date 2026 1 1)) (month_index today)
unfolding run
calculate_goal_plan_months_example =
    calculate_goal_plan_months ratio (pos 0, 1) input days-IsCivil.1 (omega arith) days-IsCivil.0
      (omega arith)

add_months_clamped-eq_example :
    add_months_clamped (date_string today) (pos 1)
    ≡ some (date_string (add_utc_months_clamped today 1))
unfolding run
add_months_clamped-eq_example = add_months_clamped-eq today 1 days-IsCivil.0 (omega arith)

months_until_date_least_example :
    (months : ℕ) × (months_until_date (date_string today) (date_string holiday) ≡ some months)
    × (1 ≤ months)
    × (months ≤ 120)
    × (stamp holiday ≤ stamp (add_utc_months_clamped today months))
    × ((months ≡ 1) ⊎ (stamp (add_utc_months_clamped today (months - 1)) < stamp holiday))
unfolding run
months_until_date_least_example =
    months_until_date_least today holiday days-IsCivil.0 days-IsCivil.1 (omega arith) (omega arith)
      (omega arith)

preview_monthly_amount-eq-plan_example :
    (p : Preview) × (preview_monthly_amount (form 100000 10000 true today holiday) ≡ some p)
    × (1 ≤ p.months)
    × (let new_plan =
          calculate_goal_plan ratio (pos 0, 1) (new_goal 100000 10000 true today holiday) in
        (new_plan.remaining_months ≡ p.months)
        × (new_plan.recommended_monthly_amount_cents ≡ some p.monthly_amount_cents))
unfolding run
preview_monthly_amount-eq-plan_example =
    preview_monthly_amount-eq-plan ratio (pos 0, 1) 100000 10000 true today holiday days-IsCivil.0
      days-IsCivil.1 (omega arith) (omega arith)
