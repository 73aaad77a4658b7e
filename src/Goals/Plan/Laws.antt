-- ===== src/Goals/Plan/Laws.antt =====
-- What the plan of a goal says.
use monqom.Common.{ℕ, ◌+◌, ◌-◌, ◌*◌, ◌≤◌, ◌<◌, max, ◌≡◌, ◌↔◌, ◌⊎◌, none, some, arith}
use native.Mathlib.Nat.{div-add-mod}
use monqom.Common.Int.{ℤ, pos, ◌≤ℤ◌, ◌+ℤ◌, +ℤ_parts}
use monqom.Calendar.{Date, date, month_index, stamp, IsCivil}
use monqom.Calendar.Months.{start_of_utc_month_lem, days_in_month_bounds}
use monqom.Goals.Plan.{
  completed, overdue, GoalPlanInput, later_month, inclusive_month_count, shortfall, ceil_div,
  current_of, months_left, calculate_goal_plan,
}

pub ceil_div_lem : (a n : ℕ) → 0 < n → (a ≤ ceil_div a n * n) × (ceil_div a n * n < a + n)
ceil_div_lem a n h =
    (grind (arith, div-add-mod (a + (n - 1)) n), grind (arith, div-add-mod (a + (n - 1)) n))

ceil_div_zero : (n : ℕ) → 0 < n → ceil_div 0 n ≡ 0
ceil_div_zero n h = grind (arith, div-add-mod (0 + (n - 1)) n)

-- The later of two dates gives the later of their months.
pub later_month-index :
    (d e : Date)
    → IsCivil d
    → IsCivil e
    → month_index (later_month d e) ≡ max (month_index d) (month_index e)
unfolding later_month
later_month-index d e c c' = ground (
  arith,
  start_of_utc_month_lem d c,
  start_of_utc_month_lem e c',
  days_in_month_bounds d.year d.month,
  days_in_month_bounds e.year e.month,
)

module _ {Percentage : Type 0} (percent_of : ℤ → ℕ → Percentage) (zero_percent : Percentage) where
  -- A recommended amount, paid in each remaining month, reaches the target; and a positive one is
  -- the least that does, since one cent less in each month would fall short of what remains.
  pub calculate_goal_plan_reaches_target :
      (input : GoalPlanInput) (amount : ℕ)
      → let plan = calculate_goal_plan percent_of zero_percent input in
        plan.recommended_monthly_amount_cents ≡ some amount
        → (pos input.target_amount_cents
            ≤ℤ plan.current_amount_cents +ℤ pos (amount * plan.remaining_months))
          × ((amount ≡ 0)
              ⊎ (amount * plan.remaining_months
                  < plan.remaining_amount_cents + plan.remaining_months))
  unfolding calculate_goal_plan
  calculate_goal_plan_reaches_target input amount h = ground (
    arith,
    +ℤ_parts (current_of input) (pos (amount * months_left input)),
    ceil_div_lem (shortfall input.target_amount_cents (current_of input)) (months_left input),
  )

  -- The status and the recommendation of a goal: `completed` exactly when the current amount
  -- reaches the target; otherwise `overdue` exactly when the target day is before today; and no
  -- amount is recommended exactly when a goal is not completed and has no month left.
  pub calculate_goal_plan_status :
      (input : GoalPlanInput)
      → let plan = calculate_goal_plan percent_of zero_percent input in
        ((plan.status ≡ completed) ↔ (pos input.target_amount_cents ≤ℤ plan.current_amount_cents))
        × ((plan.status ≡ overdue) ↔ (
            ¬ (pos input.target_amount_cents ≤ℤ plan.current_amount_cents)
            × (stamp input.target_date < stamp input.today)))
        × ((plan.recommended_monthly_amount_cents ≡ none)
            ↔ (¬ (plan.status ≡ completed) × (plan.remaining_months ≡ 0)))
  unfolding calculate_goal_plan months_left
  calculate_goal_plan_status input = ground arith

  -- A goal that is not overdue, all of whose dates are days of the calendar, has the months from the later of its first month and the current
  -- month to the month of its target day, both counted.
  pub calculate_goal_plan_months :
      (input : GoalPlanInput)
      → IsCivil input.target_date
      → IsCivil input.plan_start_month
      → IsCivil input.today
      → stamp input.today ≤ stamp input.target_date
      → (calculate_goal_plan percent_of zero_percent input).remaining_months
        ≡ month_index input.target_date
          + 1
          - max (month_index input.plan_start_month) (month_index input.today)
  unfolding calculate_goal_plan months_left inclusive_month_count
  calculate_goal_plan_months input t s n h = ground (
    arith,
    start_of_utc_month_lem input.target_date t,
    start_of_utc_month_lem input.today n,
    later_month-index input.plan_start_month (date input.today.year input.today.month 1) s,
    days_in_month_bounds input.today.year input.today.month,
  )

  -- With a month left there is a recommendation, a completed goal's included.
  pub recommended_of_months :
      (input : GoalPlanInput)
      → let plan = calculate_goal_plan percent_of zero_percent input in
        0 < plan.remaining_months
        → plan.recommended_monthly_amount_cents
          ≡ some (ceil_div plan.remaining_amount_cents plan.remaining_months)
  unfolding calculate_goal_plan
  recommended_of_months input h = ground (arith, ceil_div_zero (months_left input))
