-- ===== src/Goals/Preview/Agreement.antt =====
-- The amount that the frontend previews for a new goal is the one that the backend's plan of the
-- created goal recommends.
use monqom.Common.{
  ℕ, ◌+◌, ◌-◌, ◌≤◌, ◌<◌, ◌≡◌, refl, ap, ◌∙◌, Bool, true, false, some, arith, ltb, lt→ltb,
  if◌then◌else◌,
}
use monqom.Common.Int.{ℤ, pos, ◌+ℤ◌, +ℤ_parts, -ℤ_parts}
use monqom.Calendar.{Date, month_index, stamp, start_of_utc_month, add_utc_months_clamped, IsCivil}
use monqom.Calendar.Months.{
  days_in_month_bounds, start_of_utc_month_lem, add_utc_months_clamped-IsCivil,
}
use monqom.Calendar.Parse.{date_string}
use monqom.Calendar.DateOnly.Laws.{parts_of_date_string}
use monqom.Goals.Plan.{GoalPlanInput, ceil_div, calculate_goal_plan}
use monqom.Goals.Plan.Laws.{calculate_goal_plan_months, recommended_of_months}
use monqom.Goals.Preview.{Preview, PreviewInput, preview_monthly_amount}

-- The plan of a goal without operations, with the first month that `GoalsService.create` stores.
abbrev pub new_goal : (target initial : ℕ) → Bool → (today target_date : Date) → GoalPlanInput
new_goal target initial include_current_month today target_date = record {
  target_amount_cents = target;
  initial_amount_cents = initial;
  deposited_amount_cents = 0;
  withdrawn_amount_cents = 0;
  target_date = target_date;
  plan_start_month =
      start_of_utc_month (if include_current_month then today else add_utc_months_clamped today 1);
  today = today;
}

abbrev pub form : (target initial : ℕ) → Bool → (today target_date : Date) → PreviewInput
form target initial include_current_month today target_date = record {
  target_amount_cents = target;
  initial_amount_cents = initial;
  today = date_string today;
  target_date = date_string target_date;
  include_current_month = include_current_month;
}

abbrev offset : Bool → ℕ
offset true = 0
offset false = 1

first_month :
    (today : Date) (b : Bool)
    → IsCivil today
    → IsCivil (start_of_utc_month (if b then today else add_utc_months_clamped today 1))
      × (month_index (start_of_utc_month (if b then today else add_utc_months_clamped today 1))
          ≡ month_index today + offset b)
first_month today true c =
    rw (start_of_utc_month_lem today c)
      (ground (arith, days_in_month_bounds today.year today.month))
first_month today false c =
    let (civil, index, _) = add_utc_months_clamped-IsCivil today 1 c in
    let e = add_utc_months_clamped today 1 in
    rw (start_of_utc_month_lem e civil) (ground (arith, days_in_month_bounds e.year e.month))

abbrev previewed : ℕ → ℕ → Preview
previewed remaining months = record {
  months = months;
  monthly_amount_cents = if ltb 0 months then ceil_div remaining months else remaining;
}

offset_lem : (b : Bool) → (if b then 0 else 1) ≡ offset b
offset_lem true = refl
offset_lem false = refl

preview_lem :
    (target initial : ℕ) (b : Bool) (today day : Date)
    → IsCivil today
    → IsCivil day
    → today.year < 10000
    → day.year < 10000
    → preview_monthly_amount (form target initial b today day)
      ≡ some (previewed (target - initial) (month_index day + 1 - (month_index today + offset b)))
unfolding preview_monthly_amount
preview_lem target initial b today day c c' h h' =
    rw (parts_of_date_string today c h, preview_monthly_amount)
      (rw (parts_of_date_string day c' h', offset_lem b)
        (ap (λ months. some (previewed (target - initial) months)) (omega arith)))

offset_le : (b : Bool) → offset b ≤ 1
offset_le true = omega arith
offset_le false = omega arith

shortfall-new_goal :
    {Percentage : Type 0} (percent_of : ℤ → ℕ → Percentage) (zero_percent : Percentage)
    (target initial : ℕ) (b : Bool) (today day : Date)
    → (calculate_goal_plan percent_of zero_percent
        (new_goal target initial b today day)).remaining_amount_cents
      ≡ target - initial
unfolding calculate_goal_plan
shortfall-new_goal percent_of zero_percent target initial b today day =
    omega (arith, +ℤ_parts (pos initial) (pos 0), -ℤ_parts (pos initial +ℤ pos 0) (pos 0))

-- For a target day before the year 10000 that is at least a month from today, as
-- `GoalsService.create` demands, the frontend
-- previews as many months as the plan of the new goal has left, of which there is at least one,
-- and the monthly amount that the plan recommends.
pub preview_monthly_amount-eq-plan :
    {Percentage : Type 0} (percent_of : ℤ → ℕ → Percentage) (zero_percent : Percentage)
    (target initial : ℕ) (include_current_month : Bool) (today target_date : Date)
    → IsCivil today
    → IsCivil target_date
    → target_date.year < 10000
    → stamp (add_utc_months_clamped today 1) ≤ stamp target_date
    → (p : Preview) × (preview_monthly_amount
          (form target initial include_current_month today target_date)
        ≡ some p)
      × (1 ≤ p.months)
      × (let plan =
            calculate_goal_plan percent_of zero_percent
              (new_goal target initial include_current_month today target_date) in
          (plan.remaining_months ≡ p.months)
          × (plan.recommended_monthly_amount_cents ≡ some p.monthly_amount_cents))
preview_monthly_amount-eq-plan percent_of zero_percent target initial b today day c c' h far =
    let (next, index, _) = add_utc_months_clamped-IsCivil today 1 c in
    let (first, start) = first_month today b c in
    let low = days_in_month_bounds today.year today.month in
    let low' = days_in_month_bounds day.year day.month in
    let input = new_goal target initial b today day in
    let plan = calculate_goal_plan percent_of zero_percent input in
    let small = offset_le b in
    let months =
      calculate_goal_plan_months percent_of zero_percent input c' first c (omega arith) in
    let same : plan.remaining_months ≡ month_index day + 1 - (month_index today + offset b) =
      omega arith in
    let positive : 0 < plan.remaining_months = omega arith in
    let owed : plan.remaining_amount_cents ≡ target - initial =
      shortfall-new_goal percent_of zero_percent target initial b today day in
    (
      previewed (target - initial) (month_index day + 1 - (month_index today + offset b)),
      preview_lem target initial b today day c c' (omega arith) h,
      omega arith,
      (
        same,
        recommended_of_months percent_of zero_percent input positive
            ∙ rw
                (
                  owed,
                  same,
                  lt→ltb 0 (month_index day + 1 - (month_index today + offset b)) (omega arith),
                )
                refl,
      ),
    )
