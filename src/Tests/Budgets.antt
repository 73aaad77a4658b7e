-- ===== src/Tests/Budgets.antt =====
-- Runs of the budget progress, and instances of its theorems.
use monqom.Common.{
  All, ℕ, ◌+◌, ◌*◌, ◌<◌, ◌≤◌, ◌≡◌, refl, ◌||◌, true, false, Option, none, some, [], ◌∷◌, map, arith,
  ◌==◌, ltb, if◌then◌else◌, filter,
}
use monqom.Common.Text.{codes}
use monqom.Budgets.Progress.{
  Category, ProgressInput, is_some, progress_row, child_ids_by_parent_id,
  budget_amount_by_category_id, own_spent_by_category_id, get_or, get_total_spent, add_relevant,
  progress_rows, calculate_percentage_basis_points, calculate_budget_progress,
}
use monqom.Budgets.Progress.Totals.{IsTreeTotal, IsTree}
use monqom.Budgets.Progress.Laws.{
  calculate_percentage_basis_points_nearest, calculate_budget_progress-eq,
}
use monqom.Budgets.Progress.Maps.{maps_lem}

calculate_percentage_basis_points_nearest_example :
    let points = calculate_percentage_basis_points 1250 30000 in
    (2 * (points * 30000) ≤ 2 * (1250 * 10000) + 30000)
    × (2 * (1250 * 10000) < 2 * (points * 30000) + 30000)
calculate_percentage_basis_points_nearest_example =
    calculate_percentage_basis_points_nearest 1250 30000 (omega arith)

abbrev category : ℕ → Option ℕ → Category
category id parent = record { id = id; parent_id = parent; name = codes "Food"; system_key = none }

-- Category 2 stands below 1; 3 has nothing spent and no budget.
abbrev household : ProgressInput
household = record {
  categories = category 1 none ∷ category 2 (some 1) ∷ category 3 none ∷ [];
  budgets =
      record { category_id = some 1; amount = 30000 }
      ∷ record { category_id = none; amount = 5 }
      ∷ [];
  spending =
      record { category_id = 2; amount = 1000 } ∷ record { category_id = 1; amount = 250 } ∷ [];
}

abbrev spent_below : ℕ → ℕ
spent_below id = if id == 1 then 1250 else if id == 2 then 1000 else 0

abbrev height : ℕ → ℕ
height id = if id == 1 then 1 else 0

household-IsTreeTotal :
    IsTreeTotal
      (own_spent_by_category_id household.spending)
      (child_ids_by_parent_id household.categories)
      spent_below
unfolding own_spent_by_category_id child_ids_by_parent_id
household-IsTreeTotal id = ground arith

household-IsTree : IsTree (child_ids_by_parent_id household.categories) height 2
unfolding child_ids_by_parent_id
household-IsTree id =
    elim (id == 1)
      as (λ b.
        ((if b then 1 else 0) < 2)
        × All (λ c. height c < (if b then 1 else 0))
            (get_or (if b then some (2 ∷ []) else none) [])) [
              | true ↦ (omega arith, (omega arith, tt))
              | false ↦ (omega arith, tt)
            ]

calculate_budget_progress-eq_example :
    let get =
      get_total_spent 2
        (own_spent_by_category_id household.spending)
        (child_ids_by_parent_id household.categories) in
    let budgets = budget_amount_by_category_id household.budgets in
    calculate_budget_progress 2 household
    ≡ map
        (λ c. progress_row get budgets c (spent_below c.id))
        (filter (λ c. is_some (budgets c.id) || ltb 0 (spent_below c.id)) household.categories)
calculate_budget_progress-eq_example =
    calculate_budget_progress-eq household spent_below height 2 household-IsTreeTotal
      household-IsTree

maps_lem_example :
    (get_or (own_spent_by_category_id household.spending 1) 0 ≡ 250)
    × (get_or (child_ids_by_parent_id household.categories 1) [] ≡ 2 ∷ [])
    × (budget_amount_by_category_id household.budgets 1 ≡ some 30000)
maps_lem_example = maps_lem household.spending household.categories household.budgets 1

-- 12.50 of 300.00 is 4.17 percent.
household_rows :
    map (λ p. p.percentage_basis_points) (calculate_budget_progress 2 household)
    ≡ some 417 ∷ none ∷ []
unfolding calculate_budget_progress own_spent_by_category_id child_ids_by_parent_id
    budget_amount_by_category_id get_total_spent add_relevant progress_rows
    calculate_percentage_basis_points
household_rows = refl
