-- ===== src/Budgets/Progress.antt =====
-- backend/src/modules/budgets/budget-progress.calculator.ts. Identifiers are only compared, so they
-- are numbers. A JavaScript Map is the function that looks a key up in it, a Set the test of its
-- members. The depth of the calls of `getTotalSpent` is bounded by fuel.
pub mod Totals
pub mod Laws
pub mod Maps
use monqom.Common.{
  ℕ, suc, ◌+◌, ◌*◌, ◌/◌, ◌%◌, Bool, true, false, ◌&&◌, ◌||◌, Option, none, some, List, [], ◌∷◌, map,
  foldl, ltb, leb, ◌==◌, if◌then◌else◌, push, filter,
}
use monqom.Common.Int.{ℤ, pos, ◌-ℤ◌}
use monqom.Common.Text.{Text}

pub record Category : Type 0 where
  pub id : ℕ
  pub parent_id : Option ℕ
  pub name : Text
  pub system_key : Option Text

pub record Budget : Type 0 where
  pub category_id : Option ℕ
  pub amount : ℕ

pub record Spending : Type 0 where
  pub category_id : ℕ
  pub amount : ℕ

pub record Progress : Type 0 where
  pub category_id : ℕ
  pub category_name : Text
  pub category_system_key : Option Text
  pub budget_amount_cents : Option ℕ
  pub spent_cents : ℕ
  pub remaining_cents : Option ℤ
  pub percentage_basis_points : Option ℕ

pub record ProgressInput : Type 0 where
  pub categories : List Category
  pub budgets : List Budget
  pub spending : List Spending

abbrev pub Dict : Type 0 → Type 0
Dict A = ℕ → Option A

abbrev pub no_entries : {A : Type 0} → Dict A
no_entries key = none

-- `map.set(key, value)`
abbrev pub set_entry : {A : Type 0} → Dict A → ℕ → A → Dict A
set_entry dict key value k = if k == key then some value else dict k

-- `value ?? fallback`
abbrev pub get_or : {A : Type 0} → Option A → A → A
get_or none fallback = fallback
get_or (some value) fallback = value

abbrev pub is_some : {A : Type 0} → Option A → Bool
is_some none = false
is_some (some _) = true

-- One round of each of the loops that fill the maps.
abbrev pub add_child : Dict (List ℕ) → Category → Dict (List ℕ)
add_child dict c = elim c.parent_id [
  | none ↦ dict
  | some parent ↦ set_entry dict parent (push (get_or (dict parent) []) c.id)
]

abbrev pub add_budget : Dict ℕ → Budget → Dict ℕ
add_budget dict b = elim b.category_id [ none ↦ dict | some id ↦ set_entry dict id b.amount ]

abbrev pub add_spending : Dict ℕ → Spending → Dict ℕ
add_spending dict s = set_entry dict s.category_id (get_or (dict s.category_id) 0 + s.amount)

unfoldable pub child_ids_by_parent_id : List Category → Dict (List ℕ)
child_ids_by_parent_id categories = foldl add_child no_entries categories

unfoldable pub budget_amount_by_category_id : List Budget → Dict ℕ
budget_amount_by_category_id budgets = foldl add_budget no_entries budgets

unfoldable pub own_spent_by_category_id : List Spending → Dict ℕ
own_spent_by_category_id spending = foldl add_spending no_entries spending

-- `childIds.reduce((sum, childId) => sum + getTotalSpent(childId), ownSpent)`, with the cache
abbrev pub reduce_children : (ℕ → Dict ℕ → ℕ × Dict ℕ) → List ℕ → ℕ → Dict ℕ → ℕ × Dict ℕ
reduce_children get [] sum cache = (sum, cache)
reduce_children get (id ∷ ids) sum cache =
    let (spent, cache') = get id cache in reduce_children get ids (sum + spent) cache'

-- `getTotalSpent`, which fills `totalSpentByCategoryId`
unfoldable pub get_total_spent : ℕ → Dict ℕ → Dict (List ℕ) → ℕ → Dict ℕ → ℕ × Dict ℕ
get_total_spent ℕ.zero own children id cache = (0, cache)
get_total_spent (suc fuel) own children id cache =
    let (total, cache') =
      reduce_children (get_total_spent fuel own children) (get_or (children id) [])
        (get_or (own id) 0) cache in
    elim (cache id) [ some cached ↦ (cached, cache) | none ↦ (total, set_entry cache' id total) ]

-- `calculatePercentageBasisPoints`
unfoldable pub calculate_percentage_basis_points : ℕ → ℕ → ℕ
calculate_percentage_basis_points spent_cents budget_amount_cents =
    let numerator = spent_cents * 10000 in
    let quotient = numerator / budget_amount_cents in
    let remainder = numerator % budget_amount_cents in
    if leb budget_amount_cents 0
    then 0
    else quotient + (if leb budget_amount_cents (remainder * 2) then 1 else 0)

abbrev pub Members : Type 0
Members = ℕ → Bool

abbrev pub add_member : Members → ℕ → Members
add_member members id k = k == id || members k

module _ (get : ℕ → Dict ℕ → ℕ × Dict ℕ) (budget_of : Dict ℕ) where
  -- The loop over the categories that fills `relevantCategoryIds`, with the cache.
  unfoldable pub add_relevant : List Category → Members → Dict ℕ → Members × Dict ℕ
  add_relevant [] relevant cache = (relevant, cache)
  add_relevant (c ∷ rest) relevant cache =
      let (spent, cache') = get c.id cache in
      add_relevant rest
        (if is_some (budget_of c.id) || ltb 0 spent then add_member relevant c.id else relevant)
        cache'

  abbrev pub progress_row : Category → ℕ → Progress
  progress_row c spent = record {
    category_id = c.id;
    category_name = c.name;
    category_system_key = c.system_key;
    budget_amount_cents = budget_of c.id;
    spent_cents = spent;
    remaining_cents = elim (budget_of c.id) [ none ↦ none | some b ↦ some (pos b -ℤ pos spent) ];
    percentage_basis_points = elim (budget_of c.id) [
      | none ↦ none
      | some b ↦ some (calculate_percentage_basis_points spent b)
    ];
  }

  -- The callback of `map`, from row to row.
  unfoldable pub progress_rows : List Category → Dict ℕ → List Progress
  progress_rows [] cache = []
  progress_rows (c ∷ rest) cache =
      let (spent, cache') = get c.id cache in progress_row c spent ∷ progress_rows rest cache'

-- `if (budget.categoryId && categoryMap.has(budget.categoryId)) …`
abbrev pub add_budgeted : Members → Members → Budget → Members
add_budgeted known relevant b = elim b.category_id [
  | none ↦ relevant
  | some id ↦ if known id then add_member relevant id else relevant
]

abbrev pub known_ids : List Category → Members
known_ids [] k = false
known_ids (c ∷ rest) k = k == c.id || known_ids rest k

unfoldable pub calculate_budget_progress : ℕ → ProgressInput → List Progress
calculate_budget_progress fuel input =
    let children = child_ids_by_parent_id input.categories in
    let budget_of = budget_amount_by_category_id input.budgets in
    let get = get_total_spent fuel (own_spent_by_category_id input.spending) children in
    let (relevant, cache) = add_relevant get budget_of input.categories (λ k. false) no_entries in
    let all = foldl (add_budgeted (known_ids input.categories)) relevant input.budgets in
    progress_rows get budget_of (filter (λ c. all c.id) input.categories) cache
