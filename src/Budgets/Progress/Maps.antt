-- ===== src/Budgets/Progress/Maps.antt =====
-- What the maps of the budget progress hold after their loops.
use monqom.Common.{
  inl, inr, ℕ, ◌+◌, ◌≡◌, refl, sym, ap, ◌∙◌, Bool, false, Option, none, some, List, [], ◌∷◌, ◌++◌,
  foldl, arith, ◌==◌, if◌then◌else◌, push, Option-cases,
}
use monqom.Budgets.Progress.{
  Category, Budget, Spending, Dict, no_entries, get_or, add_child, add_budget, add_spending,
  child_ids_by_parent_id, budget_amount_by_category_id, own_spent_by_category_id,
}

-- What some rows spend in one category.
abbrev pub spent_in : ℕ → List Spending → ℕ
spent_in id [] = 0
spent_in id (s ∷ rest) = (if id == s.category_id then s.amount else 0) + spent_in id rest

own_spent_lem :
    (spending : List Spending) (dict : Dict ℕ) (id : ℕ)
    → get_or (foldl add_spending dict spending id) 0 ≡ get_or (dict id) 0 + spent_in id spending
own_spent_lem [] dict id = omega arith
own_spent_lem (s ∷ rest) dict id =
    let later = own_spent_lem rest (add_spending dict s) id in ground arith

abbrev is_child_of : ℕ → Option ℕ → Bool
is_child_of parent none = false
is_child_of parent (some id) = parent == id

-- The categories right below one, in their order.
abbrev pub children_of : ℕ → List Category → List ℕ
children_of parent [] = []
children_of parent (c ∷ rest) =
    if is_child_of parent c.parent_id
    then c.id ∷ children_of parent rest
    else children_of parent rest

push-append : {A : Type 0} (xs : List A) (x : A) (ys : List A) → push xs x ++ ys ≡ xs ++ (x ∷ ys)
push-append [] x ys = refl
push-append (z ∷ xs) x ys = ap (λ l. z ∷ l) (push-append xs x ys)

append_nil : {A : Type 0} (xs : List A) → xs ++ [] ≡ xs
append_nil [] = refl
append_nil (x ∷ xs) = ap (λ l. x ∷ l) (append_nil xs)

child_ids_lem :
    (categories : List Category) (dict : Dict (List ℕ)) (parent : ℕ)
    → get_or (foldl add_child dict categories parent) []
      ≡ get_or (dict parent) [] ++ children_of parent categories
child_ids_lem [] dict parent = sym (append_nil _)
child_ids_lem (c ∷ rest) dict parent =
    let later = child_ids_lem rest (add_child dict c) parent in
    elim (Option-cases c.parent_id) [
      | inl e ↦ ground arith
      | inr (id, e) ↦
          ground (arith, push-append (get_or (dict id) []) c.id (children_of parent rest))
    ]

-- The budget that the last of the rows gives a category.
abbrev pub last_budget : ℕ → Option ℕ → List Budget → Option ℕ
last_budget id found [] = found
last_budget id found (b ∷ rest) =
    last_budget id (if is_child_of id b.category_id then some b.amount else found) rest

budget_lem :
    (budgets : List Budget) (dict : Dict ℕ) (id : ℕ)
    → foldl add_budget dict budgets id ≡ last_budget id (dict id) budgets
budget_lem [] dict id = refl
budget_lem (b ∷ rest) dict id =
    let later = budget_lem rest (add_budget dict b) id in
    elim (Option-cases b.category_id) [ inl e ↦ ground arith | inr (key, e) ↦ ground arith ]

-- After their loops the maps hold, for each category, the sum of what the rows of spending have for
-- it, the categories right below it in their order, and the amount of the last budget that names it.
pub maps_lem :
    (spending : List Spending) (categories : List Category) (budgets : List Budget) (id : ℕ)
    → (get_or (own_spent_by_category_id spending id) 0 ≡ spent_in id spending)
      × (get_or (child_ids_by_parent_id categories id) [] ≡ children_of id categories)
      × (budget_amount_by_category_id budgets id ≡ last_budget id none budgets)
unfolding own_spent_by_category_id child_ids_by_parent_id budget_amount_by_category_id
maps_lem spending categories budgets id = (
  own_spent_lem spending no_entries id ∙ omega arith,
  child_ids_lem categories no_entries id,
  budget_lem budgets no_entries id,
)
