-- ===== src/Budgets/Progress/Laws.antt =====
-- The budget progress of a workspace, against a description without caches and sets.
use native.Mathlib.Nat.{div-add-mod}
use monqom.Common.{
  ℕ, ◌+◌, ◌*◌, ◌<◌, ◌≤◌, ◌≡◌, refl, ap, ◌∙◌, inl, inr, Bool, true, false, ◌&&◌, ◌||◌, Option, none,
  some, List, [], ◌∷◌, foldl, map, arith, ◌==◌, if◌then◌else◌, ltb, filter, Bool-cases,
  Option-cases, subst⁻¹,
}
use monqom.Budgets.Progress.{
  Category, Budget, ProgressInput, Dict, Members, no_entries, is_some, add_member, add_relevant,
  add_budget, progress_row, progress_rows, add_budgeted, known_ids, child_ids_by_parent_id,
  budget_amount_by_category_id, own_spent_by_category_id, get_total_spent,
  calculate_percentage_basis_points, calculate_budget_progress,
}
use monqom.Budgets.Progress.Totals.{IsTreeTotal, IsTree, IsSound, Gives, get_total_spent-Gives}

-- The percentage is the spending in hundredths of a percent of a budget above zero, rounded to
-- the nearest with halves up.
pub calculate_percentage_basis_points_nearest :
    (spent budget : ℕ)
    → 0 < budget
    → let points = calculate_percentage_basis_points spent budget in
      (2 * (points * budget) ≤ 2 * (spent * 10000) + budget)
      × (2 * (spent * 10000) < 2 * (points * budget) + budget)
unfolding calculate_percentage_basis_points
calculate_percentage_basis_points_nearest spent budget h = (
  grind (arith, div-add-mod (spent * 10000) budget),
  grind (arith, div-add-mod (spent * 10000) budget),
)

module _ (total : ℕ → ℕ) (get : ℕ → Dict ℕ → ℕ × Dict ℕ) (budget_of : Dict ℕ) where
  abbrev IsRight : Type 0
  IsRight = (id : ℕ) (cache : Dict ℕ) → IsSound total cache → Gives total (total id) (get id cache)

  -- The categories that have a budget or spending, in them or below.
  abbrev pub is_relevant : ℕ → Bool
  is_relevant id = is_some (budget_of id) || ltb 0 (total id)

  pub progress_rows-eq :
      (cs : List Category) (cache : Dict ℕ)
      → IsRight
      → IsSound total cache
      → progress_rows get budget_of cs cache
        ≡ map (λ c. progress_row get budget_of c (total c.id)) cs
  unfolding progress_rows
  progress_rows-eq [] cache right h = refl
  progress_rows-eq (c ∷ cs) cache right h =
      let (spent, sound) = right c.id cache h in
      let row = λ (v : ℕ). progress_row get budget_of c v in
      ap (λ v. row v ∷ progress_rows get budget_of cs (get c.id cache).1) spent
      ∙ ap (λ rest. row (total c.id) ∷ rest) (progress_rows-eq cs (get c.id cache).1 right sound)

  relevant_step :
      (c : Category) (relevant : Members) (known : Bool) (spent k : ℕ)
      → spent ≡ total c.id
      → ((if is_some (budget_of c.id) || ltb 0 spent then add_member relevant c.id else relevant) k
          || known && is_relevant k)
        ≡ (relevant k || (k == c.id || known) && is_relevant k)
  relevant_step c relevant known spent k e = elim (Bool-cases (k == c.id)) [
    | inl same ↦
        let at : k ≡ c.id = ground arith in
        subst⁻¹
          (λ i.
            ((if is_some (budget_of c.id) || ltb 0 spent
                  then add_member relevant c.id
                  else relevant)
                i
              || known && is_relevant i)
            ≡ (relevant i || (i == c.id || known) && is_relevant i))
          at (ground arith)
    | inr other ↦ ground arith
  ]

  pub add_relevant-eq :
      (cs : List Category) (relevant : Members) (cache : Dict ℕ)
      → IsRight
      → IsSound total cache
      → ((k : ℕ)
          → (add_relevant get budget_of cs relevant cache).0 k
            ≡ (relevant k || known_ids cs k && is_relevant k))
        × IsSound total (add_relevant get budget_of cs relevant cache).1
  unfolding add_relevant
  add_relevant-eq [] relevant cache right h = (λ k. ground arith, h)
  add_relevant-eq (c ∷ cs) relevant cache right h =
      let (spent, sound) = right c.id cache h in
      let (rest, sound') =
        add_relevant-eq cs
          (if is_some (budget_of c.id) || ltb 0 (get c.id cache).0
            then add_member relevant c.id
            else relevant)
          (get c.id cache).1 right sound in
      (λ k. rest k ∙ relevant_step c relevant (known_ids cs k) (get c.id cache).0 k spent, sound')

abbrev is_for : ℕ → Option ℕ → Bool
is_for k none = false
is_for k (some id) = k == id

abbrev names : List Budget → ℕ → Bool
names [] k = false
names (b ∷ bs) k = is_for k b.category_id || names bs k

budget_names :
    (bs : List Budget) (dict : Dict ℕ) (k : ℕ)
    → is_some (foldl add_budget dict bs k) ≡ (is_some (dict k) || names bs k)
budget_names [] dict k = ground arith
budget_names (b ∷ bs) dict k =
    let rest = budget_names bs (add_budget dict b) k in
    elim (Option-cases b.category_id) [ inl e ↦ ground arith | inr (id, e) ↦ ground arith ]

budgeted_names :
    (bs : List Budget) (known relevant : Members) (k : ℕ)
    → foldl (add_budgeted known) relevant bs k ≡ (relevant k || known k && names bs k)
budgeted_names [] known relevant k = ground arith
budgeted_names (b ∷ bs) known relevant k =
    budgeted_names bs known (add_budgeted known relevant b) k
    ∙ elim b.category_id
        as (λ o.
          (elim o as (λ _. Members) [
            | none ↦ relevant
            | some id ↦ if known id then add_member relevant id else relevant
          ]
              k
            || known k && names bs k)
          ≡ (relevant k || known k && (is_for k o || names bs k))) [
            | none ↦ ground arith
            | some id ↦ elim (Bool-cases (k == id)) [
              | inl same ↦
                  let at : k ≡ id = ground arith in
                  subst⁻¹
                    (λ i.
                      ((if known id then add_member relevant id else relevant) i
                        || known i && names bs i)
                      ≡ (relevant i || known i && (i == id || names bs i)))
                    at (ground arith)
              | inr other ↦ ground arith
            ]
          ]

filter_known :
    (cs : List Category) (p q : ℕ → Bool)
    → ((k : ℕ) → known_ids cs k ≡ true → p k ≡ q k)
    → filter (λ c. p c.id) cs ≡ filter (λ c. q c.id) cs
filter_known [] p q h = refl
filter_known (c ∷ cs) p q h =
    let here : p c.id ≡ q c.id = h c.id (ground arith) in
    let rest = filter_known cs p q (λ k known. h k (ground arith)) in
    ap (λ b. if b then c ∷ filter (λ c. p c.id) cs else filter (λ c. p c.id) cs) here
    ∙ ap (λ l. if q c.id then c ∷ l else l) rest

module _ (input : ProgressInput) (total height : ℕ → ℕ) (fuel : ℕ) where
  abbrev own : Dict ℕ
  own = own_spent_by_category_id input.spending

  abbrev children : Dict (List ℕ)
  children = child_ids_by_parent_id input.categories

  abbrev budgets : Dict ℕ
  budgets = budget_amount_by_category_id input.budgets

  abbrev get : ℕ → Dict ℕ → ℕ × Dict ℕ
  get = get_total_spent fuel own children

  -- The progress lists the categories in their order that have a budget, or spending in them or
  -- below them, each with what is spent in it and below it, with its last budget and with what
  -- remains of that. The categories form trees that are no deeper than the fuel, and `total` is
  -- what is spent in a category and below it.
  pub calculate_budget_progress-eq :
      IsTreeTotal own children total
      → IsTree children height fuel
      → calculate_budget_progress fuel input
        ≡ map
            (λ c. progress_row get budgets c (total c.id))
            (filter (λ c. is_some (budgets c.id) || ltb 0 (total c.id)) input.categories)
  unfolding calculate_budget_progress budget_amount_by_category_id
  calculate_budget_progress-eq tree below =
      let right = λ (id : ℕ) (cache : Dict ℕ) (h : IsSound total cache).
        get_total_spent-Gives total own children height fuel tree below fuel id cache (below id).0
          h in
      let (members, sound) =
        add_relevant-eq total get budgets input.categories (λ k. false) no_entries right
          (λ k v e. ground arith) in
      progress_rows-eq total get budgets _ _ right sound
      ∙ ap (λ cs. map (λ c. progress_row get budgets c (total c.id)) cs)
          (filter_known input.categories _ _ (λ k known. ground (
            arith,
            members k,
            budgeted_names input.budgets (known_ids input.categories)
                (add_relevant get budgets input.categories (λ k. false) no_entries).0 k,
            budget_names input.budgets no_entries k,
          )))
