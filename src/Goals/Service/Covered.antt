-- ===== src/Goals/Service/Covered.antt =====
-- What the balance checks of the goals service mean for the rows that it reads.
use monqom.Common.{ℕ, ◌+◌, ◌≤◌, ◌≡◌, subst, subst⁻¹, ◌∙◌, inl, inr, false, ◌&&◌, some, List, arith}
use monqom.Common.Text.{Text}
use monqom.Common.Int.{pos, ◌-ℤ◌, ◌+ℤ◌, -ℤ_parts, +ℤ_parts}
use monqom.Calendar.{Date}
use monqom.Goals.Store.{deposit, withdrawal, GoalOperation, Goal, total, others, GoalStore}
use monqom.Goals.Service.{
  Exception, ok, throw_if, OperationBody, same_type, balance_cents, sum_operations, is_negative,
  get_goal, prospective,
}
use monqom.Goals.Service.Balance.{
  amount_of, IsCovered, is_negative_balance_iff, sum_operations-total,
}
use monqom.Goals.Service.Writes.{throw_if-eq-ok, type_cases}

module _ (s : GoalStore) (today_in : Text → Date) (workspace_id user_id : ℕ) where
  open s use {Db, find_goal, operations_of, new_goal_id, new_operation_id}

  pub get_goal-eq-ok :
      (goal_id : ℕ) (db : Db) (g : Goal) (os : List GoalOperation)
      → get_goal s today_in workspace_id user_id goal_id db ≡ ok (g, os)
      → (find_goal db workspace_id goal_id ≡ some g) × (os ≡ operations_of db workspace_id goal_id)
  get_goal-eq-ok goal_id db g os h = ground arith

  pub fresh-IsCovered :
      (db : Db) (initial : ℕ) → IsCovered initial (operations_of db workspace_id (new_goal_id db))
  fresh-IsCovered db initial =
      omega (arith, s.total-new_goal (amount_of withdrawal) db workspace_id)

  pub not_negative :
      (os : List GoalOperation) (db : Db) (goal_id initial : ℕ)
      → os ≡ operations_of db workspace_id goal_id
      → is_negative (balance_cents os initial) ≡ false
      → IsCovered initial (operations_of db workspace_id goal_id)
  not_negative os db goal_id initial e h =
      subst (IsCovered initial) e ((is_negative_balance_iff os initial).0 h)

  -- The operations that `update` reads are those of the row that it writes.
  pub kept-IsCovered :
      (goal_id initial : ℕ) (db : Db) (old : Goal) (os : List GoalOperation) (u : Unit {0})
      (x : Exception)
      → get_goal s today_in workspace_id user_id goal_id db ≡ ok (old, os)
      → throw_if (is_negative (balance_cents os initial)) x ≡ ok u
      → IsCovered initial (operations_of db old.workspace_id old.id)
  kept-IsCovered goal_id initial db old os u x e h =
      let (there, same) = get_goal-eq-ok goal_id db old os e in
      let (w, i) = s.find-id db workspace_id goal_id old there in
      let c = not_negative os db goal_id initial same (throw_if-eq-ok _ x u h) in
      subst⁻¹ (λ v. IsCovered initial (operations_of db v old.id)) w
        (subst⁻¹ (λ j. IsCovered initial (operations_of db workspace_id j)) i c)

  -- What an accepted operation leaves: a deposit may top the balance up, a withdrawal may not
  -- exceed it.
  pub with_deposit :
      (os : List GoalOperation) (o : GoalOperation) (initial : ℕ)
      → o.type ≡ deposit
      → is_negative (balance_cents os initial +ℤ pos o.amount) ≡ false
      → total (amount_of withdrawal) os + amount_of withdrawal o
        ≤ initial + (total (amount_of deposit) os + amount_of deposit o)
  unfolding balance_cents
  with_deposit os o initial type h =
      let d = sum_operations os deposit in
      let w = sum_operations os withdrawal in
      ground (
        arith,
        sum_operations-total os deposit,
        sum_operations-total os withdrawal,
        +ℤ_parts (pos initial) (pos d),
        -ℤ_parts (pos initial +ℤ pos d) (pos w),
        +ℤ_parts (pos initial +ℤ pos d -ℤ pos w) (pos o.amount),
      )

  pub with_withdrawal :
      (os : List GoalOperation) (o : GoalOperation) (initial : ℕ)
      → o.type ≡ withdrawal
      → is_negative (balance_cents os initial -ℤ pos o.amount) ≡ false
      → total (amount_of withdrawal) os + amount_of withdrawal o
        ≤ initial + (total (amount_of deposit) os + amount_of deposit o)
  unfolding balance_cents
  with_withdrawal os o initial type h =
      let d = sum_operations os deposit in
      let w = sum_operations os withdrawal in
      ground (
        arith,
        sum_operations-total os deposit,
        sum_operations-total os withdrawal,
        +ℤ_parts (pos initial) (pos d),
        -ℤ_parts (pos initial +ℤ pos d) (pos w),
        -ℤ_parts (pos initial +ℤ pos d -ℤ pos w) (pos o.amount),
      )

  pub with_prospective :
      (os : List GoalOperation) (o : GoalOperation) (initial : ℕ) (body : OperationBody)
      → o.type ≡ body.type
      → o.amount ≡ body.amount
      → is_negative (prospective s today_in workspace_id user_id os initial body) ≡ false
      → total (amount_of withdrawal) os + amount_of withdrawal o
        ≤ initial + (total (amount_of deposit) os + amount_of deposit o)
  with_prospective os o initial body type amount h = elim (type_cases body.type) [
    | inl d ↦ with_deposit os o initial (type ∙ d) (ground arith)
    | inr w ↦ with_withdrawal os o initial (type ∙ w) (ground arith)
  ]

  -- The new operation is none of those that the goal has.
  pub added_covered :
      (goal_id initial : ℕ) (db : Db) (os : List GoalOperation) (o : GoalOperation)
      (body : OperationBody)
      → os ≡ operations_of db workspace_id goal_id
      → o.type ≡ body.type
      → o.amount ≡ body.amount
      → IsCovered initial (operations_of db workspace_id goal_id)
      → (same_type body.type withdrawal
          && is_negative (balance_cents os initial -ℤ pos body.amount))
        ≡ false
      → (let rest = others (new_operation_id db) (operations_of db workspace_id goal_id) in
          total (amount_of withdrawal) rest + amount_of withdrawal o
          ≤ initial + (total (amount_of deposit) rest + amount_of deposit o))
  added_covered goal_id initial db os o body same type amount c h =
      let here = operations_of db workspace_id goal_id in
      let w = s.total-new_operation (amount_of withdrawal) db workspace_id goal_id in
      let d = s.total-new_operation (amount_of deposit) db workspace_id goal_id in
      elim (type_cases body.type) [
        | inl is ↦ ground (arith, w, d, type ∙ is)
        | inr is ↦
            let left = balance_cents os initial -ℤ pos o.amount in
            let open_left : is_negative left ≡ false = ground arith in
            let all : total (amount_of withdrawal) os + amount_of withdrawal o
                ≤ initial + (total (amount_of deposit) os + amount_of deposit o) =
              with_withdrawal os o initial (type ∙ is) open_left in
            ground (arith, w, d)
      ]
