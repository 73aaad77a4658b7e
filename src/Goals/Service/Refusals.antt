-- ===== src/Goals/Service/Refusals.antt =====
-- Which changes the goals service refuses.
use monqom.Common.{ℕ, ◌+◌, ◌≤◌, ◌<◌, ◌≡◌, true, false, some, List, ◌==◌, find, arith, ◌↔◌}
use monqom.Common.Text.{Text}
use monqom.Common.Int.{pos, ◌-ℤ◌, ◌+ℤ◌, -ℤ_parts, +ℤ_parts}
use monqom.Calendar.{Date}
use monqom.Goals.Store.{
  deposit, withdrawal, GoalOperation, Goal, goal_operation_created, goal_operation_deleted, total,
  others, GoalStore,
}
use monqom.Goals.Service.{
  conflict, negative_balance, ok, err, OperationBody, parse_operation_date, sum_operations,
  balance_cents, is_negative, is_archived, event, operation_row, create_operation_in,
  delete_operation_in,
}
use monqom.Goals.Service.Balance.{
  amount_of, IsCovered, is_negative_balance_iff, sum_operations-total,
}

module _ (s : GoalStore) (today_in : Text → Date) (workspace_id user_id : ℕ) where
  open s use {
    Db, find_goal, operations_of, new_operation_id, put_operation, delete_operation_row,
    record_event,
  }

  withdrawal_left :
      (os : List GoalOperation) (initial amount : ℕ)
      → (is_negative (balance_cents os initial -ℤ pos amount) ≡ false)
        ↔ (total (amount_of withdrawal) os + amount ≤ initial + total (amount_of deposit) os)
  unfolding balance_cents
  withdrawal_left os initial amount =
      let d = sum_operations os deposit in
      let w = sum_operations os withdrawal in
      let deposits = sum_operations-total os deposit in
      let withdrawals = sum_operations-total os withdrawal in
      let plus = +ℤ_parts (pos initial) (pos d) in
      let minus = -ℤ_parts (pos initial +ℤ pos d) (pos w) in
      let last = -ℤ_parts (pos initial +ℤ pos d -ℤ pos w) (pos amount) in
      (λ h. ground arith, λ h. ground arith)

  -- A withdrawal from a goal that is not archived, on a day that is not in the future, is stored
  -- if the goal's withdrawals with it stay within the initial amount and the deposits, and else
  -- refused for the balance.
  pub create_operation_in_withdrawal :
      (goal_id : ℕ) (body : OperationBody) (today on : Date) (g : Goal) (db : Db)
      → find_goal db workspace_id goal_id ≡ some g
      → is_archived g ≡ false
      → parse_operation_date body.on today ≡ ok on
      → body.type ≡ withdrawal
      → (let os = operations_of db workspace_id goal_id in
          let row =
            operation_row s today_in workspace_id user_id (new_operation_id db) goal_id body on in
          (total (amount_of withdrawal) os + body.amount
              ≤ g.initial_amount + total (amount_of deposit) os
            → create_operation_in s today_in workspace_id user_id goal_id body today db
              ≡ ok (
                row,
                record_event
                    (event s today_in workspace_id user_id goal_operation_created row.id)
                    (put_operation row db),
              ))
          × (g.initial_amount + total (amount_of deposit) os
                < total (amount_of withdrawal) os + body.amount
              → create_operation_in s today_in workspace_id user_id goal_id body today db
                ≡ err (conflict negative_balance)))
  unfolding create_operation_in
  create_operation_in_withdrawal goal_id body today on g db there active day type =
      let os = operations_of db workspace_id goal_id in
      let left = withdrawal_left os g.initial_amount body.amount in
      let yes : total (amount_of withdrawal) os + body.amount
            ≤ g.initial_amount + total (amount_of deposit) os
          → is_negative (balance_cents os g.initial_amount -ℤ pos body.amount) ≡ false =
        left.1 in
      let no : g.initial_amount + total (amount_of deposit) os
            < total (amount_of withdrawal) os + body.amount
          → is_negative (balance_cents os g.initial_amount -ℤ pos body.amount) ≡ true =
        λ h. ground arith in
      (λ h. rw (there, active, day, type, yes h), λ h. rw (there, active, day, type, no h))

  -- Deleting an operation of a goal that is not archived is accepted if the operations that stay
  -- cover the withdrawals, and else refused for the balance.
  pub delete_operation_in_accepts :
      (goal_id operation_id : ℕ) (g : Goal) (o : GoalOperation) (db : Db)
      → find_goal db workspace_id goal_id ≡ some g
      → is_archived g ≡ false
      → find (λ p. p.id == operation_id) (operations_of db workspace_id goal_id) ≡ some o
      → (let rest = others operation_id (operations_of db workspace_id goal_id) in
          (IsCovered g.initial_amount rest
            → delete_operation_in s today_in workspace_id user_id goal_id operation_id db
              ≡ ok (
                tt,
                record_event
                    (event s today_in workspace_id user_id goal_operation_deleted operation_id)
                    (delete_operation_row workspace_id operation_id db),
              ))
          × (g.initial_amount + total (amount_of deposit) rest < total (amount_of withdrawal) rest
              → delete_operation_in s today_in workspace_id user_id goal_id operation_id db
                ≡ err (conflict negative_balance)))
  unfolding delete_operation_in
  delete_operation_in_accepts goal_id operation_id g o db there active member =
      let rest = others operation_id (operations_of db workspace_id goal_id) in
      let left = is_negative_balance_iff rest g.initial_amount in
      let no : g.initial_amount + total (amount_of deposit) rest < total (amount_of withdrawal) rest
          → is_negative (balance_cents rest g.initial_amount) ≡ true =
        λ h. ground arith in
      (λ h. rw (there, active, member, left.1 h), λ h. rw (there, active, member, no h))
