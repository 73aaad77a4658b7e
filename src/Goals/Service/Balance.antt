-- ===== src/Goals/Service/Balance.antt =====
-- The balance of a goal as a sum over its rows.
use monqom.Common.{ℕ, ◌+◌, ◌≤◌, ◌≡◌, ◌↔◌, false, List, [], ◌∷◌, foldl, arith, if◌then◌else◌}
use monqom.Common.Int.{pos, ◌+ℤ◌, +ℤ_parts, -ℤ_parts}
use monqom.Goals.Store.{OperationType, deposit, withdrawal, GoalOperation, total}
use monqom.Goals.Service.{same_type, sum_operations, balance_cents, is_negative}

-- What an operation adds to the sum of its type.
abbrev pub amount_of : OperationType → GoalOperation → ℕ
amount_of type o = if same_type o.type type then o.amount else 0

foldl-total :
    (f : GoalOperation → ℕ) (acc : ℕ) (os : List GoalOperation)
    → foldl (λ sum o. sum + f o) acc os ≡ acc + total f os
foldl-total f acc [] = omega arith
foldl-total f acc (o ∷ os) = omega (arith, foldl-total f (acc + f o) os)

pub sum_operations-total :
    (os : List GoalOperation) (type : OperationType)
    → sum_operations os type ≡ total (amount_of type) os
unfolding sum_operations
sum_operations-total os type = omega (arith, foldl-total (amount_of type) 0 os)

-- Withdrawals stay within the initial amount and the deposits.
abbrev pub IsCovered : ℕ → List GoalOperation → Type 0
IsCovered initial os = total (amount_of withdrawal) os ≤ initial + total (amount_of deposit) os

pub is_negative_balance_iff :
    (os : List GoalOperation) (initial : ℕ)
    → (is_negative (balance_cents os initial) ≡ false) ↔ IsCovered initial os
unfolding balance_cents
is_negative_balance_iff os initial =
    let d = sum_operations os deposit in
    let w = sum_operations os withdrawal in
    let deposits = sum_operations-total os deposit in
    let withdrawals = sum_operations-total os withdrawal in
    let plus = +ℤ_parts (pos initial) (pos d) in
    let minus = -ℤ_parts (pos initial +ℤ pos d) (pos w) in (λ h. ground arith, λ h. ground arith)
