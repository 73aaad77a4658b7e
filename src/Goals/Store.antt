-- ===== src/Goals/Store.antt =====
-- The rows of savings goals (backend/prisma/schema.prisma, `Goal` and `GoalOperation`), and what
-- backend/src/modules/goals/goals.service.ts relies on of the Prisma client in a transaction.
-- Identifiers are only compared, so they are numbers. The columns `createdAt` and `updatedAt`,
-- which the database sets, are left out, and so is the metadata of an audit event.
use monqom.Common.{
  ◌⊎◌, ℕ, ◌+◌, ◌≡◌, Bool, not, ◌&&◌, Option, none, some, List, [], ◌∷◌, ◌==◌, if◌then◌else◌, filter,
  find, ◌≢◌,
}
use monqom.Common.Text.{Text}
use monqom.Calendar.{Date}

pub data OperationType : Type 0 where
  deposit withdrawal : OperationType

pub record GoalOperation : Type 0 where
  pub id : ℕ
  pub workspace_id : ℕ
  pub goal_id : ℕ
  pub type : OperationType
  pub amount : ℕ
  pub on : Date
  pub note : Option Text

pub record Goal : Type 0 where
  pub id : ℕ
  pub workspace_id : ℕ
  pub name : Text
  pub target_amount : ℕ
  pub initial_amount : ℕ
  pub currency : Text
  pub target_date : Date
  pub plan_start_month : Date
  pub archived_at : Option ℕ

pub record Workspace : Type 0 where
  pub base_currency : Text
  pub timezone : Text

pub data AuditAction : Type 0 where
  goal_created goal_updated goal_archived goal_restored goal_deleted : AuditAction
  goal_operation_created goal_operation_updated goal_operation_deleted : AuditAction

pub record AuditEvent : Type 0 where
  pub action : AuditAction
  pub workspace_id : ℕ
  pub user_id : ℕ
  pub entity_id : ℕ

-- The sum of a quantity over some rows: what is left of a list when the order is forgotten.
abbrev pub total : (GoalOperation → ℕ) → List GoalOperation → ℕ
total f [] = 0
total f (o ∷ os) = f o + total f os

-- `operations.filter((item) => item.id !== operationId)`
abbrev pub others : ℕ → List GoalOperation → List GoalOperation
others id = filter (λ o. not (o.id == id))

abbrev pub is_at : Goal → ℕ → ℕ → Bool
is_at g w i = (w == g.workspace_id) && (i == g.id)

abbrev pub is_of : GoalOperation → ℕ → ℕ → Bool
is_of o w i = (w == o.workspace_id) && (i == o.goal_id)

-- The client, reading and writing rows by their keys. A write names all columns of its row, new
-- rows get an identifier that no row has, and rows come back in an order of the database's own,
-- so that the laws speak of sums over them.
pub record GoalStore : Type 1 where
  pub Db : Type 0
  pub find_workspace : Db → ℕ → Option Workspace
  pub find_goal : Db → ℕ → ℕ → Option Goal
  pub operations_of : Db → ℕ → ℕ → List GoalOperation
  pub audit_log : Db → List AuditEvent
  pub new_goal_id : Db → ℕ
  pub new_operation_id : Db → ℕ
  pub put_goal : Goal → Db → Db
  pub delete_goal : ℕ → ℕ → Db → Db
  pub put_operation : GoalOperation → Db → Db
  pub delete_operation_row : ℕ → ℕ → Db → Db
  pub record_event : AuditEvent → Db → Db
  pub find-put_goal :
      (g : Goal) (db : Db) (w i : ℕ)
      → find_goal (put_goal g db) w i ≡ (if is_at g w i then some g else find_goal db w i)
  pub find-delete_goal :
      (w i : ℕ) (db : Db) (v j : ℕ)
      → find_goal (delete_goal w i db) v j
        ≡ (if (v == w) && (j == i) then none else find_goal db v j)
  pub find-put_operation :
      (o : GoalOperation) (db : Db) (w i : ℕ)
      → find_goal (put_operation o db) w i ≡ find_goal db w i
  pub find-delete_operation :
      (v j : ℕ) (db : Db) (w i : ℕ) → find_goal (delete_operation_row v j db) w i ≡ find_goal db w i
  pub find-record_event :
      (e : AuditEvent) (db : Db) (w i : ℕ) → find_goal (record_event e db) w i ≡ find_goal db w i
  pub find-id :
      (db : Db) (w i : ℕ) (g : Goal) → find_goal db w i ≡ some g → (g.workspace_id ≡ w) × (g.id ≡ i)
  pub total-new_goal :
      (f : GoalOperation → ℕ) (db : Db) (w : ℕ) → total f (operations_of db w (new_goal_id db)) ≡ 0
  pub total-put_goal :
      (f : GoalOperation → ℕ) (g : Goal) (db : Db) (w i : ℕ)
      → total f (operations_of (put_goal g db) w i) ≡ total f (operations_of db w i)
  pub total-delete_goal :
      (f : GoalOperation → ℕ) (w i : ℕ) (db : Db) (v j : ℕ)
      → total f (operations_of (delete_goal w i db) v j)
        ≡ (if (v == w) && (j == i) then 0 else total f (operations_of db v j))
  pub total-new_operation :
      (f : GoalOperation → ℕ) (db : Db) (w i : ℕ)
      → total f (others (new_operation_id db) (operations_of db w i))
        ≡ total f (operations_of db w i)
  pub total-put_operation :
      (f : GoalOperation → ℕ) (o : GoalOperation) (db : Db) (w i : ℕ)
      → ((old : GoalOperation) × (find
              (λ p. p.id == o.id)
              (operations_of db o.workspace_id o.goal_id)
            ≡ some old))
        ⊎ (o.id ≡ new_operation_id db)
      → total f (operations_of (put_operation o db) w i) ≡ (
          if is_of o w i
          then total f (others o.id (operations_of db w i)) + f o
          else total f (operations_of db w i))
  pub total-delete_operation :
      (f : GoalOperation → ℕ) (v j : ℕ) (db : Db) (w i : ℕ)
      → total f (operations_of (delete_operation_row v j db) w i) ≡ (
          if w == v
          then total f (others j (operations_of db w i))
          else total f (operations_of db w i))
  pub total-foreign :
      (f : GoalOperation → ℕ) (db : Db) (w i j id : ℕ) (o : GoalOperation)
      → find (λ p. p.id == id) (operations_of db w i) ≡ some o
      → i ≢ j
      → total f (others id (operations_of db w j)) ≡ total f (operations_of db w j)
  pub total-record_event :
      (f : GoalOperation → ℕ) (e : AuditEvent) (db : Db) (w i : ℕ)
      → total f (operations_of (record_event e db) w i) ≡ total f (operations_of db w i)
  pub log-put_goal : (g : Goal) (db : Db) → audit_log (put_goal g db) ≡ audit_log db
  pub log-delete_goal : (w i : ℕ) (db : Db) → audit_log (delete_goal w i db) ≡ audit_log db
  pub log-put_operation :
      (o : GoalOperation) (db : Db) → audit_log (put_operation o db) ≡ audit_log db
  pub log-delete_operation :
      (w i : ℕ) (db : Db) → audit_log (delete_operation_row w i db) ≡ audit_log db
  pub log-record_event :
      (e : AuditEvent) (db : Db) → audit_log (record_event e db) ≡ e ∷ audit_log db
