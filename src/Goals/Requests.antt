-- ===== src/Goals/Requests.antt =====
-- The requests of backend/src/modules/goals/goals.controller.ts that change goals, and sequences of
-- them. The guards of the controller have named the workspace and the member. A request carries which
-- of its transaction's attempts the database refuses, and the time where the service reads it.
pub mod Laws
use monqom.Common.{ℕ, Bool, true, false, Option, none, some, List, [], ◌∷◌}
use monqom.Common.Text.{Text}
use monqom.Calendar.{Date}
use monqom.Goals.Store.{GoalStore}
use monqom.Goals.Service.{
  Exception, Result, ok, err, CreateGoal, UpdateGoal, OperationBody, create, update, set_archived,
  delete, create_operation, update_operation, delete_operation,
}

pub data Request : Type 0 where
  create_goal : CreateGoal → (ℕ → Bool) → Request
  update_goal : ℕ → UpdateGoal → (ℕ → Bool) → Request
  archive_goal restore_goal : ℕ → ℕ → Bool → Request
  delete_goal : ℕ → Bool → Request
  create_goal_operation : ℕ → OperationBody → (ℕ → Bool) → Request
  update_goal_operation : ℕ → ℕ → OperationBody → (ℕ → Bool) → Request
  delete_goal_operation : ℕ → ℕ → (ℕ → Bool) → Request

-- How a request ended, without what it answers.
abbrev pub failure : {A D : Type 0} → Result A × D → Option Exception × D
failure (ok _, db) = (none, db)
failure (err e, db) = (some e, db)

module _ (s : GoalStore) (today_in : Text → Date) where
  open s use {Db}

  unfoldable pub handle : ℕ → ℕ → Request → Db → Option Exception × Db
  handle w u (create_goal body refused) db = failure (create s today_in w u body refused db)
  handle w u (update_goal id body refused) db = failure (update s today_in w u id body refused db)
  handle w u (archive_goal id now refused) db =
      failure (set_archived s today_in w u id true now refused db)
  handle w u (restore_goal id now refused) db =
      failure (set_archived s today_in w u id false now refused db)
  handle w u (delete_goal id refused) db = failure (delete s today_in w u id refused db)
  handle w u (create_goal_operation id body refused) db =
      failure (create_operation s today_in w u id body refused db)
  handle w u (update_goal_operation id operation_id body refused) db =
      failure (update_operation s today_in w u id operation_id body refused db)
  handle w u (delete_goal_operation id operation_id refused) db =
      failure (delete_operation s today_in w u id operation_id refused db)

  -- Requests of any members for any workspaces, one after the other.
  abbrev pub handle_all : List (ℕ × ℕ × Request) → Db → Db
  handle_all [] db = db
  handle_all ((w, u, r) ∷ requests) db = handle_all requests ((handle w u r db).1)
