-- ===== src/Goals/Service/Solvent.antt =====
-- The invariant of the stored goals: no balance is negative.
use monqom.Common.{◌⊎◌, ℕ, ◌+◌, ◌≤◌, ◌≡◌, some, arith, ◌==◌, find}
use monqom.Goals.Store.{
  deposit, withdrawal, GoalOperation, Goal, AuditEvent, total, others, GoalStore,
}
use monqom.Goals.Service.Balance.{amount_of, IsCovered}

module _ (s : GoalStore) where
  open s use {
    Db, find_goal, operations_of, new_goal_id, new_operation_id, put_goal, delete_goal,
    put_operation, delete_operation_row, record_event,
  }

  abbrev pub IsSolvent : Db → Type 0
  IsSolvent db =
      (w i : ℕ) (g : Goal)
      → find_goal db w i ≡ some g
      → IsCovered g.initial_amount (operations_of db w i)

  pub record_event-IsSolvent :
      (e : AuditEvent) (db : Db) → IsSolvent db → IsSolvent (record_event e db)
  record_event-IsSolvent e db h w i g found = ground (
    arith,
    h w i g,
    s.find-record_event e db w i,
    s.total-record_event (amount_of deposit) e db w i,
    s.total-record_event (amount_of withdrawal) e db w i,
  )

  pub put_goal-IsSolvent :
      (new : Goal) (db : Db)
      → IsSolvent db
      → IsCovered new.initial_amount (operations_of db new.workspace_id new.id)
      → IsSolvent (put_goal new db)
  put_goal-IsSolvent new db h c w i g found = ground (
    arith,
    h w i g,
    s.find-put_goal new db w i,
    s.total-put_goal (amount_of deposit) new db w i,
    s.total-put_goal (amount_of withdrawal) new db w i,
  )

  pub delete_goal-IsSolvent : (v j : ℕ) (db : Db) → IsSolvent db → IsSolvent (delete_goal v j db)
  delete_goal-IsSolvent v j db h w i g found = ground (
    arith,
    h w i g,
    s.find-delete_goal v j db w i,
    s.total-delete_goal (amount_of deposit) v j db w i,
    s.total-delete_goal (amount_of withdrawal) v j db w i,
  )

  -- Writing an operation over the others of its goal.
  pub put_operation-IsSolvent :
      (o : GoalOperation) (old : Goal) (db : Db)
      → IsSolvent db
      → find_goal db o.workspace_id o.goal_id ≡ some old
      → ((row : GoalOperation) × (find
              (λ p. p.id == o.id)
              (operations_of db o.workspace_id o.goal_id)
            ≡ some row))
        ⊎ (o.id ≡ new_operation_id db)
      → (let rest = others o.id (operations_of db o.workspace_id o.goal_id) in
          total (amount_of withdrawal) rest + amount_of withdrawal o
          ≤ old.initial_amount + (total (amount_of deposit) rest + amount_of deposit o))
      → IsSolvent (put_operation o db)
  put_operation-IsSolvent o old db h there own c w i g found = ground (
    arith,
    h w i g,
    s.find-put_operation o db w i,
    s.total-put_operation (amount_of deposit) o db w i own,
    s.total-put_operation (amount_of withdrawal) o db w i own,
  )

  -- Taking one operation away from its goal.
  pub delete_operation-IsSolvent :
      (v i j : ℕ) (old : Goal) (o : GoalOperation) (db : Db)
      → IsSolvent db
      → find_goal db v i ≡ some old
      → find (λ p. p.id == j) (operations_of db v i) ≡ some o
      → IsCovered old.initial_amount (others j (operations_of db v i))
      → IsSolvent (delete_operation_row v j db)
  delete_operation-IsSolvent v i j old o db h there member c w k g found = ground (
    arith,
    h w k g,
    s.find-delete_operation v j db w k,
    s.total-delete_operation (amount_of deposit) v j db w k,
    s.total-delete_operation (amount_of withdrawal) v j db w k,
    s.total-foreign (amount_of deposit) db v i k j o member,
    s.total-foreign (amount_of withdrawal) db v i k j o member,
  )
