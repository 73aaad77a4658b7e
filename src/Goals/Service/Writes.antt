-- ===== src/Goals/Service/Writes.antt =====
-- What one audited write of the goals service leaves, by the write.
use monqom.Common.{
  if◌then◌else◌, ℕ, ◌+◌, ◌≤◌, ◌≡◌, refl, subst, ap, ◌∙◌, ◌⊎◌, inl, inr, Bool, true, false, Option,
  none, some, ◌∷◌, ◌==◌, find,
}
use monqom.Goals.Store.{
  OperationType, deposit, withdrawal, GoalOperation, Goal, AuditEvent, total, others, GoalStore,
}
use monqom.Goals.Service.{Exception, Result, ok, throw_if, or_throw}
use monqom.Goals.Service.Balance.{amount_of, IsCovered}
use monqom.Goals.Service.Solvent.{
  IsSolvent, record_event-IsSolvent, put_goal-IsSolvent, delete_goal-IsSolvent,
  put_operation-IsSolvent, delete_operation-IsSolvent,
}

pub throw_if-eq-ok : (b : Bool) (e : Exception) (u : Unit {0}) → throw_if b e ≡ ok u → b ≡ false
throw_if-eq-ok true e u h = cc
throw_if-eq-ok false e u h = refl

pub or_throw-eq-ok :
    {A : Type 0} (o : Option A) (e : Exception) (a : A) → or_throw o e ≡ ok a → o ≡ some a
or_throw-eq-ok none e a h = cc
or_throw-eq-ok (some b) e a h = cc

pub if-split : {A : Type 0} (b : Bool) (x y z : A) → (if b then x else y) ≡ z → (x ≡ z) ⊎ (y ≡ z)
if-split true x y z h = inl h
if-split false x y z h = inr h

pub ok-second :
    {A B : Type 0} (a a' : A) (b b' : B)
    → ◌≡◌ {A = Result (A × B)} (ok (a, b)) (ok (a', b'))
    → b ≡ b'
ok-second a a' b b' e = cc

pub type_cases : (t : OperationType) → (t ≡ deposit) ⊎ (t ≡ withdrawal)
type_cases deposit = inl refl
type_cases withdrawal = inr refl

module _ (s : GoalStore) where
  open s use {
    Db, find_goal, operations_of, new_goal_id, new_operation_id, put_goal, put_operation,
    delete_goal, delete_operation_row, record_event, audit_log,
  }

  -- A committed change: the balances are still covered, and the audit log has one more entry.
  abbrev pub IsAudited : AuditEvent → Db → Db → Type 0
  IsAudited e db db' = IsSolvent s db' × (audit_log db' ≡ e ∷ audit_log db)

  pub stored_goal :
      (new : Goal) (e : AuditEvent) (db db' : Db) (g : Goal)
      → IsSolvent s db
      → IsCovered new.initial_amount (operations_of db new.workspace_id new.id)
      → ◌≡◌ {A = Result (Goal × Db)} (ok (new, record_event e (put_goal new db))) (ok (g, db'))
      → IsAudited e db db'
  stored_goal new e db db' g h c k = subst (IsAudited e db) (ok-second new g _ db' k) (
    record_event-IsSolvent s e (put_goal new db) (put_goal-IsSolvent s new db h c),
    s.log-record_event e (put_goal new db) ∙ ap (λ l. e ∷ l) (s.log-put_goal new db),
  )

  pub removed_goal :
      (w i : ℕ) (e : AuditEvent) (db db' : Db) (u : Unit {0})
      → IsSolvent s db
      → ◌≡◌ {A = Result (Unit {0} × Db)}
          (ok (tt, record_event e (delete_goal w i db)))
          (ok (u, db'))
      → IsAudited e db db'
  removed_goal w i e db db' u h k = subst (IsAudited e db) (ok-second tt u _ db' k) (
    record_event-IsSolvent s e (delete_goal w i db) (delete_goal-IsSolvent s w i db h),
    s.log-record_event e (delete_goal w i db) ∙ ap (λ l. e ∷ l) (s.log-delete_goal w i db),
  )

  pub stored_operation :
      (o : GoalOperation) (old : Goal) (e : AuditEvent) (db db' : Db) (out : GoalOperation)
      → IsSolvent s db
      → find_goal db o.workspace_id o.goal_id ≡ some old
      → ((row : GoalOperation) × (find
              (λ p. p.id == o.id)
              (operations_of db o.workspace_id o.goal_id)
            ≡ some row))
        ⊎ (o.id ≡ new_operation_id db)
      → (let rest = others o.id (operations_of db o.workspace_id o.goal_id) in
          total (amount_of withdrawal) rest + amount_of withdrawal o
          ≤ old.initial_amount + (total (amount_of deposit) rest + amount_of deposit o))
      → ◌≡◌ {A = Result (GoalOperation × Db)}
          (ok (o, record_event e (put_operation o db)))
          (ok (out, db'))
      → IsAudited e db db'
  stored_operation o old e db db' out h there own c k =
      subst (IsAudited e db) (ok-second o out _ db' k) (
        record_event-IsSolvent s e (put_operation o db)
            (put_operation-IsSolvent s o old db h there own c),
        s.log-record_event e (put_operation o db) ∙ ap (λ l. e ∷ l) (s.log-put_operation o db),
      )

  pub removed_operation :
      (v i j : ℕ) (old : Goal) (o : GoalOperation) (e : AuditEvent) (db db' : Db) (u : Unit {0})
      → IsSolvent s db
      → find_goal db v i ≡ some old
      → find (λ p. p.id == j) (operations_of db v i) ≡ some o
      → IsCovered old.initial_amount (others j (operations_of db v i))
      → ◌≡◌ {A = Result (Unit {0} × Db)}
          (ok (tt, record_event e (delete_operation_row v j db)))
          (ok (u, db'))
      → IsAudited e db db'
  removed_operation v i j old o e db db' u h there member c k =
      subst (IsAudited e db) (ok-second tt u _ db' k) (
        record_event-IsSolvent s e (delete_operation_row v j db)
            (delete_operation-IsSolvent s v i j old o db h there member c),
        s.log-record_event e (delete_operation_row v j db)
            ∙ ap (λ l. e ∷ l) (s.log-delete_operation v j db),
      )
