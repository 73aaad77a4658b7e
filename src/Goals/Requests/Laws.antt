-- ===== src/Goals/Requests/Laws.antt =====
-- What every request for goals, and every sequence of them, keeps.
use monqom.Common.{
  ℕ, ◌≡◌, refl, ◌⊎◌, inl, inr, Bool, true, false, Option, none, List, [], ◌∷◌, sym, subst, subst⁻¹,
  if◌then◌else◌,
}
use monqom.Common.Text.{Text}
use monqom.Calendar.{Date}
use monqom.Goals.Store.{
  GoalStore, AuditAction, Goal, Workspace, goal_archived, goal_restored, goal_created, goal_updated,
  goal_deleted, goal_operation_created, goal_operation_updated, goal_operation_deleted,
}
use monqom.Goals.Retry.{Ends, transaction-Ends, run_serializable-Ends}
use monqom.Goals.Service.{
  Exception, Result, ok, err, Action, create, update, set_archived, delete, create_operation,
  update_operation, delete_operation, create_in, update_in, set_archived_in, delete_in,
  create_operation_in, update_operation_in, delete_operation_in, event, context, in_context,
  is_empty, run_serializable, bad_request, field_required,
}
use monqom.Goals.Service.Solvent.{IsSolvent}
use monqom.Goals.Service.Writes.{IsAudited}
use monqom.Goals.Service.Laws.{
  create_in-IsAudited, update_in-IsAudited, set_archived_in-IsAudited, delete_in-IsAudited,
  create_operation_in-IsAudited, update_operation_in-IsAudited, delete_operation_in-IsAudited,
}
use monqom.Goals.Requests.{
  Request, create_goal, update_goal, archive_goal, restore_goal, delete_goal, create_goal_operation,
  update_goal_operation, delete_goal_operation, failure, handle, handle_all,
}

module _ (s : GoalStore) (today_in : Text → Date) (w u : ℕ) where
  open s use {Db, audit_log}

  -- What a request may do: fail and leave the rows, succeed and leave them, or change them and log
  -- one event of its member in its workspace.
  abbrev pub IsGuarded : Db → Option Exception × Db → Type 0
  IsGuarded db (o, db') =
      (db' ≡ db)
      ⊎ ((o ≡ none)
          × (id : ℕ) × (action : AuditAction) × IsAudited s (event s today_in w u action id) db db')

  guarded :
      {A : Type 0} (callback : Action s A) (db : Db) (answer : Result A × Db)
      → Ends s callback db answer
      → ((a : A) (db' : Db) → callback db ≡ ok (a, db') → IsGuarded db (none, db'))
      → IsGuarded db (failure answer)
  guarded callback db answer (inl (x, e)) h =
      subst (λ r. IsGuarded db (failure r)) (sym e) (inl refl)
  guarded callback db answer (inr (a, db', c, e)) h =
      subst (λ r. IsGuarded db (failure r)) (sym e) (h a db' c)

  -- `update`, `createOperation` and `updateOperation` find the workspace first.
  IsGuarded-context :
      {A : Type 0} (db : Db) (m : Result (Workspace × Date)) (rest : Date → Result A × Db)
      → ((today : Date) → IsGuarded db (failure (rest today)))
      → IsGuarded db (failure (in_context s today_in w u m rest db))
  IsGuarded-context db (ok (_, today)) rest h = h today
  IsGuarded-context db (err e) rest h = inl refl

  IsGuarded-archive :
      (id now : ℕ) (archived refused : Bool) (db : Db)
      → IsSolvent s db
      → IsGuarded db (failure (set_archived s today_in w u id archived now refused db))
  unfolding set_archived
  IsGuarded-archive id now archived refused db h = IsGuarded-context db _ _ (λ _.
      guarded (set_archived_in s today_in w u id archived now) db _
        (transaction-Ends s refused (set_archived_in s today_in w u id archived now) db)
        (λ g db' e. elim (set_archived_in-IsAudited s today_in w u id archived now db db' g h e) [
          | inl same ↦ inl same
          | inr audited ↦
              inr (refl, id, (if archived then goal_archived else goal_restored), audited)
        ]))

  -- A request of a member for a workspace leaves all rows as they are, as each that fails does, or it
  -- succeeds and leaves rows in which no balance is negative and exactly one more event, of this
  -- member in this workspace. No balance is negative to begin with.
  pub handle-IsGuarded :
      (r : Request) (db : Db) → IsSolvent s db → IsGuarded db (handle s today_in w u r db)
  unfolding handle create update delete create_operation update_operation delete_operation
  handle-IsGuarded (create_goal body refused) db h =
      guarded (create_in s today_in w u body) db _
        (run_serializable-Ends s refused (create_in s today_in w u body) db)
        (λ g db' e.
          inr (refl, _, goal_created, create_in-IsAudited s today_in w u body db db' g h e))
  handle-IsGuarded (update_goal id body refused) db h =
      elim (is_empty body)
        as (λ b. IsGuarded db (
          failure {A = Goal} (elim b [
            | true ↦ (err (bad_request field_required), db)
            | false ↦
                in_context s today_in w u (context s today_in w u db)
                  (λ today. run_serializable s refused (update_in s today_in w u id body today) db)
                  db
          ]))) [
            | true ↦ inl refl
            | false ↦ IsGuarded-context db _ _ (λ today.
                guarded (update_in s today_in w u id body today) db _
                  (run_serializable-Ends s refused (update_in s today_in w u id body today) db)
                  (λ g db' e. inr (
                    refl,
                    id,
                    goal_updated,
                    update_in-IsAudited s today_in w u id body today db db' g h e,
                  )))
          ]
  handle-IsGuarded (archive_goal id now refused) db h = IsGuarded-archive id now true refused db h
  handle-IsGuarded (restore_goal id now refused) db h = IsGuarded-archive id now false refused db h
  handle-IsGuarded (delete_goal id refused) db h =
      guarded (delete_in s today_in w u id) db _
        (transaction-Ends s refused (delete_in s today_in w u id) db)
        (λ t db' e.
          inr (refl, id, goal_deleted, delete_in-IsAudited s today_in w u id db db' t h e))
  handle-IsGuarded (create_goal_operation id body refused) db h = IsGuarded-context db _ _ (λ today.
      guarded (create_operation_in s today_in w u id body today) db _
        (run_serializable-Ends s refused (create_operation_in s today_in w u id body today) db)
        (λ o db' e. inr (
          refl,
          _,
          goal_operation_created,
          create_operation_in-IsAudited s today_in w u id body today db db' o h e,
        )))
  handle-IsGuarded (update_goal_operation id operation_id body refused) db h =
      IsGuarded-context db _ _ (λ today.
        guarded (update_operation_in s today_in w u id operation_id body today) db _
          (run_serializable-Ends s refused
            (update_operation_in s today_in w u id operation_id body today) db)
          (λ o db' e. inr (
            refl,
            operation_id,
            goal_operation_updated,
            update_operation_in-IsAudited s today_in w u id operation_id body today db db' o h e,
          )))
  handle-IsGuarded (delete_goal_operation id operation_id refused) db h =
      guarded (delete_operation_in s today_in w u id operation_id) db _
        (run_serializable-Ends s refused (delete_operation_in s today_in w u id operation_id) db)
        (λ t db' e. inr (
          refl,
          operation_id,
          goal_operation_deleted,
          delete_operation_in-IsAudited s today_in w u id operation_id db db' t h e,
        ))

-- Whatever requests members send, in any order and for any workspaces, no balance of a goal becomes
-- negative: its withdrawals stay within its initial amount and its deposits. None is negative
-- to begin with.
pub handle_all-IsSolvent :
    (s : GoalStore) (today_in : Text → Date) (requests : List (ℕ × ℕ × Request)) (db : s.Db)
    → IsSolvent s db
    → IsSolvent s (handle_all s today_in requests db)
handle_all-IsSolvent s today_in [] db h = h
handle_all-IsSolvent s today_in ((w, u, r) ∷ rest) db h =
    handle_all-IsSolvent s today_in rest _ (elim (handle-IsGuarded s today_in w u r db h) [
      | inl same ↦ subst⁻¹ (IsSolvent s) same h
      | inr (_, _, _, audited) ↦ audited.0
    ])
