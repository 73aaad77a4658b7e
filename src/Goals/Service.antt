-- ===== src/Goals/Service.antt =====
-- The transactions and methods of backend/src/modules/goals/goals.service.ts. `today_in` is
-- `dateInTimeZone(new Date(), zone)`. What a method answers is the row that `mapGoal` or
-- `mapOperation` prints.
pub mod Balance
pub mod Solvent
pub mod Writes
pub mod Covered
pub mod Laws
pub mod Refusals
use monqom.Common.{
  ℕ, suc, ◌+◌, ◌≡◌, refl, Bool, true, false, not, ◌||◌, ◌&&◌, Option, none, some, List, [], ◌∷◌,
  foldl, ltb, leb, ◌==◌, if◌then◌else◌, find,
}
use monqom.Common.Int.{ℤ, pos, ◌+ℤ◌, ◌-ℤ◌, ltb_ℤ}
use monqom.Common.Text.{Text, trim}
use monqom.Calendar.{Date, stamp, start_of_utc_month, add_utc_months_clamped}
use monqom.Calendar.Parse.{match_date_only, parse_date_only}
use monqom.Goals.Store.{
  OperationType, deposit, withdrawal, GoalOperation, Goal, Workspace, AuditAction, AuditEvent,
  others, GoalStore,
}
unfoldable pub use monqom.Goals.Rules.{
  parse_date, parse_target_date, parse_operation_date, normalize_name, normalize_note,
  sum_operations, balance_cents,
}
pub use monqom.Goals.Rules.{
  Message, Exception, Result, ◌>>=◌, ◌>>◌, >>=-eq-ok, throw_if, or_throw, CreateGoal, UpdateGoal,
  OperationBody, is_empty, or_default, is_blank, same_type, is_negative, is_archived,
  assert_mutable, is_conflict, serializable_retry_limit, workspace_not_found, goal_not_found,
  operation_not_found, goal_archived, negative_balance, field_required, name_required, date_format,
  date_invalid, date_range, date_in_future, bad_request, conflict, not_found,
  serialization_conflict, database_error, retry_limit_exhausted, ok, err,
}

module _ (s : GoalStore) where
  open s use {
    Db, find_workspace, find_goal, operations_of, new_goal_id, new_operation_id, put_goal,
    delete_goal, put_operation, delete_operation_row, record_event,
  }

  -- A transaction's work: its answer and the rows that it leaves, or the exception that undoes it.
  abbrev pub Action : Type 0 → Type 0
  Action A = Db → Result (A × Db)

  -- One `$transaction`: the database may refuse to commit it next to concurrent ones.
  abbrev pub transaction : {A : Type 0} → Bool → Action A → Action A
  transaction refused callback db = if refused then err serialization_conflict else callback db

  -- What a method's caller sees, and the database after it.
  abbrev pub settle : {A : Type 0} → Result (A × Db) → Db → Result A × Db
  settle (ok (a, db')) db = (ok a, db')
  settle (err e) db = (err e, db)

  -- The body of the loop of `runSerializable`, where `again` is what its later rounds give.
  abbrev pub next_round : {A : Type 0} → Result (A × Db) → ℕ → Db → Result A × Db → Result A × Db
  next_round (ok (a, db')) attempt db again = (ok a, db')
  next_round (err e) attempt db again =
      if not (is_conflict e) || attempt == serializable_retry_limit then (err e, db) else again

  -- The rounds of `runSerializable`; `refused` says which attempts the database refuses.
  unfoldable pub attempts : {A : Type 0} → ℕ → ℕ → (ℕ → Bool) → Action A → Db → Result A × Db
  attempts ℕ.zero attempt refused callback db = (err retry_limit_exhausted, db)
  attempts (suc left) attempt refused callback db =
      next_round (transaction (refused attempt) callback db) attempt db
        (attempts left (attempt + 1) refused callback db)

  unfoldable pub run_serializable : {A : Type 0} → (ℕ → Bool) → Action A → Db → Result A × Db
  unfolding attempts
  run_serializable refused callback db = attempts serializable_retry_limit 1 refused callback db

  module _ (today_in : Text → Date) (workspace_id user_id : ℕ) where
    abbrev pub event : AuditAction → ℕ → AuditEvent
    event action entity_id = record {
      action = action;
      workspace_id = workspace_id;
      user_id = user_id;
      entity_id = entity_id;
    }

    -- `context`, the workspace with the current day in its time zone
    abbrev pub context : Db → Result (Workspace × Date)
    context db = do
      w ← or_throw (find_workspace db workspace_id) (not_found workspace_not_found)
      ok (w, today_in w.timezone)

    -- `findGoal`, and the operations that it includes
    abbrev pub get_goal : ℕ → Db → Result (Goal × List GoalOperation)
    get_goal goal_id db = do
      g ← or_throw (find_goal db workspace_id goal_id) (not_found goal_not_found)
      ok (g, operations_of db workspace_id goal_id)

    -- `const { today } = await this.context(workspaceId)` before a transaction
    abbrev pub in_context :
        {A : Type 0} → Result (Workspace × Date) → (Date → Result A × Db) → Db → Result A × Db
    in_context (ok (_, today)) rest db = rest today
    in_context (err e) rest db = (err e, db)

    unfoldable pub create_in : CreateGoal → Action Goal
    create_in body db = do
      (w, today) ← context db
      target ← parse_target_date body.target_date today
      name ← normalize_name body.name
      let first = if body.include_current_month then today else add_utc_months_clamped today 1
      let created : Goal = record {
        id = new_goal_id db;
        workspace_id = workspace_id;
        name = name;
        target_amount = body.target_amount;
        initial_amount = or_default body.initial_amount 0;
        currency = w.base_currency;
        target_date = target;
        plan_start_month = start_of_utc_month first;
        archived_at = none;
      }
      ok (created, record_event (event AuditAction.goal_created created.id) (put_goal created db))

    unfoldable pub create : CreateGoal → (ℕ → Bool) → Db → Result Goal × Db
    create body refused = run_serializable refused (create_in body)

    -- `body.name === undefined ? {} : { name: normalizeName(body.name) }`
    abbrev pub given_name : Option Text → Text → Result Text
    given_name none old = ok old
    given_name (some name) old = normalize_name name

    abbrev pub given_date : Option Text → Date → Date → Result Date
    given_date none old today = ok old
    given_date (some value) old today = parse_target_date value today

    unfoldable pub update_in : ℕ → UpdateGoal → Date → Action Goal
    update_in goal_id body today db = do
      (previous, operations) ← get_goal goal_id db
      assert_mutable previous
      let initial = or_default body.initial_amount previous.initial_amount
      throw_if (is_negative (balance_cents operations initial)) (conflict negative_balance)
      name ← given_name body.name previous.name
      target ← given_date body.target_date previous.target_date today
      let updated = record previous {
        name = name;
        target_amount = or_default body.target_amount previous.target_amount;
        initial_amount = initial;
        target_date = target;
      }
      ok (updated, record_event (event AuditAction.goal_updated goal_id) (put_goal updated db))

    unfoldable pub update : ℕ → UpdateGoal → (ℕ → Bool) → Db → Result Goal × Db
    update goal_id body refused db = elim (is_empty body) [
      | true ↦ (err (bad_request field_required), db)
      | false ↦
          in_context (context db)
            (λ today. run_serializable refused (update_in goal_id body today) db) db
    ]

    -- `setArchived`; `now` is `new Date()`
    unfoldable pub set_archived_in : ℕ → Bool → ℕ → Action Goal
    set_archived_in goal_id archived now db = do
      (previous, _) ← get_goal goal_id db
      let updated = record previous { archived_at = if archived then some now else none }
      let action = if archived then AuditAction.goal_archived else AuditAction.goal_restored
      let written = record_event (event action goal_id) (put_goal updated db)
      let same = if archived then is_archived previous else not (is_archived previous)
      if same then ok (previous, db) else ok (updated, written)

    -- The transaction of `setArchived` and `delete` is not tried again.
    unfoldable pub set_archived : ℕ → Bool → ℕ → Bool → Db → Result Goal × Db
    set_archived goal_id archived now refused db =
        in_context (context db)
          (λ _. settle (transaction refused (set_archived_in goal_id archived now) db) db) db

    unfoldable pub delete_in : ℕ → Action (Unit {0})
    delete_in goal_id db = do
      (g, _) ← get_goal goal_id db
      ok (
        tt,
        record_event (event AuditAction.goal_deleted goal_id) (delete_goal workspace_id goal_id db),
      )

    unfoldable pub delete : ℕ → Bool → Db → Result (Unit {0}) × Db
    delete goal_id refused db = settle (transaction refused (delete_in goal_id) db) db

    abbrev pub operation_row : ℕ → ℕ → OperationBody → Date → GoalOperation
    operation_row id goal_id body on = record {
      id = id;
      workspace_id = workspace_id;
      goal_id = goal_id;
      type = body.type;
      amount = body.amount;
      on = on;
      note = normalize_note body.note;
    }

    unfoldable pub create_operation_in : ℕ → OperationBody → Date → Action GoalOperation
    create_operation_in goal_id body today db = do
      (g, operations) ← get_goal goal_id db
      assert_mutable g
      on ← parse_operation_date body.on today
      let left = balance_cents operations g.initial_amount -ℤ pos body.amount
      throw_if (same_type body.type withdrawal && is_negative left) (conflict negative_balance)
      let created = operation_row (new_operation_id db) goal_id body on
      ok (
        created,
        record_event (event AuditAction.goal_operation_created created.id)
            (put_operation created db),
      )

    -- `previous` and `prospective` of `updateOperation`
    abbrev pub prospective : List GoalOperation → ℕ → OperationBody → ℤ
    prospective rest initial body =
        if same_type body.type deposit
        then balance_cents rest initial +ℤ pos body.amount
        else balance_cents rest initial -ℤ pos body.amount

    unfoldable pub update_operation_in : ℕ → ℕ → OperationBody → Date → Action GoalOperation
    update_operation_in goal_id operation_id body today db = do
      (g, operations) ← get_goal goal_id db
      assert_mutable g
      previous ←
          or_throw (find (λ o. o.id == operation_id) operations) (not_found operation_not_found)
      let after = prospective (others operation_id operations) g.initial_amount body
      throw_if (is_negative after) (conflict negative_balance)
      on ← parse_operation_date body.on today
      let updated = operation_row operation_id goal_id body on
      ok (
        updated,
        record_event (event AuditAction.goal_operation_updated operation_id)
            (put_operation updated db),
      )

    unfoldable pub delete_operation_in : ℕ → ℕ → Action (Unit {0})
    delete_operation_in goal_id operation_id db = do
      (g, operations) ← get_goal goal_id db
      assert_mutable g
      _ ← or_throw (find (λ o. o.id == operation_id) operations) (not_found operation_not_found)
      let left = balance_cents (others operation_id operations) g.initial_amount
      throw_if (is_negative left) (conflict negative_balance)
      ok (
        tt,
        record_event (event AuditAction.goal_operation_deleted operation_id)
            (delete_operation_row workspace_id operation_id db),
      )

    unfoldable pub create_operation :
        ℕ → OperationBody → (ℕ → Bool) → Db → Result GoalOperation × Db
    create_operation goal_id body refused db =
        in_context (context db)
          (λ today. run_serializable refused (create_operation_in goal_id body today) db) db

    unfoldable pub update_operation :
        ℕ → ℕ → OperationBody → (ℕ → Bool) → Db → Result GoalOperation × Db
    update_operation goal_id operation_id body refused db =
        in_context (context db)
          (λ today.
            run_serializable refused (update_operation_in goal_id operation_id body today) db)
          db

    unfoldable pub delete_operation : ℕ → ℕ → (ℕ → Bool) → Db → Result (Unit {0}) × Db
    delete_operation goal_id operation_id refused =
        run_serializable refused (delete_operation_in goal_id operation_id)
