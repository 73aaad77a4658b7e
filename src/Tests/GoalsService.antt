-- ===== src/Tests/GoalsService.antt =====
-- Runs of the goals service over tables in memory, and instances of its theorems.
use monqom.Common.{
  ℕ, ◌+◌, ◌≤◌, ◌<◌, ◌≡◌, refl, Bool, true, false, not, ◌&&◌, Option, none, some, List, [], ◌∷◌,
  ◌==◌, if◌then◌else◌,
}
use monqom.Common.Text.{Text, codes}
use monqom.Calendar.{Date, date, is_leap, days_in_month, next_day, advance, date_utc}
use monqom.Calendar.Parse.{match_date_only, parse_date_only, date_string}
use monqom.Common.Digits.{show, pad_start, digits, expect}
use monqom.Goals.Store.{
  deposit, withdrawal, GoalOperation, Goal, goal_operation_deleted, goal_operation_created,
}
use monqom.Goals.Service.{
  parse_date, parse_operation_date, ok, err, conflict, goal_archived, negative_balance, CreateGoal,
  UpdateGoal, OperationBody, Action, run_serializable, create_operation_in, delete_operation_in,
  update_in, update_operation_in, operation_row, event, is_conflict, database_error,
}
use monqom.Goals.Service.Solvent.{IsSolvent}
use monqom.Goals.Service.Refusals.{create_operation_in_withdrawal, delete_operation_in_accepts}
use monqom.Goals.Retry.{run_serializable_retries}
use monqom.Goals.Requests.{Request, create_goal, create_goal_operation, handle, handle_all}
use monqom.Goals.Requests.Laws.{IsGuarded, handle-IsGuarded, handle_all-IsSolvent}
use monqom.Tests.Memory.{Tables, memory}

run : Unit {0}
unfolding is_leap days_in_month next_day advance date_utc digits expect show pad_start
    match_date_only parse_date_only date_string parse_date parse_operation_date
run = tt

abbrev today : Date
today = date 2026 2 10

abbrev today_in : Text → Date
today_in zone = today

abbrev empty : Tables
empty = record {
  workspaces = λ w. some (record { base_currency = codes "EUR"; timezone = codes "UTC" });
  goals = λ w i. none;
  operations = λ k. none;
  bound = 0;
  log = [];
}

abbrev accepted : ℕ → Bool
accepted attempt = false

abbrev trip : CreateGoal
trip = record {
  name = codes "Trip";
  target_amount = 100000;
  initial_amount = some 500;
  target_date = codes "2026-12-01";
  include_current_month = true;
}

abbrev move : OperationBody
move = record { type = withdrawal; amount = 700; on = codes "2026-03-01"; note = none }

abbrev pay_in : OperationBody
pay_in = record { type = deposit; amount = 300; on = codes "2026-03-01"; note = none }

abbrev visits : List (ℕ × ℕ × Request)
visits =
    (1, 9, create_goal trip accepted)
    ∷ (1, 9, create_goal_operation 0 pay_in accepted)
    ∷ (1, 9, create_goal_operation 0 move accepted)
    ∷ []

empty-IsSolvent : IsSolvent memory empty
empty-IsSolvent w i g h = cc

handle_all-IsSolvent_example : IsSolvent memory (handle_all memory today_in visits empty)
handle_all-IsSolvent_example = handle_all-IsSolvent memory today_in visits empty empty-IsSolvent

handle-IsGuarded_example :
    IsGuarded memory today_in 1 9 empty
      (handle memory today_in 1 9 (create_goal trip accepted) empty)
handle-IsGuarded_example =
    handle-IsGuarded memory today_in 1 9 (create_goal trip accepted) empty empty-IsSolvent

-- One goal in every place, of which the first of workspace 1 has a deposit and a withdrawal.
abbrev row : ℕ → GoalOperation
row k = operation_row memory today_in 1 9 k 0 (if k == 0 then pay_in else move) (date 2026 2 1)

abbrev old_trip : Option ℕ → ℕ → ℕ → Goal
old_trip archived w i = record {
  id = i;
  workspace_id = w;
  name = codes "Trip";
  target_amount = 100000;
  initial_amount = 500;
  currency = codes "EUR";
  target_date = date 2026 11 1;
  plan_start_month = date 2026 2 1;
  archived_at = archived;
}

abbrev stocked : Option ℕ → Tables
stocked archived = record empty {
  goals = λ w i. some (old_trip archived w i);
  operations = λ k. some (row k);
  bound = 2;
}

abbrev new_name : UpdateGoal
new_name = record {
  name = some (codes "Trek");
  target_amount = none;
  initial_amount = none;
  target_date = none;
}

archived_goal_fixed :
    (update_in memory today_in 1 9 0 new_name today (stocked (some 4))
      ≡ err (conflict goal_archived))
    × (create_operation_in memory today_in 1 9 0 pay_in today (stocked (some 4))
        ≡ err (conflict goal_archived))
    × (update_operation_in memory today_in 1 9 0 1 pay_in today (stocked (some 4))
        ≡ err (conflict goal_archived))
    × (delete_operation_in memory today_in 1 9 0 1 (stocked (some 4))
        ≡ err (conflict goal_archived))
unfolding run update_in create_operation_in update_operation_in delete_operation_in
archived_goal_fixed = (refl, refl, refl, refl)

move_day : parse_operation_date (codes "2026-03-01") today ≡ ok (date 2026 2 1)
unfolding run
move_day = refl

create_operation_in_withdrawal_example :
    (700 + 700 ≤ 500 + 300
      → create_operation_in memory today_in 1 9 0 move today (stocked none)
        ≡ ok (
          row 2,
          memory.record_event
              (event memory today_in 1 9 goal_operation_created 2)
              (memory.put_operation (row 2) (stocked none)),
        ))
    × (500 + 300 < 700 + 700
        → create_operation_in memory today_in 1 9 0 move today (stocked none)
          ≡ err (conflict negative_balance))
create_operation_in_withdrawal_example =
    create_operation_in_withdrawal memory today_in 1 9 0 move today (date 2026 2 1)
      (old_trip none 1 0) (stocked none) refl refl move_day refl

delete_operation_in_accepts_example :
    (700 ≤ 500 + 0
      → delete_operation_in memory today_in 1 9 0 0 (stocked none)
        ≡ ok (
          tt,
          memory.record_event
              (event memory today_in 1 9 goal_operation_deleted 0)
              (memory.delete_operation_row 1 0 (stocked none)),
        ))
    × (500 + 0 < 700
        → delete_operation_in memory today_in 1 9 0 0 (stocked none)
          ≡ err (conflict negative_balance))
delete_operation_in_accepts_example =
    delete_operation_in_accepts memory today_in 1 9 0 0 (old_trip none 1 0) (row 0) (stocked none)
      refl refl refl

-- A callback that the database lets through at the second attempt.
abbrev rename_in : Action memory ℕ
rename_in db = ok (db.bound, db)

run_serializable_retries_example :
    run_serializable memory (λ attempt. attempt == 1) rename_in (stocked none)
    ≡ (ok 2, stocked none)
run_serializable_retries_example =
    run_serializable_retries memory (λ attempt. attempt == 1) rename_in (stocked none) (λ x e. cc)

-- The two shapes of a serialization conflict, and an error that is none.
conflicts :
    is_conflict (database_error (codes "P2034") none)
      && is_conflict (
          database_error
            (codes "P2010")
            (some (record { code = none; original_code = some (codes "40001") })))
      && is_conflict (
          database_error
            (codes "P2010")
            (some (record { code = some (codes "40001"); original_code = none })))
      && not (
          is_conflict (
            database_error
              (codes "P2010")
              (some (record { code = some (codes "23505"); original_code = none }))))
      && not (is_conflict (conflict negative_balance))
    ≡ true
conflicts = refl
