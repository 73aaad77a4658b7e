-- ===== src/Goals/Service/Laws.antt =====
-- What each transaction of the goals service does to the stored goals.
use monqom.Common.{
  ℕ, ◌≡◌, refl, subst, subst⁻¹, sym, ◌⊎◌, inl, inr, Bool, not, if◌then◌else◌, false, ◌&&◌, some,
  ◌==◌, find,
}
use monqom.Common.Text.{Text}
use monqom.Common.Int.{pos, ◌-ℤ◌}
use monqom.Calendar.{Date}
use monqom.Goals.Store.{
  withdrawal, GoalOperation, Goal, goal_created, goal_updated, goal_deleted, goal_operation_created,
  goal_operation_updated, goal_operation_deleted, goal_archived, goal_restored, others, GoalStore,
}
use monqom.Goals.Service.{
  conflict, negative_balance, not_found, operation_not_found, ok, >>=-eq-ok, throw_if, or_throw,
  or_default, CreateGoal, UpdateGoal, OperationBody, parse_target_date, parse_operation_date,
  normalize_name, same_type, balance_cents, is_negative, assert_mutable, event, context, get_goal,
  given_name, given_date, create_in, update_in, delete_in, operation_row, create_operation_in,
  prospective, is_archived, set_archived_in, update_operation_in, delete_operation_in,
}
use monqom.Goals.Service.Balance.{IsCovered, is_negative_balance_iff}
use monqom.Goals.Service.Solvent.{IsSolvent}
use monqom.Goals.Service.Writes.{
  throw_if-eq-ok, if-split, ok-second, or_throw-eq-ok, IsAudited, stored_goal, removed_goal,
  stored_operation, removed_operation,
}
use monqom.Goals.Service.Covered.{
  get_goal-eq-ok, fresh-IsCovered, kept-IsCovered, with_prospective, added_covered,
}

module _ (s : GoalStore) (today_in : Text → Date) (workspace_id user_id : ℕ) where
  open s use {Db, find_goal, operations_of, new_goal_id, new_operation_id}

  pub create_in-IsAudited :
      (body : CreateGoal) (db db' : Db) (g : Goal)
      → IsSolvent s db
      → create_in s today_in workspace_id user_id body db ≡ ok (g, db')
      → IsAudited s (event s today_in workspace_id user_id goal_created (new_goal_id db)) db db'
  unfolding create_in
  create_in-IsAudited body db db' g h e =
      let ((w, today), e1, k1) = >>=-eq-ok (context s today_in workspace_id user_id db) _ e in
      let (target, e2, k2) = >>=-eq-ok (parse_target_date body.target_date today) _ k1 in
      let (name, e3, k3) = >>=-eq-ok (normalize_name body.name) _ k2 in
      stored_goal s _ _ db db' g h
        (fresh-IsCovered s today_in workspace_id user_id db (or_default body.initial_amount 0)) k3

  pub update_in-IsAudited :
      (goal_id : ℕ) (body : UpdateGoal) (today : Date) (db db' : Db) (g : Goal)
      → IsSolvent s db
      → update_in s today_in workspace_id user_id goal_id body today db ≡ ok (g, db')
      → IsAudited s (event s today_in workspace_id user_id goal_updated goal_id) db db'
  unfolding update_in
  update_in-IsAudited goal_id body today db db' g h e =
      let ((old, os), e1, k1) =
        >>=-eq-ok (get_goal s today_in workspace_id user_id goal_id db) _ e in
      let (u, e2, k2) = >>=-eq-ok (assert_mutable old) _ k1 in
      let (v, e3, k3) =
        >>=-eq-ok
          (throw_if
            (is_negative (balance_cents os (or_default body.initial_amount old.initial_amount)))
            (conflict negative_balance))
          _ k2 in
      let (name, e4, k4) =
        >>=-eq-ok (given_name s today_in workspace_id user_id body.name old.name) _ k3 in
      let (target, e5, k5) =
        >>=-eq-ok
          (given_date s today_in workspace_id user_id body.target_date old.target_date today) _
          k4 in
      stored_goal s _ _ db db' g h
        (kept-IsCovered s today_in workspace_id user_id goal_id _ db old os v _ e1 e3) k5

  pub create_operation_in-IsAudited :
      (goal_id : ℕ) (body : OperationBody) (today : Date) (db db' : Db) (o : GoalOperation)
      → IsSolvent s db
      → create_operation_in s today_in workspace_id user_id goal_id body today db ≡ ok (o, db')
      → IsAudited s
          (event s today_in workspace_id user_id goal_operation_created (new_operation_id db))
          db
          db'
  unfolding create_operation_in
  create_operation_in-IsAudited goal_id body today db db' o h e =
      let ((old, os), e1, k1) =
        >>=-eq-ok (get_goal s today_in workspace_id user_id goal_id db) _ e in
      let (u, e2, k2) = >>=-eq-ok (assert_mutable old) _ k1 in
      let (on, e3, k3) = >>=-eq-ok (parse_operation_date body.on today) _ k2 in
      let left = balance_cents os old.initial_amount -ℤ pos body.amount in
      let (v, e4, k4) =
        >>=-eq-ok
          (throw_if (same_type body.type withdrawal && is_negative left)
            (conflict negative_balance))
          _ k3 in
      let (there, same) = get_goal-eq-ok s today_in workspace_id user_id goal_id db old os e1 in
      let accepted = throw_if-eq-ok _ (conflict negative_balance) v e4 in
      stored_operation s _ old _ db db' o h there (inr refl)
        (added_covered s today_in workspace_id user_id goal_id old.initial_amount db os
          (operation_row s today_in workspace_id user_id (new_operation_id db) goal_id body on) body
          same refl refl (h workspace_id goal_id old there) accepted)
        k4

  pub update_operation_in-IsAudited :
      (goal_id operation_id : ℕ) (body : OperationBody) (today : Date) (db db' : Db)
      (o : GoalOperation)
      → IsSolvent s db
      → update_operation_in s today_in workspace_id user_id goal_id operation_id body today db
        ≡ ok (o, db')
      → IsAudited s
          (event s today_in workspace_id user_id goal_operation_updated operation_id)
          db
          db'
  unfolding update_operation_in
  update_operation_in-IsAudited goal_id operation_id body today db db' o h e =
      let ((old, os), e1, k1) =
        >>=-eq-ok (get_goal s today_in workspace_id user_id goal_id db) _ e in
      let (u, e2, k2) = >>=-eq-ok (assert_mutable old) _ k1 in
      let (previous, e3, k3) =
        >>=-eq-ok (or_throw (find (λ p. p.id == operation_id) os) (not_found operation_not_found)) _
          k2 in
      let rest = others operation_id os in
      let after = prospective s today_in workspace_id user_id rest old.initial_amount body in
      let (v, e4, k4) = >>=-eq-ok (throw_if (is_negative after) (conflict negative_balance)) _ k3 in
      let (on, e5, k5) = >>=-eq-ok (parse_operation_date body.on today) _ k4 in
      let (there, same) = get_goal-eq-ok s today_in workspace_id user_id goal_id db old os e1 in
      let accepted = throw_if-eq-ok _ (conflict negative_balance) v e4 in
      stored_operation s _ old _ db db' o h there
        (inl (
          previous,
          subst (λ l. find (λ p. p.id == operation_id) l ≡ some previous) same
              (or_throw-eq-ok _ (not_found operation_not_found) previous e3),
        ))
        (with_prospective s today_in workspace_id user_id
          (others operation_id (operations_of db workspace_id goal_id))
          (operation_row s today_in workspace_id user_id operation_id goal_id body on)
          old.initial_amount body refl refl
          (subst
            (λ l.
              is_negative (
                prospective s today_in workspace_id user_id (others operation_id l)
                  old.initial_amount body)
              ≡ false)
            same accepted))
        k5

  pub delete_operation_in-IsAudited :
      (goal_id operation_id : ℕ) (db db' : Db) (u : Unit {0})
      → IsSolvent s db
      → delete_operation_in s today_in workspace_id user_id goal_id operation_id db ≡ ok (u, db')
      → IsAudited s
          (event s today_in workspace_id user_id goal_operation_deleted operation_id)
          db
          db'
  unfolding delete_operation_in
  delete_operation_in-IsAudited goal_id operation_id db db' o h e =
      let ((old, os), e1, k1) =
        >>=-eq-ok (get_goal s today_in workspace_id user_id goal_id db) _ e in
      let (u, e2, k2) = >>=-eq-ok (assert_mutable old) _ k1 in
      let (previous, e3, k3) =
        >>=-eq-ok (or_throw (find (λ p. p.id == operation_id) os) (not_found operation_not_found)) _
          k2 in
      let left = balance_cents (others operation_id os) old.initial_amount in
      let (v, e4, k4) = >>=-eq-ok (throw_if (is_negative left) (conflict negative_balance)) _ k3 in
      let (there, same) = get_goal-eq-ok s today_in workspace_id user_id goal_id db old os e1 in
      let member = or_throw-eq-ok _ (not_found operation_not_found) previous e3 in
      let c =
        (is_negative_balance_iff _ old.initial_amount).0
          (throw_if-eq-ok _ (conflict negative_balance) v e4) in
      removed_operation s workspace_id goal_id operation_id old previous _ db db' o h there
        (subst (λ l. find (λ p. p.id == operation_id) l ≡ some previous) same member)
        (subst (λ l. IsCovered old.initial_amount (others operation_id l)) same c) k4

  pub delete_in-IsAudited :
      (goal_id : ℕ) (db db' : Db) (u : Unit {0})
      → IsSolvent s db
      → delete_in s today_in workspace_id user_id goal_id db ≡ ok (u, db')
      → IsAudited s (event s today_in workspace_id user_id goal_deleted goal_id) db db'
  unfolding delete_in
  delete_in-IsAudited goal_id db db' u h e =
      let ((old, os), e1, k1) =
        >>=-eq-ok (get_goal s today_in workspace_id user_id goal_id db) _ e in
      removed_goal s workspace_id goal_id _ db db' u h k1

  -- Archiving again what is archived, or restoring what is not, writes nothing.
  pub set_archived_in-IsAudited :
      (goal_id : ℕ) (archived : Bool) (now : ℕ) (db db' : Db) (g : Goal)
      → IsSolvent s db
      → set_archived_in s today_in workspace_id user_id goal_id archived now db ≡ ok (g, db')
      → (db' ≡ db)
        ⊎ IsAudited s
            (event s today_in workspace_id user_id
              (if archived then goal_archived else goal_restored)
              goal_id)
            db
            db'
  unfolding set_archived_in
  set_archived_in-IsAudited goal_id archived now db db' g h e =
      let ((old, os), e1, k1) =
        >>=-eq-ok (get_goal s today_in workspace_id user_id goal_id db) _ e in
      let (there, same) = get_goal-eq-ok s today_in workspace_id user_id goal_id db old os e1 in
      let (w, i) = s.find-id db workspace_id goal_id old there in
      let covered : IsCovered old.initial_amount (operations_of db old.workspace_id old.id) =
        h old.workspace_id old.id old (
          subst⁻¹ (λ v. find_goal db v old.id ≡ some old) w
            (subst⁻¹ (λ j. find_goal db workspace_id j ≡ some old) i there)) in
      elim (if-split (if archived then is_archived old else not (is_archived old)) _ _ _ k1) [
        | inl k ↦ inl (sym (ok-second old g db db' k))
        | inr k ↦ inr (stored_goal s _ _ db db' g h covered k)
      ]
