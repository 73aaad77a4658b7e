-- ===== src/Integrations/Transactions/Repeats.antt =====
-- Which replies the creating, updating and deleting of a transaction give, as far as their replays
-- depend on it.
use monqom.Common.{
  ℕ, ◌≡◌, refl, sym, ap, subst, inl, inr, true, false, not, Option, none, some, find, any, ◌==◌,
  ◌&&◌,
}
use monqom.Common.Results.{Outcome, ok, ◌>>◌, throw_if, or_throw, >>=-eq-ok}
use monqom.Common.Text.{Text}
use monqom.Integrations.Contract.{Failure, precondition_failed, version_mismatch, Command}
use monqom.Integrations.Ledger.{Row, creating, updating, exists_body, is_null, Db}
use monqom.Integrations.Ownership.{
  Principal, Reply, Claim, refers, assert_references, require_owned, text_of, is_creating,
}
use monqom.Integrations.Ownership.Replays.{IsRepeatable}
use monqom.Integrations.Transactions.{
  Surroundings, found_by, insert_new, exists_reply, is_current, changed_rows, changed,
  create_external_in, update_external_in, delete_external_in, resolve_financials, references_of,
}

module _ (e : Surroundings) where
  reply_eq :
      (a a' : Reply) (r r' : Row) (d d' : Db)
      → ◌≡◌ {A = Outcome Failure (Reply × Row × Db)} (ok (a, r, d)) (ok (a', r', d'))
      → a ≡ a'
  reply_eq a a' r r' d d' h = cc

  insert_new-IsRepeatable :
      (p : Principal) (c : Command) (claim : Claim) (db db' : Db) (reply : Reply) (target : Row)
      → insert_new e p c false db ≡ ok (reply, target, db')
      → IsRepeatable claim reply
  unfolding insert_new
  insert_new-IsRepeatable p c claim db db' reply target h =
      let (base_amount, _, k) = >>=-eq-ok (resolve_financials e p.workspace_id c db) _ h in
      subst (IsRepeatable claim) (reply_eq _ reply _ target _ db' k) (inr (inr (_, refl, inl refl)))

  found_or_new-IsRepeatable :
      (p : Principal) (c : Command) (claim : Claim) (db db' : Db) (reply : Reply) (target : Row)
      (o : Option Row)
      → claim.operation ≡ creating
      → claim.target_external_id ≡ c.external_id
      → (elim o [
        | some existing ↦
            assert_references p (refers existing) db true
            >> ok (exists_reply e c.external_id, existing, db)
        | none ↦ insert_new e p c false db
      ])
        ≡ ok (reply, target, db')
      → IsRepeatable claim reply
  found_or_new-IsRepeatable p c claim db db' reply target none o t h =
      insert_new-IsRepeatable p c claim db db' reply target h
  found_or_new-IsRepeatable p c claim db db' reply target (some existing) o t h =
      let (_, _, k) = >>=-eq-ok (assert_references p (refers existing) db true) _ h in
      subst (IsRepeatable claim) (reply_eq _ reply existing target db db' k)
        (inr (inl (ap is_creating o, refl, ap (λ x. exists_body (text_of x)) (sym t), refl)))

  pub create_external_in-IsRepeatable :
      (p : Principal) (c : Command) (claim : Claim) (db db' : Db) (reply : Reply) (target : Row)
      → claim.operation ≡ creating
      → claim.target_external_id ≡ c.external_id
      → create_external_in e p c false db ≡ ok (reply, target, db')
      → IsRepeatable claim reply
  unfolding create_external_in
  create_external_in-IsRepeatable p c claim db db' reply target o t h =
      let (_, _, k) = >>=-eq-ok (assert_references p (references_of e c) db false) _ h in
      found_or_new-IsRepeatable p c claim db db' reply target (found_by e p c.external_id db) o t k

  pub update_external_in-IsRepeatable :
      (p : Principal) (external_id : Text) (version : ℕ) (c : Command) (claim : Claim) (db db' : Db)
      (reply : Reply) (target : Row)
      → claim.operation ≡ updating
      → update_external_in e p external_id version c db ≡ ok (reply, target, db')
      → IsRepeatable claim reply
  unfolding update_external_in
  update_external_in-IsRepeatable p external_id version c claim db db' reply target o h =
      let (existing, _, k1) = >>=-eq-ok (require_owned p external_id db) _ h in
      let (_, _, k2) = >>=-eq-ok (assert_references p (refers existing) db true) _ k1 in
      let (_, _, k3) = >>=-eq-ok (assert_references p (references_of e c) db false) _ k2 in
      let (_, _, k4) =
        >>=-eq-ok
          (throw_if (not (existing.version == version)) (precondition_failed version_mismatch)) _
          k3 in
      let (base_amount, _, k5) = >>=-eq-ok (resolve_financials e p.workspace_id c db) _ k4 in
      let current = is_current e p external_id existing.id version in
      let (_, _, k6) =
        >>=-eq-ok
          (throw_if (not (any current db.transactions)) (precondition_failed version_mismatch)) _
          k5 in
      let (row, _, k7) =
        >>=-eq-ok
          (or_throw
            (find
              (λ r.
                (r.id == existing.id && r.workspace_id == p.workspace_id) && is_null r.deleted_at)
              (changed_rows e current (changed e c base_amount) db).transactions)
            (precondition_failed version_mismatch))
          _ k6 in
      subst (IsRepeatable claim) (reply_eq _ reply row target _ db' k7)
        (inr (inr (row, refl, inr (refl, ap is_creating o))))

  pub delete_external_in-IsRepeatable :
      (p : Principal) (external_id : Text) (version at : ℕ) (claim : Claim) (db db' : Db)
      (reply : Reply) (target : Row)
      → delete_external_in e p external_id version at db ≡ ok (reply, target, db')
      → IsRepeatable claim reply
  unfolding delete_external_in
  delete_external_in-IsRepeatable p external_id version at claim db db' reply target h =
      let (existing, _, k1) = >>=-eq-ok (require_owned p external_id db) _ h in
      let (_, _, k2) = >>=-eq-ok (assert_references p (refers existing) db true) _ k1 in
      let current = is_current e p external_id existing.id version in
      let (_, _, k3) =
        >>=-eq-ok
          (throw_if (not (any current db.transactions)) (precondition_failed version_mismatch)) _
          k2 in
      subst (IsRepeatable claim) (reply_eq _ reply existing target _ db' k3)
        (inl (refl, refl, refl))
