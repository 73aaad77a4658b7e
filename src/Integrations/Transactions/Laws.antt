-- ===== src/Integrations/Transactions/Laws.antt =====
-- What every request of an integration keeps of the rows.
use monqom.Common.{
  ℕ, ◌≡◌, refl, ap, subst, inl, inr, Bool, true, false, not, ◌&&◌, Option, none, some, List, arith,
  ◌==◌, any, find, filter, Bool-cases,
}
use monqom.Common.Results.{ok, ◌>>◌, >>=-eq-ok, throw_if, or_throw}
use monqom.Common.Tables.{count, count-update_rows, find-none-count, filter-update_rows}
use monqom.Common.Text.{Text, text_eq_iff}
use monqom.Integrations.Contract.{unique_constraint, precondition_failed, version_mismatch, Command}
use monqom.Integrations.Ledger.{Row, Db, is_null, is_own, is_text, is_keyed}
use monqom.Integrations.Ledger.Laws.{IsConsistent, below-update_rows, below-weaken, count-below}
use monqom.Integrations.Ownership.{
  Principal, Reply, Mutation, refers, assert_references, require_owned,
}
use monqom.Integrations.Transactions.{
  Surroundings, references_of, resolve_financials, new_row, insert_row, insert_new, found_by,
  exists_reply, create_external_in, is_current, changed, changed_rows, update_external_in, deleted,
  delete_external_in,
}
use monqom.Integrations.Transactions.Versions.{third}

-- The rows that are not those of an integration.
abbrev pub foreign : Principal → Db → List Row
foreign p db = filter (λ r. not (is_own p.workspace_id p.integration_id r)) db.transactions

-- What a change keeps: unique identifiers and external ids, and the rows of all others.
abbrev pub Keeps : Principal → Db → Db → Type 0
Keeps p db db' = (IsConsistent db → IsConsistent db') × (foreign p db' ≡ foreign p db)

module _ (e : Surroundings) (p : Principal) where
  new_key :
      (c : Command) (base_amount w i : ℕ) (external_id : Text) (db : Db)
      → found_by e p c.external_id db ≡ none
      → is_keyed w i external_id (new_row e p c base_amount db.next_id) ≡ true
      → count (is_keyed w i external_id) db.transactions ≡ 0
  new_key c base_amount w i external_id db free same =
      elim c.external_id
          as (λ o.
            found_by e p o db ≡ none
            → is_own w i (new_row e p c base_amount db.next_id) && is_text external_id o ≡ true
            → count (is_keyed w i external_id) db.transactions ≡ 0) [
              | none ↦ λ free same. absurd (ground arith)
              | some given ↦ λ free same.
                  let at : given ≡ external_id = (text_eq_iff given external_id).0 (ground arith) in
                  subst (λ t. count (is_keyed w i t) db.transactions ≡ 0) at
                    (find-none-count _ (is_keyed w i given) db.transactions (λ r k. ground arith)
                      free)
            ]
        free same

  insert_row-Keeps :
      (c : Command) (base_amount : ℕ) (db : Db)
      → found_by e p c.external_id db ≡ none
      → Keeps p db (insert_row e (new_row e p c base_amount db.next_id) db)
  insert_row-Keeps c base_amount db free = (
    λ fine. record {
      below = (omega arith, below-weaken db.next_id db.transactions fine.below);
      ids = λ id. ground (arith, fine.ids id, count-below db.next_id db.transactions fine.below);
      keys = λ w i external_id.
          elim (Bool-cases (is_keyed w i external_id (new_row e p c base_amount db.next_id))) [
            | inl same ↦ ground (arith, new_key c base_amount w i external_id db free same)
            | inr other ↦ ground (arith, fine.keys w i external_id)
          ];
    },
    ground arith,
  )

  changed_rows-Keeps :
      (q : Row → Bool) (f : Row → Row) (db : Db)
      → ((r : Row) → (f r).id ≡ r.id)
      → ((r : Row) (w i : ℕ) (external_id : Text)
          → is_keyed w i external_id (f r) ≡ is_keyed w i external_id r)
      → ((r : Row) (w i : ℕ) → is_own w i (f r) ≡ is_own w i r)
      → ((r : Row) → q r ≡ true → is_own p.workspace_id p.integration_id r ≡ true)
      → Keeps p db (changed_rows e q f db)
  changed_rows-Keeps q f db same_id same_key same_owner own = (
    λ fine. record {
      below = below-update_rows db.next_id q f db.transactions same_id fine.below;
      ids = λ id. omega (
        arith,
        fine.ids id,
        count-update_rows (λ r. r.id == id) q f db.transactions
            (λ r. ap (λ n. n == id) (same_id r)),
      );
      keys = λ w i external_id. omega (
        arith,
        fine.keys w i external_id,
        count-update_rows (is_keyed w i external_id) q f db.transactions
            (λ r. same_key r w i external_id),
      );
    },
    filter-update_rows _ q f db.transactions (λ r h. ap not (own r h))
        (λ r. ap not (same_owner r p.workspace_id p.integration_id)),
  )

  abbrev pub Safe : Mutation → Type 0
  Safe mutate =
      (db db' : Db) (reply : Reply) (row : Row) → mutate db ≡ ok (reply, row, db') → Keeps p db db'

  Keeps-refl : (db : Db) → Keeps p db db
  Keeps-refl db = (λ fine. fine, refl)

  insert_new-Safe :
      (c : Command) (collides : Bool) (db db' : Db) (reply : Reply) (row : Row)
      → found_by e p c.external_id db ≡ none
      → insert_new e p c collides db ≡ ok (reply, row, db')
      → Keeps p db db'
  unfolding insert_new
  insert_new-Safe c collides db db' reply row free h =
      let (base_amount, _, h1) = >>=-eq-ok (resolve_financials e p.workspace_id c db) _ h in
      let (_, _, h2) = >>=-eq-ok (throw_if collides unique_constraint) _ h1 in
      subst (Keeps p db) (third _ reply _ row _ db' h2) (insert_row-Keeps c base_amount db free)

  found_or_new :
      (c : Command) (collides : Bool) (db db' : Db) (reply : Reply) (row : Row) (o : Option Row)
      → found_by e p c.external_id db ≡ o
      → (elim o [
        | some existing ↦
            assert_references p (refers existing) db true
            >> ok (exists_reply e c.external_id, existing, db)
        | none ↦ insert_new e p c collides db
      ])
        ≡ ok (reply, row, db')
      → Keeps p db db'
  found_or_new c collides db db' reply row none free h =
      insert_new-Safe c collides db db' reply row free h
  found_or_new c collides db db' reply row (some existing) there h =
      let (_, _, h1) = >>=-eq-ok (assert_references p (refers existing) db true) _ h in
      subst (Keeps p db) (third _ reply _ row _ db' h1) (Keeps-refl db)

  pub create_external_in-Safe :
      (c : Command) (collides : Bool) → Safe (create_external_in e p c collides)
  unfolding create_external_in
  create_external_in-Safe c collides db db' reply row h =
      let (_, _, h1) = >>=-eq-ok (assert_references p (references_of e c) db false) _ h in
      found_or_new c collides db db' reply row (found_by e p c.external_id db) refl h1

  current_own :
      (external_id : Text) (id version : ℕ) (r : Row)
      → is_current e p external_id id version r ≡ true
      → is_own p.workspace_id p.integration_id r ≡ true
  current_own external_id id version r h = ground arith

  pub update_external_in-Safe :
      (external_id : Text) (version : ℕ) (c : Command)
      → Safe (update_external_in e p external_id version c)
  unfolding update_external_in
  update_external_in-Safe external_id version c db db' reply row h =
      let (old, _, h1) = >>=-eq-ok (require_owned p external_id db) _ h in
      let (_, _, h2) = >>=-eq-ok (assert_references p (refers old) db true) _ h1 in
      let (_, _, h3) = >>=-eq-ok (assert_references p (references_of e c) db false) _ h2 in
      let (_, _, h4) =
        >>=-eq-ok (throw_if (not (old.version == version)) (precondition_failed version_mismatch)) _
          h3 in
      let (base_amount, _, h5) = >>=-eq-ok (resolve_financials e p.workspace_id c db) _ h4 in
      let current = is_current e p external_id old.id version in
      let (_, _, h6) =
        >>=-eq-ok
          (throw_if (not (any current db.transactions)) (precondition_failed version_mismatch)) _
          h5 in
      let (_, _, h7) =
        >>=-eq-ok
          (or_throw
            (find
              (λ r. (r.id == old.id && r.workspace_id == p.workspace_id) && is_null r.deleted_at)
              (changed_rows e current (changed e c base_amount) db).transactions)
            (precondition_failed version_mismatch))
          _ h6 in
      subst (Keeps p db) (third _ reply _ row _ db' h7) (
        changed_rows-Keeps current (changed e c base_amount) db (λ r. refl) (λ r w i x. refl)
          (λ r w i. refl) (current_own external_id old.id version))

  pub delete_external_in-Safe :
      (external_id : Text) (version at : ℕ) → Safe (delete_external_in e p external_id version at)
  unfolding delete_external_in
  delete_external_in-Safe external_id version at db db' reply row h =
      let (old, _, h1) = >>=-eq-ok (require_owned p external_id db) _ h in
      let (_, _, h2) = >>=-eq-ok (assert_references p (refers old) db true) _ h1 in
      let current = is_current e p external_id old.id version in
      let (_, _, h3) =
        >>=-eq-ok
          (throw_if (not (any current db.transactions)) (precondition_failed version_mismatch)) _
          h2 in
      subst (Keeps p db) (third _ reply _ row _ db' h3) (
        changed_rows-Keeps current (deleted e at) db (λ r. refl) (λ r w i x. refl) (λ r w i. refl)
          (current_own external_id old.id version))
