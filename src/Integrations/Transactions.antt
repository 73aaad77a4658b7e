-- ===== src/Integrations/Transactions.antt =====
-- The requests of backend/src/modules/integrations/external-transaction-ownership.service.ts that
-- change transactions, with `createTransactionWithTags` and `updateTransactionWithTags` of
-- backend/src/modules/transactions/transactions.repository.ts for a caller that is no user.
pub mod Laws
pub mod Versions
pub mod Runs
pub mod Repeats
pub mod Replays
use monqom.Common.{
  ℕ, ◌+◌, Bool, true, false, not, ◌&&◌, ◌||◌, Option, none, some, List, [], ◌∷◌, map, ltb, ◌==◌,
  if◌then◌else◌, any, find,
}
use monqom.Common.Results.{Outcome, ok, err, ◌>>=◌, ◌>>◌, throw_if, or_throw}
use monqom.Common.Tables.{update_rows}
use monqom.Common.Text.{Text, codes}
use monqom.Calendar.{Date}
use monqom.Integrations.Contract.{
  Failure, bad_request, not_found, precondition_failed, unique_constraint, out_of_range,
  version_mismatch, transaction_not_found, workspace_not_found, normalize_external_id,
  normalize_idempotency_key, assert_version, max_int, Command, normalize_command,
}
use monqom.Integrations.Ledger.{
  Row, creating, updating, deleting, exists_body, no_body, transaction_created, transaction_updated,
  transaction_deleted, Db, is_null, is_keyed, find_keyed, log,
}
use monqom.Integrations.Ownership.{
  Principal, Reply, Claim, References, Intent, create_intent, update_intent, delete_intent,
  Mutation, refers, assert_references, assert_scope, require_owned, text_of, transaction_result,
  execute,
}

-- What the service reads besides the rows.
pub record Surroundings : Type 0 where
  pub lower : Text → Text
  pub upper : Text → Text
  pub digest_of : Text → Text
  pub fingerprint_of : Intent → Text
  pub quote : Text → Text → Date → ℕ → Outcome Failure (Option ℕ)
  pub canonical_tags : List Text → List Text

-- The readings of the clock.
pub record Moment : Type 0 where
  pub now : ℕ
  pub deleted_at : ℕ
  pub completed_at : ℕ

-- `fingerprintExternalTransactionCreate` and the two others normalize their input once more.
module _ (e : Surroundings) where
  open e use {lower, upper, digest_of, fingerprint_of, quote, canonical_tags}

  abbrev pub fingerprint_create : Command → Outcome Failure Text
  fingerprint_create input = do
    command ← normalize_command lower upper input
    ok (fingerprint_of (create_intent (record command { tags = map lower command.tags })))

  abbrev pub fingerprint_update : Command → ℕ → Outcome Failure Text
  fingerprint_update input version = do
    command ← normalize_command lower upper input
    ok (fingerprint_of (update_intent (record command { tags = map lower command.tags }) version))

  abbrev pub fingerprint_delete : Text → ℕ → Outcome Failure Text
  fingerprint_delete external_id version = do
    id ← normalize_external_id external_id
    ok (fingerprint_of (delete_intent id version))

  abbrev pub references_of : Command → References
  references_of c = record {
    category_id = c.category_id;
    payment_source_id = c.payment_source_id;
    type = some c.type;
  }

  abbrev in_range : Option ℕ → Option ℕ
  in_range none = none
  in_range (some amount) = if ltb amount 1 || ltb max_int amount then none else some amount

  -- `resolveFinancials`, the converted amount
  unfoldable pub resolve_financials : ℕ → Command → Db → Outcome Failure ℕ
  resolve_financials w command db = do
    base ← or_throw (db.base_currency w) (not_found workspace_not_found)
    amount ← quote command.currency base command.date command.amount
    or_throw (in_range amount) (bad_request out_of_range)

  abbrev pub new_row : Principal → Command → ℕ → ℕ → Row
  new_row p c base_amount id = record {
    id = id;
    workspace_id = p.workspace_id;
    integration_id = some p.integration_id;
    external_id = c.external_id;
    category_id = c.category_id;
    payment_source_id = c.payment_source_id;
    type = c.type;
    version = 1;
    amount = c.amount;
    currency = c.currency;
    base_amount = base_amount;
    date = c.date;
    description = c.description;
    notes = c.notes;
    tags = canonical_tags c.tags;
    deleted_at = none;
  }

  abbrev pub insert_row : Row → Db → Db
  insert_row row db =
      log transaction_created row.workspace_id row.id
        (record db { transactions = row ∷ db.transactions; next_id = db.next_id + 1 })

  -- What is inserted where no row has the external id; `collides` if another transaction inserted
  -- one that this one does not see.
  unfoldable pub insert_new : Principal → Command → Bool → Mutation
  insert_new p c collides db = do
    base_amount ← resolve_financials p.workspace_id c db
    throw_if collides unique_constraint
    let row = new_row p c base_amount db.next_id
    ok (transaction_result row 201, row, insert_row row db)

  abbrev pub found_by : Principal → Option Text → Db → Option Row
  found_by p none db = none
  found_by p (some external_id) db = find_keyed db p.workspace_id p.integration_id external_id true

  abbrev pub exists_reply : Option Text → Reply
  exists_reply id = record {
    body = exists_body (text_of id);
    replayed = false;
    response_status = 200;
    etag = none;
  }

  -- The callback of `createIdempotently`.
  unfoldable pub create_external_in : Principal → Command → Bool → Mutation
  create_external_in p c collides db = do
    assert_references p (references_of c) db false
    elim (found_by p c.external_id db) [
      | some existing ↦
          assert_references p (refers existing) db true
          >> ok (exists_reply c.external_id, existing, db)
      | none ↦ insert_new p c collides db
    ]

  -- The condition and the change of `updateMany` in `updateTransactionWithTags`.
  abbrev pub is_current : Principal → Text → ℕ → ℕ → Row → Bool
  is_current p external_id id version r =
      r.id == id
      && (is_null r.deleted_at
          && (is_keyed p.workspace_id p.integration_id external_id r && r.version == version))

  abbrev pub changed : Command → ℕ → Row → Row
  changed c base_amount r = record r {
    category_id = c.category_id;
    payment_source_id = c.payment_source_id;
    type = c.type;
    amount = c.amount;
    currency = c.currency;
    base_amount = base_amount;
    date = c.date;
    description = c.description;
    notes = c.notes;
    tags = canonical_tags c.tags;
    version = r.version + 1;
  }

  abbrev pub changed_rows : (Row → Bool) → (Row → Row) → Db → Db
  changed_rows p f db = record db { transactions = update_rows p f db.transactions }

  -- The callback of `updateIdempotently`.
  unfoldable pub update_external_in : Principal → Text → ℕ → Command → Mutation
  update_external_in p external_id version c db = do
    existing ← require_owned p external_id db
    assert_references p (refers existing) db true
    assert_references p (references_of c) db false
    throw_if (not (existing.version == version)) (precondition_failed version_mismatch)
    base_amount ← resolve_financials p.workspace_id c db
    let current = is_current p external_id existing.id version
    throw_if (not (any current db.transactions)) (precondition_failed version_mismatch)
    let db' = changed_rows current (changed c base_amount) db
    row ←
        or_throw
          (find
            (λ r. (r.id == existing.id && r.workspace_id == p.workspace_id) && is_null r.deleted_at)
            db'.transactions)
          (precondition_failed version_mismatch)
    ok (transaction_result row 200, row, log transaction_updated p.workspace_id row.id db')

  abbrev pub deleted : ℕ → Row → Row
  deleted at r = record r { deleted_at = some at; version = r.version + 1 }

  -- The callback of `deleteIdempotently`; `at` is `new Date()`.
  unfoldable pub delete_external_in : Principal → Text → ℕ → ℕ → Mutation
  delete_external_in p external_id version at db = do
    existing ← require_owned p external_id db
    assert_references p (refers existing) db true
    let current = is_current p external_id existing.id version
    throw_if (not (any current db.transactions)) (precondition_failed version_mismatch)
    let db' = changed_rows current (deleted at) db
    ok (
      record { body = no_body; replayed = false; response_status = 204; etag = none },
      existing,
      log transaction_deleted p.workspace_id existing.id db',
    )

  abbrev pub create_claim : Option Text → Command → Outcome Failure (Option Claim)
  create_claim none c = ok none
  create_claim (some key) c = do
    key ← normalize_idempotency_key key
    fingerprint ← fingerprint_create c
    ok (
        some (record {
          key = key;
          operation = creating;
          target_external_id = c.external_id;
          fingerprint = fingerprint;
        }))

  abbrev pub is_unique : Failure → Bool
  is_unique unique_constraint = true
  is_unique _ = false

  -- The `catch` of `createIdempotently`: after a collision, of a named transaction, a second attempt
  -- on the rows that the other transaction left.
  abbrev pub attempt_again :
      Outcome Failure (Reply × Db)
      → Option Text
      → Outcome Failure (Reply × Db)
      → Outcome Failure (Reply × Db)
  attempt_again (ok answer) external_id again = ok answer
  attempt_again (err failure) external_id again =
      if not (is_null external_id) && is_unique failure then again else err failure

  -- `raced` are the rows with the insert of another transaction, if one comes in between.
  unfoldable pub create_idempotently :
      Principal → Option Text → Command → Moment → Option Db → Db → Outcome Failure (Reply × Db)
  create_idempotently p key input m raced db = do
    assert_scope p (codes "transactions:create")
    c ← normalize_command lower upper input
    claim ← create_claim key c
    attempt_again
        (execute digest_of p claim (create_external_in p c (not (is_null raced))) m.now
          m.completed_at db)
        c.external_id
        (execute digest_of p claim (create_external_in p c false) m.now m.completed_at
          (elim raced [ none ↦ db | some db' ↦ db' ]))

  unfoldable pub update_idempotently :
      Principal → Text → ℕ → Command → Moment → Db → Outcome Failure (Reply × Db)
  update_idempotently p key version input m db = do
    assert_scope p (codes "transactions:update-own")
    assert_version version
    c ← normalize_command lower upper input
    external_id ← normalize_external_id (text_of c.external_id)
    key ← normalize_idempotency_key key
    fingerprint ← fingerprint_update c version
    let claim : Claim = record {
      key = key;
      operation = updating;
      target_external_id = some external_id;
      fingerprint = fingerprint;
    }
    execute digest_of p (some claim) (update_external_in p external_id version c) m.now
        m.completed_at db

  unfoldable pub delete_idempotently :
      Principal → Text → Text → ℕ → Moment → Db → Outcome Failure (Reply × Db)
  delete_idempotently p key external_id version m db = do
    assert_scope p (codes "transactions:delete-own")
    assert_version version
    id ← normalize_external_id external_id
    key ← normalize_idempotency_key key
    fingerprint ← fingerprint_delete id version
    let claim : Claim = record {
      key = key;
      operation = deleting;
      target_external_id = some id;
      fingerprint = fingerprint;
    }
    execute digest_of p (some claim) (delete_external_in p id version m.deleted_at) m.now
        m.completed_at db

  -- `findOwnedTransaction`
  unfoldable pub find_owned_transaction : Principal → Text → Db → Outcome Failure Row
  find_owned_transaction p external_id db = do
    assert_scope p (codes "transactions:read-own")
    throw_if (not (db.integrations p.workspace_id p.integration_id))
        (not_found transaction_not_found)
    id ← normalize_external_id external_id
    row ← require_owned p id db
    assert_references p (refers row) db true
    ok row
