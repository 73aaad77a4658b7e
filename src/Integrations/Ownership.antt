-- ===== src/Integrations/Ownership.antt =====
-- backend/src/modules/integrations/external-transaction-ownership.service.ts. A transaction takes the
-- rows and gives its reply with the new rows; an exception undoes it. The locks make transactions
-- on one key run one after the other, which is how they run here. `quote` is the call of the
-- currency service and `Math.round` of its rate times the amount, nothing where that is no safe
-- integer; `fingerprint_of` is the SHA-256 of the printed intent, `digest_of` that of a key;
-- `canonical_tags` is the SQL of `normalizeTagsCaseInsensitive`. JSON is kept as the value it prints.
pub mod Once
pub mod Replays
use monqom.Common.{
  ℕ, ◌+◌, ◌*◌, Bool, true, false, not, ◌&&◌, ◌||◌, Option, none, some, List, [], ◌∷◌, map, ltb, leb,
  ◌==◌, if◌then◌else◌, any, find,
}
use monqom.Common.Results.{Outcome, ok, err, ◌>>=◌, ◌>>◌, throw_if, or_throw}
use monqom.Common.Text.{Text, codes, text_eq, includes}
use monqom.Calendar.{Date}
use monqom.Integrations.Contract.{
  Failure, bad_request, conflict, forbidden, not_found, precondition_failed, unique_constraint,
  bad_references, out_of_range, different_request, in_progress, no_response, version_mismatch,
  transaction_not_found, workspace_not_found, scope_required, is_blank, normalize_external_id, etag,
  normalize_idempotency_key, assert_version, max_int, TransactionType, expense, income, Command,
  normalize_command,
}
use monqom.Integrations.Ledger.{
  Row, Operation, creating, updating, deleting, Body, transaction_body, exists_body, no_body,
  IdempotencyRecord, transaction_created, transaction_updated, transaction_deleted, Db, is_null,
  is_own, is_keyed, find_keyed, set_record, log,
}

abbrev pub idempotency_retention_ms : ℕ
idempotency_retention_ms = 604800000

abbrev pub idempotency_lease_ms : ℕ
idempotency_lease_ms = 300000

-- `MachinePrincipal` of backend/src/modules/integrations/integration-credential.service.ts
pub record Principal : Type 0 where
  pub workspace_id : ℕ
  pub integration_id : ℕ
  pub scopes : List Text
  pub category_allowlist_enabled : Bool
  pub allowed_category_ids : List Text
  pub payment_source_allowlist_enabled : Bool
  pub allowed_payment_source_ids : List Text

-- `ExternalTransactionCreateResult`
pub record Reply : Type 0 where
  pub body : Body
  pub replayed : Bool
  pub response_status : ℕ
  pub etag : Option Text

pub record Claim : Type 0 where
  pub key : Text
  pub operation : Operation
  pub target_external_id : Option Text
  pub fingerprint : Text

pub record References : Type 0 where
  pub category_id : Option Text
  pub payment_source_id : Text
  pub type : Option TransactionType

-- What the fingerprint of a request is taken of.
pub data Intent : Type 0 where
  create_intent : Command → Intent
  update_intent : Command → ℕ → Intent
  delete_intent : Text → ℕ → Intent

abbrev pub same_operation : Operation → Operation → Bool
same_operation creating creating = true
same_operation updating updating = true
same_operation deleting deleting = true
same_operation _ _ = false

abbrev pub same_type : TransactionType → TransactionType → Bool
same_type expense expense = true
same_type income income = true
same_type _ _ = false

abbrev pub same_option : Option Text → Option Text → Bool
same_option none none = true
same_option (some s) (some t) = text_eq s t
same_option _ _ = false

abbrev pub is_after : ℕ → Option ℕ → Bool
is_after now none = false
is_after now (some t) = ltb now t

-- What the record of a key means for a claim.
pub data Admission : Type 0 where
  proceeds : Admission
  replays : IdempotencyRecord → Admission
  refuses : Failure → Admission

abbrev pub is_same_request : Principal → Claim → IdempotencyRecord → Bool
is_same_request p c r =
    r.workspace_id == p.workspace_id
    && (same_operation r.operation c.operation
        && (same_option r.target_external_id c.target_external_id
            && text_eq r.request_fingerprint c.fingerprint))

-- The tests of `execute` on the record that it finds.
unfoldable pub admit : Principal → Claim → Option IdempotencyRecord → ℕ → Admission
admit p c none now = proceeds
admit p c (some r) now =
    if not r.completed || ltb now r.expires_at
    then (if not (is_same_request p c r)
        then refuses (conflict different_request)
        else if r.completed
        then replays r
        else if is_null r.lease_expires_at || is_after now r.lease_expires_at
        then refuses (conflict in_progress)
        else proceeds)
    else proceeds

abbrev pub refers : Row → References
refers r = record {
  category_id = r.category_id;
  payment_source_id = r.payment_source_id;
  type = some r.type;
}

-- A category that is named by a text that is not empty.
abbrev pub named : Option Text → Option Text
named none = none
named (some id) = if is_blank id then none else some id

abbrev pub is_outside : Bool → List Text → Option Text → Bool
is_outside enabled allowed none = enabled
is_outside enabled allowed (some id) = enabled && not (includes allowed id)

abbrev pub other_type : Option TransactionType → TransactionType → Bool
other_type none type = false
other_type (some wanted) type = not (same_type type wanted)

abbrev pub bad_category : Db → ℕ → References → Option Text → Bool
bad_category db w refs none = false
bad_category db w refs (some id) = elim (db.categories w id) [
  | none ↦ true
  | some type ↦ other_type refs.type type
]

-- The conditions under which `assertReferences` denies.
unfoldable pub are_denied : Principal → References → Db → Bool
are_denied p refs db =
    is_outside p.category_allowlist_enabled p.allowed_category_ids (named refs.category_id)
    || (p.payment_source_allowlist_enabled
        && not (includes p.allowed_payment_source_ids refs.payment_source_id))
    || bad_category db p.workspace_id refs (named refs.category_id)
    || not (db.payment_sources p.workspace_id refs.payment_source_id)

unfoldable pub assert_references : Principal → References → Db → Bool → Outcome Failure (Unit {0})
assert_references p refs db stored =
    throw_if (are_denied p refs db)
      (if stored then not_found transaction_not_found else bad_request bad_references)

abbrev pub assert_identity : Principal → Db → Outcome Failure (Unit {0})
assert_identity p db =
    throw_if (not (db.integrations p.workspace_id p.integration_id))
      (not_found transaction_not_found)

abbrev pub assert_scope : Principal → Text → Outcome Failure (Unit {0})
assert_scope p scope = throw_if (not (includes p.scopes scope)) (forbidden scope_required)

unfoldable pub require_owned : Principal → Text → Db → Outcome Failure Row
require_owned p external_id db =
    or_throw (find_keyed db p.workspace_id p.integration_id external_id false)
      (not_found transaction_not_found)

abbrev pub replayed_with : Body → ℕ → Option Text → Reply
replayed_with body status tag = record {
  body = body;
  replayed = true;
  response_status = status;
  etag = tag;
}

abbrev pub find_target : Principal → Option ℕ → Db → Option Row
find_target p none db = none
find_target p (some id) db =
    find (λ r. r.id == id && is_own p.workspace_id p.integration_id r) db.transactions

abbrev pub is_creating : Operation → Bool
is_creating creating = true
is_creating _ = false

abbrev pub text_of : Option Text → Text
text_of none = []
text_of (some s) = s

-- What `replay` answers, once its checks have passed.
unfoldable pub stored_reply : IdempotencyRecord → Outcome Failure Reply
stored_reply r =
    if r.response_status == 204
    then ok (replayed_with no_body 204 none)
    else if is_creating r.operation && r.response_status == 200
    then ok (replayed_with (exists_body (text_of r.target_external_id)) 200 none)
    else elim r.response_body [
      | transaction_body row ↦
          ok (replayed_with (transaction_body row) r.response_status r.response_etag)
      | exists_body _ ↦ err (conflict no_response)
      | no_body ↦ err (conflict no_response)
    ]

unfoldable pub replay : Principal → IdempotencyRecord → Db → Outcome Failure Reply
replay p r db = do
  target ← or_throw (find_target p r.target_transaction_id db) (not_found transaction_not_found)
  assert_references p (refers target) db true
  source ← or_throw r.retained_payment_source_id (not_found transaction_not_found)
  assert_references p
      (record { category_id = r.retained_category_id; payment_source_id = source; type = none }) db
      true
  stored_reply r

-- `cleanupExpiredIdempotency`
abbrev pub is_stale : ℕ → IdempotencyRecord → Bool
is_stale now r =
    r.completed
    && (elim r.completed_at [ none ↦ false | some at ↦ leb (at + idempotency_retention_ms) now ])
    && leb r.expires_at now

unfoldable pub cleanup_expired_idempotency : ℕ → Db → Db
cleanup_expired_idempotency now db = record db {
  records = λ i d. elim (db.records i d) [
    | none ↦ none
    | some r ↦ if is_stale now r then none else some r
  ];
}

abbrev pub transaction_result : Row → ℕ → Reply
transaction_result row status = record {
  body = transaction_body row;
  replayed = false;
  response_status = status;
  etag = some (etag row.version);
}

-- The changes of a transaction: its reply, the transaction that it is about, and the rows.
abbrev pub Mutation : Type 0
Mutation = Db → Outcome Failure (Reply × Row × Db)

module _ (digest_of : Text → Text) where
  abbrev pub opened : Principal → Claim → ℕ → IdempotencyRecord
  opened p c now = record {
    workspace_id = p.workspace_id;
    operation = c.operation;
    target_external_id = c.target_external_id;
    request_fingerprint = c.fingerprint;
    completed = false;
    response_status = 0;
    response_body = no_body;
    response_etag = none;
    target_transaction_id = none;
    retained_category_id = none;
    retained_payment_source_id = none;
    lease_expires_at = some (now + idempotency_lease_ms);
    completed_at = none;
    expires_at = now + idempotency_lease_ms;
  }

  abbrev pub closed : IdempotencyRecord → Reply → Row → ℕ → IdempotencyRecord
  closed r reply target completed_at = record r {
    completed = true;
    response_status = reply.response_status;
    response_body = reply.body;
    response_etag = reply.etag;
    target_transaction_id = some target.id;
    retained_category_id = target.category_id;
    retained_payment_source_id = some target.payment_source_id;
    lease_expires_at = none;
    completed_at = some completed_at;
    expires_at = completed_at + idempotency_retention_ms;
  }

  -- The rest of `execute` for a claim that proceeds.
  unfoldable pub run_claimed :
      Principal → Claim → Mutation → ℕ → ℕ → Db → Outcome Failure (Reply × Db)
  run_claimed p c mutate now completed_at db = do
    (reply, target, db') ←
        mutate (set_record p.integration_id (digest_of c.key) (opened p c now) db)
    ok (
      reply,
      set_record p.integration_id (digest_of c.key)
          (closed (opened p c now) reply target completed_at) db',
    )

  -- `execute`; `now` and `completed_at` are its two readings of the clock.
  unfoldable pub execute :
      Principal → Option Claim → Mutation → ℕ → ℕ → Db → Outcome Failure (Reply × Db)
  execute p none mutate now completed_at db = do
    assert_identity p db
    (reply, _, db') ← mutate db
    ok (reply, db')
  execute p (some c) mutate now completed_at db = do
    assert_identity p db
    elim (admit p c (db.records p.integration_id (digest_of c.key)) now) [
      | proceeds ↦ run_claimed p c mutate now completed_at db
      | replays r ↦ replay p r db >>= λ reply. ok (reply, db)
      | refuses failure ↦ err failure
    ]
