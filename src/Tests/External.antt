-- ===== src/Tests/External.antt =====
-- Runs of the requests for external transactions, and instances of their theorems.
use monqom.Common.{
  ℕ, ◌+◌, ◌<◌, ◌≡◌, refl, ◌↔◌, true, false, none, some, List, [], ◌∷◌, ◌++◌, arith, ◌==◌, ◌&&◌,
}
use monqom.Common.Results.{Outcome, ok, err}
use monqom.Common.Digits.{show}
use monqom.Common.Text.{Text, codes, trim, text_lt}
use monqom.Calendar.{date}
use monqom.Integrations.Contract.{
  Failure, not_found, transaction_not_found, Command, expense, max_int, read_version, byte_length,
  normalize_external_id, etag_prefix, parse_etag, etag, normalize_idempotency_key,
  normalize_currency, normalize_tags, normalize_command,
}
use monqom.Integrations.Contract.Laws.{parse_etag_iff}
use monqom.Integrations.Ledger.{Row, creating, no_body, transaction_body, Db, IdempotencyRecord}
use monqom.Integrations.Ledger.Laws.{IsConsistent}
use monqom.Integrations.Ownership.{
  Principal, Reply, Claim, admit, are_denied, assert_references, require_owned, stored_reply,
  replay, run_claimed, execute, same_operation, opened, closed, find_target,
}
use monqom.Integrations.Ownership.Once.{record_of, execute_once}
use monqom.Integrations.Transactions.Replays.{claim_of, answer_replays}
use monqom.Integrations.Transactions.{
  Surroundings, Moment, resolve_financials, insert_new, create_external_in, update_external_in,
  delete_external_in, create_idempotently, update_idempotently, delete_idempotently,
}
use monqom.Integrations.Transactions.Versions.{update_external_in_once, delete_external_in_gone}
use monqom.Integrations.Transactions.Laws.{Keeps, update_external_in-Safe}
use monqom.Integrations.Transactions.Runs.{
  ExternalRequest, create_external, update_external, delete_external, answer, serve, answer-Keeps,
  serve-IsConsistent,
}

run : Unit {0}
unfolding trim text_lt show read_version byte_length normalize_external_id parse_etag etag
    normalize_idempotency_key normalize_currency normalize_tags normalize_command admit are_denied
    assert_references require_owned stored_reply replay run_claimed execute resolve_financials
    insert_new create_external_in update_external_in delete_external_in create_idempotently
    update_idempotently delete_idempotently answer
run = tt

parse_etag_iff_example :
    (parse_etag (some (etag_prefix ++ (codes "12" ++ (b'"' ∷ [])))) ≡ ok 12)
    ↔ ((0 < 12) × (12 < max_int) × (etag_prefix ++ (codes "12" ++ (b'"' ∷ [])) ≡ etag 12))
parse_etag_iff_example = parse_etag_iff (etag_prefix ++ (codes "12" ++ (b'"' ∷ []))) 12

abbrev plain : Surroundings
plain = record {
  lower = λ t. t;
  upper = λ t. t;
  digest_of = λ t. t;
  fingerprint_of = λ i. [];
  quote = λ from to day amount. ok (some amount);
  canonical_tags = λ tags. tags;
}

abbrev shop : Principal
shop = record {
  workspace_id = 1;
  integration_id = 7;
  scopes =
      codes "transactions:create"
      ∷ codes "transactions:update-own"
      ∷ codes "transactions:delete-own"
      ∷ [];
  category_allowlist_enabled = false;
  allowed_category_ids = [];
  payment_source_allowlist_enabled = true;
  allowed_payment_source_ids = codes "card" ∷ [];
}

abbrev coffee : Command
coffee = record {
  external_id = some (codes "a-2");
  type = expense;
  amount = 450;
  currency = codes "EUR";
  date = date 2026 2 1;
  description = codes " Coffee ";
  notes = none;
  tags = codes "work" ∷ codes " work" ∷ [];
  category_id = none;
  payment_source_id = codes "card";
}

abbrev lunch : Row
lunch = record {
  id = 5;
  workspace_id = 1;
  integration_id = some 7;
  external_id = some (codes "a-1");
  category_id = none;
  payment_source_id = codes "card";
  type = expense;
  version = 3;
  amount = 1200;
  currency = codes "EUR";
  base_amount = 1200;
  date = date 2026 2 1;
  description = codes "Lunch";
  notes = none;
  tags = [];
  deleted_at = none;
}

abbrev rows : Db
rows = record {
  integrations = λ w i. (w == 1) && (i == 7);
  base_currency = λ w. some (codes "EUR");
  categories = λ w id. none;
  payment_sources = λ w id. true;
  transactions = lunch ∷ [];
  next_id = 6;
  records = λ i digest. none;
  audit_log = [];
}

rows-IsConsistent : IsConsistent rows
rows-IsConsistent = record {
  below = omega arith;
  ids = λ id. ground arith;
  keys = λ w i external_id. ground arith;
}

abbrev key : Text
key = codes "0123456789abcdef"

abbrev at : ℕ → Moment
at t = record { now = t; deleted_at = t; completed_at = t + 1 }

abbrev purchases : List (Principal × ExternalRequest × Moment)
purchases =
    (shop, create_external (some key) coffee, at 1000)
    ∷ (shop, update_external key 3 (record coffee { external_id = some (codes "a-1") }), at 2000)
    ∷ (shop, delete_external key (codes "a-2") 1, at 3000)
    ∷ []

serve-IsConsistent_example : IsConsistent (serve plain purchases rows)
serve-IsConsistent_example = serve-IsConsistent plain purchases rows rows-IsConsistent

-- What a run gives, where it does not fail.
abbrev reply_of : Outcome Failure (Reply × Db) → Reply
reply_of (ok (r, _)) = r
reply_of (err _) = record { body = no_body; replayed = false; response_status = 0; etag = none }

abbrev db_of : Outcome Failure (Reply × Db) → Db
db_of (ok (_, db)) = db
db_of (err _) = rows

abbrev bought : Outcome Failure (Reply × Db)
bought = answer plain shop (create_external (some key) coffee) (at 1000) rows

bought-ok : bought ≡ ok (reply_of bought, db_of bought)
unfolding run
bought-ok = refl

answer-Keeps_example : Keeps shop rows (db_of bought)
answer-Keeps_example =
    answer-Keeps plain shop (create_external (some key) coffee) (at 1000) rows (db_of bought)
      (reply_of bought) bought-ok

abbrev claim : Claim
claim = record {
  key = key;
  operation = creating;
  target_external_id = some (codes "a-2");
  fingerprint = codes "f";
}

abbrev first : Outcome Failure (Reply × Db)
first =
    execute (λ t. t) shop (some claim) (create_external_in plain shop coffee false) 1000 1001 rows

first-ok : first ≡ ok (reply_of first, db_of first)
unfolding run
first-ok = refl

-- The same key with another mutation, a day later.
abbrev second : Outcome Failure (Reply × Db)
second =
    execute (λ t. t) shop (some claim) (delete_external_in plain shop (codes "a-1") 3 5) 86401000
      86401001 (db_of first)

second-ok : second ≡ ok (reply_of second, db_of second)
unfolding run
second-ok = refl

fresh : (reply_of first).replayed ≡ false
unfolding run
fresh = refl

execute_once_example :
    (db_of second ≡ db_of first)
    × ((reply_of second).replayed ≡ true)
    × (same_operation creating creating ≡ true)
    × (some (codes "a-2") ≡ some (codes "a-2"))
    × (codes "f" ≡ codes "f")
execute_once_example =
    execute_once (λ t. t) shop claim claim (create_external_in plain shop coffee false)
      (delete_external_in plain shop (codes "a-1") 3 5) 1000 1001 86401000 86401001 rows
      (db_of first) (db_of first) (db_of second) (reply_of first) (reply_of second) first-ok fresh
      refl refl (omega arith) second-ok

abbrev bought_row : Row
bought_row = record lunch {
  id = 6;
  external_id = some (codes "a-2");
  version = 1;
  amount = 450;
  base_amount = 450;
  description = codes "Coffee";
  tags = codes "work" ∷ [];
}

-- The claim of the purchase, its record and its reply.
abbrev bought_claim : Claim
bought_claim = record claim { fingerprint = [] }

bought-claimed : claim_of plain (create_external (some key) coffee) ≡ ok (some bought_claim)
unfolding run
bought-claimed = refl

abbrev bought_record : IdempotencyRecord
bought_record =
    closed (λ t. t) (opened (λ t. t) shop bought_claim 1000)
      (record {
        body = transaction_body bought_row;
        replayed = false;
        response_status = 201;
        etag = some (etag 1);
      })
      bought_row 1001

bought_kept :
    ((reply_of bought).replayed ≡ false)
    × (record_of (λ t. t) shop bought_claim (db_of bought) ≡ some bought_record)
unfolding run
bought_kept = (refl, refl)

within_reach :
    (are_denied shop
        (record { category_id = none; payment_source_id = codes "card"; type = some expense })
        (db_of bought)
      ≡ false)
    × (are_denied shop
          (record { category_id = none; payment_source_id = codes "card"; type = none })
          (db_of bought)
        ≡ false)
    × ((db_of bought).integrations 1 7 ≡ true)
    × (find_target shop (some 6) (db_of bought) ≡ some bought_row)
unfolding run
within_reach = (refl, refl, refl, refl)

answer_replays_example :
    answer plain shop (create_external (some key) coffee) (at 86401000) (db_of bought)
    ≡ ok (record (reply_of bought) { replayed = true }, db_of bought)
answer_replays_example =
    let (new, stored) = bought_kept in
    let (target_allowed, still, identity, found) = within_reach in
    answer_replays plain shop (create_external (some key) coffee) (at 1000) (at 86401000) rows
      (db_of bought) (db_of bought) (reply_of bought) bought_claim bought_record bought_row
      bought-claimed bought-ok new stored stored (omega arith) identity found target_allowed still

-- Lunch is updated at version 3, or deleted at it.
abbrev Change : Type 0
Change = Outcome Failure (Reply × Row × Db)

abbrev parts_of : Change → Reply × Row × Db
parts_of (ok parts) = parts
parts_of (err _) =
    (record { body = no_body; replayed = false; response_status = 0; etag = none }, lunch, rows)

abbrev raised : Change
raised = update_external_in plain shop (codes "a-1") 3 coffee rows

abbrev dropped : Change
dropped = delete_external_in plain shop (codes "a-1") 3 5 rows

raised-ok : raised ≡ ok ((parts_of raised).0, (parts_of raised).1, (parts_of raised).2)
unfolding run
raised-ok = refl

dropped-ok : dropped ≡ ok ((parts_of dropped).0, (parts_of dropped).1, (parts_of dropped).2)
unfolding run
dropped-ok = refl

raised-IsConsistent : IsConsistent (parts_of raised).2
raised-IsConsistent =
    (update_external_in-Safe plain shop (codes "a-1") 3 coffee rows (parts_of raised).2
        (parts_of raised).0 (parts_of raised).1 raised-ok).0
      rows-IsConsistent

update_external_in_once_example :
    ((c' : Command) (reply' : Reply) (row' : Row) (db2 : Db)
      → ¬ (
          update_external_in plain shop (codes "a-1") 3 c' (parts_of raised).2
          ≡ ok (reply', row', db2)))
    × ((t : ℕ) (reply' : Reply) (row' : Row) (db2 : Db)
        → ¬ (
            delete_external_in plain shop (codes "a-1") 3 t (parts_of raised).2
            ≡ ok (reply', row', db2)))
update_external_in_once_example =
    update_external_in_once plain shop (codes "a-1") 3 coffee rows (parts_of raised).2
      (parts_of raised).0 (parts_of raised).1 raised-ok raised-IsConsistent

delete_external_in_gone_example :
    ((v : ℕ) (c : Command)
      → update_external_in plain shop (codes "a-1") v c (parts_of dropped).2
        ≡ err (not_found transaction_not_found))
    × ((v t : ℕ)
        → delete_external_in plain shop (codes "a-1") v t (parts_of dropped).2
          ≡ err (not_found transaction_not_found))
delete_external_in_gone_example =
    delete_external_in_gone plain shop (codes "a-1") 3 5 rows (parts_of dropped).2
      (parts_of dropped).0 (parts_of dropped).1 dropped-ok rows-IsConsistent
