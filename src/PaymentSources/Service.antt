-- ===== src/PaymentSources/Service.antt =====
-- `PaymentSourcesService` of
-- backend/src/modules/payment-sources/payment-sources.service.ts. Operations run one after another;
-- one takes the rows and gives its answer with the new rows, an exception undoes it. `new_id` is the
-- identifier drawn for a new row, which the primary key refuses when it is taken; `at` is the time.
use monqom.Common.{
  ℕ, Bool, true, false, not, ◌||◌, Option, none, some, List, [], ◌∷◌, ◌++◌, map, ltb, if◌then◌else◌,
  length, any,
}
use monqom.Common.Results.{Outcome, ok, err, ◌>>=◌, ◌>>◌, throw_if, or_throw}
use monqom.Common.Text.{Text, codes, includes, trim}
use monqom.Integrations.Contract.{is_blank}
use monqom.PaymentSources.Rows.{
  PaymentSource, PaymentSourceDb, is_unarchived, has_id, is_cash, list_payment_sources_by_workspace,
  find_active_payment_source_by_name, find_system_cash_payment_source,
  reset_last_payment_source_preferences, find_payment_source_by_id, insert_payment_source,
  edit_payment_source, archived, mark_archived,
}

pub data PaymentSourceError : Type 0 where
  bad_request : List Text → PaymentSourceError
  not_found : Text → PaymentSourceError
  conflict : Text → PaymentSourceError
  unique_constraint : PaymentSourceError

abbrev pub payment_source_not_found : PaymentSourceError
payment_source_not_found = not_found (codes "Payment source not found")

abbrev pub payment_source_name_conflict : PaymentSourceError
payment_source_name_conflict =
    conflict (codes "An active payment source with this name already exists")

abbrev pub system_cash_protected : PaymentSourceError
system_cash_protected =
    conflict (codes "The system cash payment source cannot be changed or archived")

abbrev pub payment_source_types : List Text
payment_source_types =
    codes "cash" ∷ codes "debit_card" ∷ codes "credit_card" ∷ codes "bank" ∷ codes "other" ∷ []

pub record PaymentSourceCommand : Type 0 where
  pub name : Text
  pub type : Text

pub record PaymentSourceResponse : Type 0 where
  pub id : Text
  pub workspace_id : Text
  pub name : Text
  pub type : Text
  pub system_key : Option Text
  pub is_archived : Bool
  pub archived_at : Option ℕ

abbrev pub map_payment_source_response : PaymentSource → PaymentSourceResponse
map_payment_source_response s = record {
  id = s.id;
  workspace_id = s.workspace_id;
  name = s.name;
  type = s.type;
  system_key = s.system_key;
  is_archived = not (is_unarchived s);
  archived_at = s.deleted_at;
}

-- `normalizeRequiredValue` of backend/src/shared/utils/validation.ts
unfoldable pub normalize_required_value : Text → Text → Outcome PaymentSourceError Text
normalize_required_value value field_name =
    if is_blank (trim value)
    then err (bad_request ((field_name ++ codes " is required") ∷ []))
    else ok (trim value)

-- A validated value, or nothing with the error that is pushed.
abbrev pub validate_name_value : Text → Option Text × List Text
validate_name_value value =
    if is_blank (trim value)
    then (none, codes "Name is required" ∷ [])
    else if ltb 100 (length (trim value))
    then (none, codes "Name must be 100 characters or fewer" ∷ [])
    else (some (trim value), [])

abbrev pub validate_type_value : Text → Option Text × List Text
validate_type_value value =
    if is_blank (trim value) || not (includes payment_source_types (trim value))
    then (none, codes "Payment source type is invalid" ∷ [])
    else (some (trim value), [])

abbrev joined :
    Option Text × List Text → Option Text × List Text → Outcome PaymentSourceError (Text × Text)
joined (some name, []) (some type, []) = ok (name, type)
joined (_, errors) (_, more) = err (bad_request (errors ++ more))

-- `validatePaymentSourceInput`, with the exception of its callers
unfoldable pub validate_payment_source_input :
    PaymentSourceCommand → Outcome PaymentSourceError (Text × Text)
validate_payment_source_input input =
    joined (validate_name_value input.name) (validate_type_value input.type)

abbrev or_false : Option Bool → Bool
or_false none = false
or_false (some b) = b

abbrev pub is_found : Option PaymentSource → Bool
is_found none = false
is_found (some _) = true

-- `listPaymentSources`
unfoldable pub list_payment_sources :
    (List PaymentSource → List PaymentSource)
    → Option Bool
    → Text
    → PaymentSourceDb
    → Outcome PaymentSourceError (List PaymentSourceResponse)
list_payment_sources order_by include_archived workspace_id db = do
  w ← normalize_required_value workspace_id (codes "Workspace id")
  ok (
      map map_payment_source_response
        (list_payment_sources_by_workspace order_by w (or_false include_archived) db))

-- `createPaymentSource`
unfoldable pub create_payment_source :
    (Text → Text)
    → PaymentSourceCommand
    → Text
    → Text
    → Text
    → PaymentSourceDb
    → Outcome PaymentSourceError (PaymentSourceResponse × PaymentSourceDb)
create_payment_source fold input workspace_id user_id new_id db = do
  w ← normalize_required_value workspace_id (codes "Workspace id")
  user ← normalize_required_value user_id (codes "User id")
  (name, type) ← validate_payment_source_input input
  throw_if (is_found (find_active_payment_source_by_name fold w name none db))
      payment_source_name_conflict
  throw_if (any (has_id new_id) db.payment_sources) unique_constraint
  let (s, db') = insert_payment_source new_id w user name type db
  ok (map_payment_source_response s, db')

-- The transaction of `updatePaymentSource`
unfoldable pub update_payment_source_in :
    (Text → Text)
    → Text
    → Text
    → Text
    → Text
    → Text
    → PaymentSourceDb
    → Outcome PaymentSourceError (PaymentSourceResponse × PaymentSourceDb)
update_payment_source_in fold id w user name type db = do
  existing ← or_throw (find_payment_source_by_id w id false db) payment_source_not_found
  throw_if (is_cash existing) system_cash_protected
  throw_if (is_found (find_active_payment_source_by_name fold w name (some id) db))
      payment_source_name_conflict
  (s, db') ← or_throw (edit_payment_source w id user name type existing db) payment_source_not_found
  ok (map_payment_source_response s, db')

-- `updatePaymentSource`
unfoldable pub update_payment_source :
    (Text → Text)
    → PaymentSourceCommand
    → Text
    → Text
    → Text
    → PaymentSourceDb
    → Outcome PaymentSourceError (PaymentSourceResponse × PaymentSourceDb)
update_payment_source fold input payment_source_id workspace_id user_id db = do
  id ← normalize_required_value payment_source_id (codes "Payment source id")
  w ← normalize_required_value workspace_id (codes "Workspace id")
  user ← normalize_required_value user_id (codes "User id")
  (name, type) ← validate_payment_source_input input
  update_payment_source_in fold id w user name type db

-- The transaction of `archivePaymentSource`
unfoldable pub archive_payment_source_in :
    Text
    → Text
    → Text
    → ℕ
    → PaymentSourceDb
    → Outcome PaymentSourceError (PaymentSourceResponse × PaymentSourceDb)
archive_payment_source_in id w user at db = do
  existing ← or_throw (find_payment_source_by_id w id false db) payment_source_not_found
  throw_if (is_cash existing) system_cash_protected
  cash ← or_throw (find_system_cash_payment_source w db) payment_source_not_found
  db' ← or_throw (mark_archived w id user at existing db) payment_source_not_found
  ok (
    map_payment_source_response (archived at existing),
    reset_last_payment_source_preferences w id cash.id db',
  )

-- `archivePaymentSource`
unfoldable pub archive_payment_source :
    Text
    → Text
    → Text
    → ℕ
    → PaymentSourceDb
    → Outcome PaymentSourceError (PaymentSourceResponse × PaymentSourceDb)
archive_payment_source payment_source_id workspace_id user_id at db = do
  id ← normalize_required_value payment_source_id (codes "Payment source id")
  w ← normalize_required_value workspace_id (codes "Workspace id")
  user ← normalize_required_value user_id (codes "User id")
  archive_payment_source_in id w user at db
