-- ===== src/Integrations/Ledger.antt =====
-- The rows behind backend/src/modules/integrations/external-transaction-ownership.service.ts
-- (backend/prisma/schema.prisma), with the queries that it and
-- backend/src/modules/transactions/transactions.repository.ts make, as functions on tables.
-- Categories and payment sources are those that are not archived. Of an exchange only the converted
-- amount is kept, of an audit event not its metadata; `createdAt` and `updatedAt` are left out.
pub mod Laws
use monqom.Common.{
  ℕ, ◌+◌, Bool, true, false, ◌&&◌, Option, none, some, List, [], ◌∷◌, map, ◌==◌, if◌then◌else◌, any,
  find,
}
use monqom.Common.Text.{Text, text_eq}
use monqom.Calendar.{Date}
use monqom.Integrations.Contract.{TransactionType, expense, income}

pub record Row : Type 0 where
  pub id : ℕ
  pub workspace_id : ℕ
  pub integration_id : Option ℕ
  pub external_id : Option Text
  pub category_id : Option Text
  pub payment_source_id : Text
  pub type : TransactionType
  pub version : ℕ
  pub amount : ℕ
  pub currency : Text
  pub base_amount : ℕ
  pub date : Date
  pub description : Text
  pub notes : Option Text
  pub tags : List Text
  pub deleted_at : Option ℕ

pub data Operation : Type 0 where
  creating updating deleting : Operation

-- `responseBody`: the printed transaction, the note that it exists, or nothing.
pub data Body : Type 0 where
  transaction_body : Row → Body
  exists_body : Text → Body
  no_body : Body

pub record IdempotencyRecord : Type 0 where
  pub workspace_id : ℕ
  pub operation : Operation
  pub target_external_id : Option Text
  pub request_fingerprint : Text
  pub completed : Bool
  pub response_status : ℕ
  pub response_body : Body
  pub response_etag : Option Text
  pub target_transaction_id : Option ℕ
  pub retained_category_id : Option Text
  pub retained_payment_source_id : Option Text
  pub lease_expires_at : Option ℕ
  pub completed_at : Option ℕ
  pub expires_at : ℕ

pub data AuditAction : Type 0 where
  transaction_created transaction_updated transaction_deleted : AuditAction

pub record AuditEvent : Type 0 where
  pub action : AuditAction
  pub workspace_id : ℕ
  pub entity_id : ℕ

-- `records` is read by the integration and the digest of the key, which are unique together.
pub record Db : Type 0 where
  pub integrations : ℕ → ℕ → Bool
  pub base_currency : ℕ → Option Text
  pub categories : ℕ → Text → Option TransactionType
  pub payment_sources : ℕ → Text → Bool
  pub transactions : List Row
  pub next_id : ℕ
  pub records : ℕ → Text → Option IdempotencyRecord
  pub audit_log : List AuditEvent

abbrev pub is_null {ℓ} : {A : Type ℓ} → Option A → Bool
is_null none = true
is_null (some _) = false

abbrev pub is_number : ℕ → Option ℕ → Bool
is_number n none = false
is_number n (some m) = m == n

abbrev pub is_text : Text → Option Text → Bool
is_text t none = false
is_text t (some s) = text_eq s t

abbrev pub is_own : ℕ → ℕ → Row → Bool
is_own w i r = r.workspace_id == w && is_number i r.integration_id

-- The columns of the unique index.
abbrev pub is_keyed : ℕ → ℕ → Text → Row → Bool
is_keyed w i external_id r = is_own w i r && is_text external_id r.external_id

-- `findFirst` by the unique columns; `include_deleted` as in `findOwned`
abbrev pub find_keyed : Db → ℕ → ℕ → Text → Bool → Option Row
find_keyed db w i external_id include_deleted =
    find
      (λ r. is_keyed w i external_id r && (if include_deleted then true else is_null r.deleted_at))
      db.transactions

abbrev pub set_record : ℕ → Text → IdempotencyRecord → Db → Db
set_record i digest value db = record db {
  records = λ j d. if j == i && text_eq d digest then some value else db.records j d;
}

abbrev pub log : AuditAction → ℕ → ℕ → Db → Db
log action w id db = record db {
  audit_log = record { action = action; workspace_id = w; entity_id = id } ∷ db.audit_log;
}
