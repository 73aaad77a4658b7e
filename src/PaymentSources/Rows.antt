-- ===== src/PaymentSources/Rows.antt =====
-- The rows behind backend/src/modules/payment-sources (backend/prisma/schema.prisma) with the queries
-- and writes of `PaymentSourcesRepository` in payment-sources.repository.ts. `fold` is the comparison
-- that `mode: 'insensitive'` makes, `order_by` the database's order by name and identifier. An audit
-- event keeps the rows that its metadata prints. `createdAt` and `updatedAt` are left out, and of a
-- membership all but the preference.
use monqom.Common.{
  ℕ, Bool, true, false, not, ◌&&◌, ◌||◌, Option, none, some, List, any, find, filter, push,
  if◌then◌else◌,
}
use monqom.Common.Tables.{update_rows}
use monqom.Common.Text.{Text, codes, text_eq}

pub record PaymentSource : Type 0 where
  pub id : Text
  pub workspace_id : Text
  pub name : Text
  pub type : Text
  pub system_key : Option Text
  pub deleted_at : Option ℕ

pub record WorkspaceMembership : Type 0 where
  pub workspace_id : Text
  pub user_id : Text
  pub last_payment_source_id : Text

pub data PaymentSourceEvent : Type 0 where
  payment_source_created : Text → PaymentSource → PaymentSourceEvent
  payment_source_updated : Text → PaymentSource → PaymentSource → PaymentSourceEvent
  payment_source_archived : Text → PaymentSource → ℕ → PaymentSourceEvent

pub record PaymentSourceDb : Type 0 where
  pub payment_sources : List PaymentSource
  pub memberships : List WorkspaceMembership
  pub audit_log : List PaymentSourceEvent

abbrev pub is_unarchived : PaymentSource → Bool
is_unarchived s = elim s.deleted_at [ none ↦ true | some _ ↦ false ]

abbrev pub has_id : Text → PaymentSource → Bool
has_id id s = text_eq s.id id

-- `where: { workspaceId, id, deletedAt: null }`
abbrev pub is_usable : Text → Text → PaymentSource → Bool
is_usable w id s = text_eq s.workspace_id w && has_id id s && is_unarchived s

-- `systemKey === 'cash'`
abbrev pub is_cash : PaymentSource → Bool
is_cash s = elim s.system_key [ none ↦ false | some key ↦ text_eq key (codes "cash") ]

abbrev pub list_payment_sources_by_workspace :
    (List PaymentSource → List PaymentSource) → Text → Bool → PaymentSourceDb → List PaymentSource
list_payment_sources_by_workspace order_by w include_archived db = order_by (
    filter (λ s. text_eq s.workspace_id w && (include_archived || is_unarchived s))
      db.payment_sources)

abbrev pub is_excluded : Option Text → PaymentSource → Bool
is_excluded none s = false
is_excluded (some id) s = has_id id s

-- An unarchived source of a workspace with a name
abbrev pub is_named : (Text → Text) → Text → Text → PaymentSource → Bool
is_named fold w name s =
    text_eq s.workspace_id w && is_unarchived s && text_eq (fold s.name) (fold name)

abbrev pub find_active_payment_source_by_name :
    (Text → Text) → Text → Text → Option Text → PaymentSourceDb → Option PaymentSource
find_active_payment_source_by_name fold w name exclude_id db =
    find (λ s. is_named fold w name s && not (is_excluded exclude_id s)) db.payment_sources

abbrev pub find_system_cash_payment_source : Text → PaymentSourceDb → Option PaymentSource
find_system_cash_payment_source w db =
    find (λ s. text_eq s.workspace_id w && is_cash s && is_unarchived s) db.payment_sources

abbrev pub prefers : Text → Text → WorkspaceMembership → Bool
prefers w id m = text_eq m.workspace_id w && text_eq m.last_payment_source_id id

abbrev pub with_preference : Text → WorkspaceMembership → WorkspaceMembership
with_preference id m = record m { last_payment_source_id = id }

abbrev pub reset_last_payment_source_preferences :
    Text → Text → Text → PaymentSourceDb → PaymentSourceDb
reset_last_payment_source_preferences w archived_id cash_id db = record db {
  memberships = update_rows (prefers w archived_id) (with_preference cash_id) db.memberships;
}

abbrev pub find_payment_source_by_id : Text → Text → Bool → PaymentSourceDb → Option PaymentSource
find_payment_source_by_id w id include_archived db =
    find (λ s. text_eq s.workspace_id w && has_id id s && (include_archived || is_unarchived s))
      db.payment_sources

abbrev pub new_payment_source : Text → Text → Text → Text → PaymentSource
new_payment_source new_id w name type = record {
  id = new_id;
  workspace_id = w;
  name = name;
  type = type;
  system_key = none;
  deleted_at = none;
}

-- `createPaymentSource` of the repository, for an identifier that is new
abbrev pub insert_payment_source :
    Text → Text → Text → Text → Text → PaymentSourceDb → PaymentSource × PaymentSourceDb
insert_payment_source new_id w user_id name type db =
    let s = new_payment_source new_id w name type in
    (
      s,
      record db {
        payment_sources = push db.payment_sources s;
        audit_log = push db.audit_log (payment_source_created user_id s);
      },
    )

abbrev pub edited : Text → Text → PaymentSource → PaymentSource
edited name type s = record s { name = name; type = type }

abbrev pub archived : ℕ → PaymentSource → PaymentSource
archived at s = record s { deleted_at = some at }

-- `updatePaymentSource` of the repository
unfoldable pub edit_payment_source :
    Text
    → Text
    → Text
    → Text
    → Text
    → PaymentSource
    → PaymentSourceDb
    → Option (PaymentSource × PaymentSourceDb)
edit_payment_source w id user_id name type previous db =
    let rows = update_rows (is_usable w id) (edited name type) db.payment_sources in
    if any (is_usable w id) db.payment_sources
    then elim (find (is_usable w id) rows) [
      | none ↦ none
      | some s ↦ some (
        s,
        record db {
          payment_sources = rows;
          audit_log = push db.audit_log (payment_source_updated user_id previous s);
        },
      )
    ]
    else none

-- `archivePaymentSource` of the repository
unfoldable pub mark_archived :
    Text → Text → Text → ℕ → PaymentSource → PaymentSourceDb → Option PaymentSourceDb
mark_archived w id user_id at s db =
    if any (is_usable w id) db.payment_sources
    then some (record db {
      payment_sources = update_rows (is_usable w id) (archived at) db.payment_sources;
      audit_log = push db.audit_log (payment_source_archived user_id s at);
    })
    else none
