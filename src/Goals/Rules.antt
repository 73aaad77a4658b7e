-- ===== src/Goals/Rules.antt =====
-- The rules of backend/src/modules/goals/goals.service.ts outside its transactions: its exceptions, the
-- bodies of backend/src/modules/goals/goals.dto.ts, the functions that read them, and balances.
-- A body has passed its DTO, so that its amounts have at most two decimals and are given here in
-- cents, as `toCents` rounds them.
use monqom.Common.{
  ℕ, ◌+◌, ◌≡◌, refl, Bool, true, false, ◌||◌, ◌&&◌, Option, none, some, List, [], ◌∷◌, foldl, ltb,
  if◌then◌else◌,
}
use monqom.Common.Int.{ℤ, pos, ◌+ℤ◌, ◌-ℤ◌, ltb_ℤ}
use monqom.Common.Text.{Text, codes, text_eq, trim}
use monqom.Calendar.{Date, stamp, add_utc_months_clamped}
use monqom.Calendar.Parse.{match_date_only, parse_date_only}
use monqom.Goals.Store.{OperationType, deposit, withdrawal, GoalOperation, Goal}

-- The texts of the exceptions.
pub data Message : Type 0 where
  workspace_not_found goal_not_found operation_not_found : Message
  goal_archived negative_balance : Message
  field_required name_required date_format date_invalid date_range date_in_future : Message

-- What `isSerializationConflict` reads of the `meta` of an error: its `code`, and the
-- `originalCode` of the cause of its `driverAdapterError`.
pub record ErrorMeta : Type 0 where
  pub code : Option Text
  pub original_code : Option Text

-- The exceptions of the service, and the errors with a `code` that the database client throws.
pub data Exception : Type 0 where
  bad_request conflict not_found : Message → Exception
  database_error : Text → Option ErrorMeta → Exception
  retry_limit_exhausted : Exception

-- Prisma's error of a transaction that failed due to a write conflict or a deadlock.
abbrev pub serialization_conflict : Exception
serialization_conflict = database_error (codes "P2034") none

pub data Result {ℓ} (A : Type ℓ) : Type ℓ where
  ok : A → Result A
  err : Exception → Result A

infixl 5 ◌>>=◌ ◌>>◌
abbrev pub ◌>>=◌ {ℓ κ} : {A : Type ℓ} {B : Type κ} → Result A → (A → Result B) → Result B
ok a >>= k = k a
err e >>= k = err e

abbrev pub ◌>>◌ {ℓ} : {B : Type ℓ} → Result (Unit {0}) → Result B → Result B
m >> k = m >>= λ _. k

-- What a chain that ends well went through.
pub >>=-eq-ok {ℓ κ} :
    {A : Type ℓ} {B : Type κ} (m : Result A) (k : A → Result B) {b : B}
    → (m >>= k) ≡ ok b
    → (a : A) × (m ≡ ok a) × (k a ≡ ok b)
>>=-eq-ok (ok a) k e = (a, refl, e)
>>=-eq-ok (err x) k e = cc

abbrev pub throw_if : Bool → Exception → Result (Unit {0})
throw_if true e = err e
throw_if false e = ok tt

abbrev pub or_throw : {A : Type 0} → Option A → Exception → Result A
or_throw none e = err e
or_throw (some a) e = ok a

pub record CreateGoal : Type 0 where
  pub name : Text
  pub target_amount : ℕ
  pub initial_amount : Option ℕ
  pub target_date : Text
  pub include_current_month : Bool

pub record UpdateGoal : Type 0 where
  pub name : Option Text
  pub target_amount : Option ℕ
  pub initial_amount : Option ℕ
  pub target_date : Option Text

pub record OperationBody : Type 0 where
  pub type : OperationType
  pub amount : ℕ
  pub on : Text
  pub note : Option Text

-- `Object.keys(body).length === 0`
abbrev pub is_empty : UpdateGoal → Bool
is_empty body = elim body.name [
  | some _ ↦ false
  | none ↦ elim body.target_amount [
    | some _ ↦ false
    | none ↦ elim body.initial_amount [
      | some _ ↦ false
      | none ↦ elim body.target_date [ some _ ↦ false | none ↦ true ]
    ]
  ]
]

abbrev pub or_default : {A : Type 0} → Option A → A → A
or_default none d = d
or_default (some a) d = a

-- `parseDate`
unfoldable pub parse_date : Text → Result Date
parse_date value = do
  _ ← or_throw (match_date_only value) (bad_request date_format)
  or_throw (parse_date_only value) (bad_request date_invalid)

-- `parseTargetDate`
unfoldable pub parse_target_date : Text → Date → Result Date
parse_target_date value today = do
  date ← parse_date value
  let first = stamp (add_utc_months_clamped today 1)
  let last = stamp (add_utc_months_clamped today 120)
  throw_if (ltb (stamp date) first || ltb last (stamp date)) (bad_request date_range)
  ok date

-- `parseOperationDate`
unfoldable pub parse_operation_date : Text → Date → Result Date
parse_operation_date value today = do
  date ← parse_date value
  throw_if (ltb (stamp today) (stamp date)) (bad_request date_in_future)
  ok date

abbrev pub is_blank : Text → Bool
is_blank [] = true
is_blank (_ ∷ _) = false

-- `normalizeName`
unfoldable pub normalize_name : Text → Result Text
normalize_name value = do
  let name = trim value
  throw_if (is_blank name) (bad_request name_required)
  ok name

-- `normalizeNote`
unfoldable pub normalize_note : Option Text → Option Text
normalize_note none = none
normalize_note (some value) = if is_blank (trim value) then none else some (trim value)

abbrev pub same_type : OperationType → OperationType → Bool
same_type deposit deposit = true
same_type withdrawal withdrawal = true
same_type _ _ = false

-- `sumOperations`
unfoldable pub sum_operations : List GoalOperation → OperationType → ℕ
sum_operations operations type =
    foldl (λ sum o. sum + (if same_type o.type type then o.amount else 0)) 0 operations

-- `balanceCents`
unfoldable pub balance_cents : List GoalOperation → ℕ → ℤ
balance_cents operations initial_amount =
    pos initial_amount
    +ℤ pos (sum_operations operations deposit)
    -ℤ pos (sum_operations operations withdrawal)

abbrev pub is_negative : ℤ → Bool
is_negative a = ltb_ℤ a (pos 0)

abbrev pub is_archived : Goal → Bool
is_archived g = elim g.archived_at [ none ↦ false | some _ ↦ true ]

-- `assertMutable`
abbrev pub assert_mutable : Goal → Result (Unit {0})
assert_mutable g = throw_if (is_archived g) (conflict goal_archived)

abbrev pub is_state : Option Text → Text → Bool
is_state none state = false
is_state (some s) state = text_eq s state

abbrev pub is_row_lock_conflict : Option ErrorMeta → Bool
is_row_lock_conflict none = false
is_row_lock_conflict (some meta) =
    is_state meta.code (codes "40001") || is_state meta.original_code (codes "40001")

-- `isSerializationConflict`
abbrev pub is_conflict : Exception → Bool
is_conflict (database_error code meta) =
    text_eq code (codes "P2034") || (text_eq code (codes "P2010") && is_row_lock_conflict meta)
is_conflict _ = false

abbrev pub serializable_retry_limit : ℕ
serializable_retry_limit = 3
