-- ===== src/Integrations/Contract.antt =====
-- backend/src/modules/integrations/external-transaction-contract.ts, and the checks of
-- backend/src/modules/integrations/external-transaction-ownership.service.ts that come before a
-- transaction: `normalizeCreateCommand` and `assertVersion`. Amounts are natural numbers and dates
-- days, so that the tests of their JavaScript types have no counterpart. `lower` and `upper` are
-- `toLowerCase` and `toUpperCase`.
pub mod Laws
use monqom.Common.{
  ℕ, suc, ◌+◌, ◌-◌, ◌*◌, Bool, true, false, not, ◌&&◌, ◌||◌, Option, none, some, List, [], ◌∷◌,
  ◌++◌, map, foldl, ltb, leb, ◌==◌, if◌then◌else◌, length, any, push, all,
}
use monqom.Common.Digits.{show}
use monqom.Common.Results.{Outcome, ok, err, ◌>>=◌, ◌>>◌, throw_if, or_throw}
use monqom.Common.Text.{Text, codes, text_eq, text_lt, trim, includes, is_digit}
use monqom.Calendar.{Date}

-- The texts of the exceptions.
pub data Reason : Type 0 where
  bad_external_id bad_if_match bad_key bad_amount bad_fields bad_notes bad_tags : Reason
  bad_version bad_references out_of_range unsupported_currency : Reason
  different_request in_progress no_response version_mismatch : Reason
  transaction_not_found workspace_not_found scope_required if_match_required : Reason

pub data Failure : Type 0 where
  bad_request conflict forbidden not_found precondition_failed precondition_required :
      Reason → Failure
  unique_constraint : Failure

abbrev pub is_blank : Text → Bool
is_blank [] = true
is_blank (_ ∷ _) = false

abbrev is_high : ℕ → Bool
is_high c = leb 0xD800 c && leb c 0xDBFF

abbrev is_low : ℕ → Bool
is_low c = leb 0xDC00 c && leb c 0xDFFF

-- `Buffer.byteLength(s, 'utf8')`: a pair of surrogates takes four bytes.
unfoldable pub byte_length : Text → ℕ
byte_length [] = 0
byte_length (c ∷ []) = if ltb c 128 then 1 else if ltb c 2048 then 2 else 3
byte_length (c ∷ d ∷ s) =
    let rest = byte_length (d ∷ s) in
    let after = byte_length s in
    if is_high c && is_low d
    then 4 + after
    else (if ltb c 128 then 1 else if ltb c 2048 then 2 else 3) + rest

-- `normalizeExternalTransactionId`
unfoldable pub normalize_external_id : Text → Outcome Failure Text
normalize_external_id value = do
  throw_if (is_blank (trim value) || ltb 200 (byte_length (trim value)))
      (bad_request bad_external_id)
  ok (trim value)

abbrev pub max_int : ℕ
max_int = 2147483647

-- The number that a group of digits to the closing quote stands for.
unfoldable pub read_version : ℕ → Text → Option ℕ
read_version acc [] = none
read_version acc (c ∷ s) =
    let more = read_version (acc * 10 + (c - 48)) s in
    if is_digit c then more else if c == b'"' && is_blank s then some acc else none

abbrev pub strip_prefix : Text → Text → Option Text
strip_prefix [] s = some s
strip_prefix (p ∷ ps) [] = none
strip_prefix (p ∷ ps) (c ∷ s) = if p == c then strip_prefix ps s else none

-- `/^"tx-v([1-9]\d*)"$/`: a first digit that is not zero, and others.
abbrev pub first_digit : Text → Option ℕ
first_digit [] = none
first_digit (c ∷ s) = if leb b'1' c && leb c b'9' then read_version (c - 48) s else none

abbrev pub etag_prefix : Text
etag_prefix = b'"' ∷ codes "tx-v"

abbrev pub match_etag : Text → Option ℕ
match_etag value = elim (strip_prefix etag_prefix value) [ none ↦ none | some s ↦ first_digit s ]

-- `parseExternalTransactionEtag`
unfoldable pub parse_etag : Option Text → Outcome Failure ℕ
unfolding read_version
parse_etag value = do
  text ← or_throw value (precondition_required if_match_required)
  version ← or_throw (match_etag text) (bad_request bad_if_match)
  throw_if (leb max_int version) (bad_request bad_if_match)
  ok version

-- The tag that `transactionResult` gives a version.
unfoldable pub etag : ℕ → Text
etag version = etag_prefix ++ (show version ++ (b'"' ∷ []))

abbrev pub is_visible : ℕ → Bool
is_visible c = leb 0x21 c && leb c 0x7e

-- `normalizeIdempotencyKey`
unfoldable pub normalize_idempotency_key : Text → Outcome Failure Text
normalize_idempotency_key value = do
  throw_if
      (not (
        all is_visible (trim value)
        && (leb 16 (length (trim value)) && leb (length (trim value)) 128)))
      (bad_request bad_key)
  ok (trim value)

-- `assertVersion`
abbrev pub assert_version : ℕ → Outcome Failure (Unit {0})
assert_version version = throw_if (ltb version 1 || leb max_int version) (bad_request bad_version)

pub data TransactionType : Type 0 where
  expense income : TransactionType

-- `ExternalTransactionCreateCommand`, without the values that the server derives itself
pub record Command : Type 0 where
  pub external_id : Option Text
  pub type : TransactionType
  pub amount : ℕ
  pub currency : Text
  pub date : Date
  pub description : Text
  pub notes : Option Text
  pub tags : List Text
  pub category_id : Option Text
  pub payment_source_id : Text

abbrev pub supported_currencies : List Text
supported_currencies =
    map codes
      ("PLN" ∷ "EUR" ∷ "USD" ∷ "GBP" ∷ "CHF" ∷ "CZK" ∷ "SEK" ∷ "NOK" ∷ "DKK" ∷ "HUF" ∷ "RON" ∷ [])

abbrev pub trim_option : Option Text → Option Text
trim_option none = none
trim_option (some s) = some (trim s)

abbrev pub is_empty_option : Option Text → Bool
is_empty_option none = false
is_empty_option (some s) = is_blank s

-- `input.notes?.trim() || null`
abbrev pub trim_notes : Option Text → Option Text
trim_notes none = none
trim_notes (some s) = if is_blank (trim s) then none else some (trim s)

abbrev pub is_longer : ℕ → Option Text → Bool
is_longer n none = false
is_longer n (some s) = ltb n (length s)

abbrev pub normalize_optional_id : Option Text → Outcome Failure (Option Text)
normalize_optional_id none = ok none
normalize_optional_id (some id) = do id ← normalize_external_id id; ok (some id)

module _ (lower upper : Text → Text) where
  -- `normalizeCurrency` of backend/src/shared/currency/currency.service.ts
  unfoldable pub normalize_currency : Text → Outcome Failure Text
  normalize_currency value = do
    throw_if (not (includes supported_currencies (upper (trim value))))
        (bad_request unsupported_currency)
    ok (upper (trim value))

  abbrev pub has_key : Text → List (Text × Text) → Bool
  has_key k [] = false
  has_key k ((j, _) ∷ entries) = text_eq j k || has_key k entries

  -- One round of the loop over the tags: the first spelling of each is kept.
  abbrev pub add_tag : List (Text × Text) → Text → List (Text × Text)
  add_tag entries tag =
      if not (is_blank (trim tag)) && not (has_key (lower (trim tag)) entries)
      then push entries (lower (trim tag), trim tag)
      else entries

  abbrev pub insert_entry : Text × Text → List (Text × Text) → List (Text × Text)
  insert_entry e [] = e ∷ []
  insert_entry (k, v) ((j, w) ∷ entries) =
      if text_lt j k then (j, w) ∷ insert_entry (k, v) entries else (k, v) ∷ (j, w) ∷ entries

  abbrev pub sort_entries : List (Text × Text) → List (Text × Text)
  sort_entries [] = []
  sort_entries (e ∷ entries) = insert_entry e (sort_entries entries)

  unfoldable pub normalize_tags : List Text → List Text
  normalize_tags tags = map (λ e. e.1) (sort_entries (foldl add_tag [] tags))

  -- `normalizeCreateCommand`
  unfoldable pub normalize_command : Command → Outcome Failure Command
  normalize_command input = do
    external_id ← normalize_optional_id input.external_id
    throw_if (ltb input.amount 1 || ltb max_int input.amount) (bad_request bad_amount)
    let category_id = trim_option input.category_id
    let payment_source_id = trim input.payment_source_id
    let description = trim input.description
    throw_if
        (is_empty_option category_id
          || is_blank payment_source_id
          || is_blank description
          || ltb 200 (length description))
        (bad_request bad_fields)
    throw_if (is_longer 2000 input.notes) (bad_request bad_notes)
    throw_if (ltb 10 (length input.tags) || any (λ tag. ltb 100 (length tag)) input.tags)
        (bad_request bad_tags)
    currency ← normalize_currency input.currency
    ok (record input {
      external_id = external_id;
      category_id = category_id;
      payment_source_id = payment_source_id;
      description = description;
      currency = currency;
      notes = trim_notes input.notes;
      tags = normalize_tags input.tags;
    })
