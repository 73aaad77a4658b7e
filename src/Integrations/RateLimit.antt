-- ===== src/Integrations/RateLimit.antt =====
-- backend/src/modules/integrations/integration-rate-limit.service.ts: budgets that are kept as lists
-- of times in one table row for each key. Times are whole milliseconds since the epoch. The digest
-- of a key is Node's `createHash`, a parameter; so is the normalised client address. A statement
-- that the database refuses makes the whole transaction fail, which the schedule of the
-- environment decides.
pub mod Window
pub mod Credential
pub mod Retry
pub mod Sources
pub mod Cleanup
use monqom.Common.{
  ℕ, ◌+◌, ◌-◌, ◌*◌, ◌/◌, max, min, Bool, true, false, not, ◌&&◌, ◌||◌, Option, none, some, List, [],
  ◌∷◌, ◌++◌, ltb, leb, if◌then◌else◌, length, push, filter,
}
use monqom.Common.Text.{Text, text_eq, codes}

abbrev pub request_window_ms : ℕ
request_window_ms = 60000

abbrev pub auth_failure_window_ms : ℕ
auth_failure_window_ms = 300000

abbrev pub credential_request_limit : ℕ
credential_request_limit = 120

abbrev pub credential_mutation_limit : ℕ
credential_mutation_limit = 60

abbrev pub source_failure_limit : ℕ
source_failure_limit = 20

abbrev pub source_block_ms : ℕ
source_block_ms = 900000

abbrev pub management_step_up_window_ms : ℕ
management_step_up_window_ms = 900000

abbrev pub management_user_attempt_limit : ℕ
management_user_attempt_limit = 5

abbrev pub management_source_attempt_limit : ℕ
management_source_attempt_limit = 20

-- A row of "integration_rate_limits": `LimitState` and the time when the row may be deleted.
pub record LimitState : Type 0 where
  pub request_times : List ℕ
  pub mutation_times : List ℕ
  pub blocked_until : Option ℕ
  pub expires_at : ℕ

-- `time > now - window`, without the subtraction
abbrev pub is_recent : ℕ → ℕ → ℕ → Bool
is_recent window now time = ltb now (time + window)

unfoldable pub rolling_times : List ℕ → ℕ → ℕ → List ℕ
rolling_times times now window = filter (is_recent window now) times

-- `Math.min(...times)`; it is called where there is at least one time.
unfoldable pub earliest : List ℕ → ℕ
earliest [] = 0
earliest (t ∷ []) = t
earliest (t ∷ s ∷ ts) = min t (earliest (s ∷ ts))

unfoldable pub expires_first : List ℕ → ℕ → ℕ
expires_first times window = earliest times + window

unfoldable pub remaining_seconds : ℕ → ℕ → ℕ
remaining_seconds until now = max 1 ((until - now + 999) / 1000)

abbrev pub retry_after : Option ℕ → ℕ → Option ℕ
retry_after none now = none
retry_after (some until) now = some (remaining_seconds until now)

-- `if (mutation && …) { …; if (!until || mutationUntil > until) until = mutationUntil }`
abbrev pub later_limit : Option ℕ → ℕ → Option ℕ
later_limit none mutation_until = some mutation_until
later_limit (some until) mutation_until =
    if ltb until mutation_until then some mutation_until else some until

abbrev pub is_none {ℓ} : {A : Type ℓ} → Option A → Bool
is_none none = true
is_none (some _) = false

-- The two budgets of `consumeCredential`, as of `now`: the time until which the call is refused.
unfoldable pub refused_until : Bool → List ℕ → List ℕ → Option ℕ
refused_until mutation requests mutations =
    let until =
      if leb credential_request_limit (length requests)
      then some (expires_first requests request_window_ms)
      else none in
    if mutation && leb credential_mutation_limit (length mutations)
    then later_limit until (expires_first mutations request_window_ms)
    else until

-- The operation of `consumeCredential` on the locked row.
unfoldable pub credential_row : Bool → LimitState → ℕ → LimitState × Option ℕ
credential_row mutation state now =
    let requests = rolling_times state.request_times now request_window_ms in
    let mutations = rolling_times state.mutation_times now request_window_ms in
    let until = refused_until mutation requests mutations in
    (
      record {
        request_times =
            if ltb (length requests) credential_request_limit then push requests now else requests;
        mutation_times = if is_none until && mutation then push mutations now else mutations;
        blocked_until = none;
        expires_at = now + request_window_ms;
      },
      retry_after until now,
    )

-- `until && until > now`
abbrev pub is_after : Option ℕ → ℕ → Bool
is_after none now = false
is_after (some until) now = ltb now until

-- The operation of `consumeFailedAuthentication`: a blocked row is left as it is.
unfoldable pub failure_row : LimitState → ℕ → LimitState × Option ℕ
failure_row state now =
    let requests = rolling_times state.request_times now auth_failure_window_ms in
    let blocked =
      if leb source_failure_limit (length requests + 1)
      then some (now + source_block_ms)
      else none in
    if is_after state.blocked_until now then (state, retry_after state.blocked_until now) else (
      record {
        request_times = if is_none blocked then push requests now else requests;
        mutation_times = [];
        blocked_until = blocked;
        expires_at = elim blocked [ none ↦ now + auth_failure_window_ms | some until ↦ until ];
      },
      retry_after blocked now,
    )

-- The operation of `consumeManagementStepUp` for one of its budgets.
unfoldable pub step_up_row : ℕ → LimitState → ℕ → LimitState × Option ℕ
step_up_row limit state now =
    let requests = rolling_times state.request_times now management_step_up_window_ms in
    let until =
      if leb limit (length requests)
      then some (expires_first requests management_step_up_window_ms)
      else none in
    (
      record {
        request_times = if is_none until then push requests now else requests;
        mutation_times = [];
        blocked_until = none;
        expires_at = now + management_step_up_window_ms;
      },
      retry_after until now,
    )

-- The table, by the digest of the key.
abbrev pub Table : Type 0
Table = Text → Option LimitState

-- What the database does in one transaction: whether it fails, and its clock.
pub record Database : Type 0 where
  pub fails : Bool
  pub clock : ℕ

pub data Outcome : Type 0 where
  allowed : Outcome
  limit_exceeded : (retry_after_seconds : ℕ) → Outcome
  unavailable : Outcome

abbrev pub store : Table → Text → LimitState → Table
store table key state k = if text_eq k key then some state else table k

-- The row that `INSERT … ON CONFLICT DO NOTHING` leaves.
abbrev pub row_at : Table → Text → ℕ → LimitState
row_at table key clock = elim (table key) [
  | none ↦ record {
    request_times = [];
    mutation_times = [];
    blocked_until = none;
    expires_at = clock;
  }
  | some state ↦ state
]

abbrev pub or_else : Option ℕ → ℕ → ℕ
or_else none clock = clock
or_else (some now) clock = now

abbrev pub outcome : Option ℕ → Outcome
outcome none = allowed
outcome (some seconds) = limit_exceeded seconds

-- `withState`, and the test of its result that each caller makes.
unfoldable pub with_state :
    Text → Option ℕ → (LimitState → ℕ → LimitState × Option ℕ) → Database → Table → Table × Outcome
with_state key now operation db table =
    let (state, retry) = operation (row_at table key db.clock) (or_else now db.clock) in
    if db.fails then (table, unavailable) else (store table key state, outcome retry)

module _ (digest : Text → Text) where
  -- `rateLimitKey`
  unfoldable pub rate_limit_key : Text → Text → Text
  rate_limit_key dimension value =
      digest (codes "monqom-integration-rate-limit:v2:" ++ (dimension ++ (b':' ∷ value)))

  unfoldable pub consume_credential :
      Text → Option ℕ → Bool → Text → Database → Table → Table × Outcome
  consume_credential credential_id now mutation workspace_id =
      with_state (rate_limit_key (codes "credential") (workspace_id ++ (b':' ∷ credential_id))) now
        (credential_row mutation)

  -- `normalizeIntegrationClientIp(clientIp) ?? 'unknown'` is the argument.
  unfoldable pub source_key : Text → Text
  source_key client_ip = rate_limit_key (codes "failed-auth-source") client_ip

  -- The test of the selected row: no row, or a row that is not blocked, lets the source through.
  unfoldable pub assert_source_allowed : Text → Option ℕ → Database → Table → Outcome
  assert_source_allowed client_ip now db table =
      let checked_at = or_else now db.clock in
      let found : Outcome = elim (table (source_key client_ip)) [
        | none ↦ allowed
        | some state ↦ elim state.blocked_until [
          | none ↦ allowed
          | some until ↦
              if ltb checked_at until
              then limit_exceeded (remaining_seconds until checked_at)
              else allowed
        ]
      ] in
      if db.fails then unavailable else found

  unfoldable pub consume_failed_authentication :
      Text → Option ℕ → Database → Table → Table × Outcome
  consume_failed_authentication client_ip now = with_state (source_key client_ip) now failure_row

  -- The two rounds of the loop of `consumeManagementStepUp`, each a transaction of its own.
  unfoldable pub consume_management_step_up :
      Text → Text → Option ℕ → Database → Database → Table → Table × Outcome
  consume_management_step_up user_id client_ip now first second table =
      let (table', user_outcome) =
        with_state (rate_limit_key (codes "management-step-up-user") user_id) now
          (step_up_row management_user_attempt_limit) first table in
      elim user_outcome [
        | allowed ↦
            with_state (rate_limit_key (codes "management-step-up-source") client_ip) now
              (step_up_row management_source_attempt_limit) second table'
        | limit_exceeded seconds ↦ (table', limit_exceeded seconds)
        | unavailable ↦ (table', unavailable)
      ]

-- `cleanupExpired`: the rows that the `DELETE` takes away; how many they are is left out.
abbrev pub is_expired : ℕ → LimitState → Bool
is_expired now state = leb state.expires_at now && not (is_after state.blocked_until now)

unfoldable pub cleanup_expired : Option ℕ → Database → Table → Table
cleanup_expired now db table key =
    let kept : Option LimitState = elim (table key) [
      | none ↦ none
      | some state ↦ if is_expired (or_else now db.clock) state then none else some state
    ] in
    if db.fails then table key else kept
