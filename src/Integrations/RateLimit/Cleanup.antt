-- ===== src/Integrations/RateLimit/Cleanup.antt =====
-- `cleanupExpired` of the rate limits, next to the calls of credentials.
use monqom.Common.{
  ℕ, ◌+◌, ◌≤◌, ◌≡◌, refl, sym, ap, ◌∙◌, Bool, true, false, Option, none, some, List, [], ◌∷◌, arith,
  if◌then◌else◌, All, All-filter, push, Bool-cases, inl, inr, ◌++◌,
}
use monqom.Common.Text.{Text, codes}
use monqom.Integrations.RateLimit.{
  unavailable, LimitState, Database, Table, is_recent, rolling_times, credential_row, with_state,
  consume_credential, rate_limit_key, cleanup_expired, is_expired, outcome, request_window_ms,
}

-- No time of a row is recent once the row has expired, and the row does not block.
abbrev pub IsDated : LimitState → Type 0
IsDated state =
    All (λ t. t + request_window_ms ≤ state.expires_at) state.request_times
    × All (λ t. t + request_window_ms ≤ state.expires_at) state.mutation_times

rolling_times_none :
    (window until now : ℕ) (times : List ℕ)
    → All (λ t. t + window ≤ until) times
    → until ≤ now
    → rolling_times times now window ≡ []
unfolding rolling_times
rolling_times_none window until now [] old h = refl
rolling_times_none window until now (t ∷ ts) (first, rest) h =
    ground (arith, rolling_times_none window until now ts rest h)

-- An expired row decides as a new one does.
expired_row :
    (mutation : Bool) (state new : LimitState) (now : ℕ)
    → IsDated state
    → state.expires_at ≤ now
    → new.request_times ≡ []
    → new.mutation_times ≡ []
    → credential_row mutation state now ≡ credential_row mutation new now
unfolding credential_row rolling_times
expired_row mutation state new now (requests, mutations) h r m = rw (
  rolling_times_none request_window_ms state.expires_at now state.request_times requests h,
  rolling_times_none request_window_ms state.expires_at now state.mutation_times mutations h,
  r,
  m,
)

abbrev new_row : ℕ → LimitState
new_row clock = record {
  request_times = [];
  mutation_times = [];
  blocked_until = none;
  expires_at = clock;
}

abbrev found : Option LimitState → ℕ → LimitState
found none clock = new_row clock
found (some state) clock = state

kept_or_expired :
    (mutation : Bool) (at later clock : ℕ) (state : LimitState)
    → at ≤ later
    → IsDated state
    → credential_row mutation (found (if is_expired at state then none else some state) clock) later
      ≡ credential_row mutation state later
kept_or_expired mutation at later clock state h dated = elim (Bool-cases (is_expired at state)) [
  | inl expired ↦
      let over : state.expires_at ≤ later = ground arith in
      rw (expired, expired_row mutation state (new_row clock) later dated over refl refl)
  | inr kept ↦ rw kept
]

abbrev kept_entry : ℕ → Option LimitState → Option LimitState
kept_entry at none = none
kept_entry at (some state) = if is_expired at state then none else some state

cleaned_entry :
    (mutation fails : Bool) (at later clock : ℕ) (r : Option LimitState)
    → at ≤ later
    → ((state : LimitState) → r ≡ some state → IsDated state)
    → credential_row mutation (found (if fails then r else kept_entry at r) clock) later
      ≡ credential_row mutation (found r clock) later
cleaned_entry mutation true at later clock r h dated = refl
cleaned_entry mutation false at later clock none h dated = refl
cleaned_entry mutation false at later clock (some state) h dated =
    kept_or_expired mutation at later clock state h (dated state refl)

-- What a call answers, by the row that it finds.
answer :
    (key : Text) (later : ℕ) (mutation : Bool) (db : Database) (table : Table)
    → (with_state key (some later) (credential_row mutation) db table).1 ≡ (
        if db.fails
        then unavailable
        else outcome (credential_row mutation (found (table key) db.clock) later).1)
unfolding with_state
answer key later mutation db table = elim (Bool-cases db.fails) [
  | inl failed ↦ ground arith
  | inr works ↦ ground arith
]

pushed_times :
    (until now : ℕ) (times : List ℕ)
    → All (λ t. t + request_window_ms ≤ until) times
    → until ≤ now + request_window_ms
    → All (λ t. t + request_window_ms ≤ now + request_window_ms) times
      × All (λ t. t + request_window_ms ≤ now + request_window_ms) (push times now)
pushed_times until now [] old h = (tt, (omega arith, tt))
pushed_times until now (t ∷ ts) (first, rest) h =
    let (same, pushed) = pushed_times until now ts rest h in
    ((omega arith, same), (omega arith, pushed))

dated_times :
    (counts : Bool) (until now : ℕ) (times : List ℕ)
    → All (λ t. t + request_window_ms ≤ until) times
    → until ≤ now + request_window_ms
    → All
        (λ t. t + request_window_ms ≤ now + request_window_ms)
        (if counts
          then push (rolling_times times now request_window_ms) now
          else rolling_times times now request_window_ms)
unfolding rolling_times
dated_times true until now times old h =
    (pushed_times until now _ (All-filter _ (is_recent request_window_ms now) times old) h).1
dated_times false until now times old h =
    (pushed_times until now _ (All-filter _ (is_recent request_window_ms now) times old) h).0

-- Whatever a call of a credential gives, its row then holds no time that is still recent when the row
-- expires, if that was so before, and the row did not expire later than a minute from the call.
pub IsDated-credential_row :
    (mutation : Bool) (state : LimitState) (now : ℕ)
    → IsDated state
    → state.expires_at ≤ now + request_window_ms
    → IsDated (credential_row mutation state now).0
unfolding credential_row rolling_times
IsDated-credential_row mutation state now (requests, mutations) h = (
  dated_times _ state.expires_at now state.request_times requests h,
  dated_times _ state.expires_at now state.mutation_times mutations h,
)

-- A clean-up at or before a call of a credential changes nothing for it: the call is answered as
-- without the clean-up, whether that succeeds or fails. No row of the table holds a time that is
-- still recent when the row expires.
pub consume_credential-cleanup :
    (digest : Text → Text) (credential_id workspace_id : Text) (mutation : Bool) (at later : ℕ)
    (db check : Database) (table : Table)
    → at ≤ later
    → ((key : Text) (state : LimitState) → table key ≡ some state → IsDated state)
    → (consume_credential digest credential_id
        (some later)
        mutation
        workspace_id
        db
        (cleanup_expired (some at) check table)).1
      ≡ (consume_credential digest credential_id (some later) mutation workspace_id db table).1
unfolding consume_credential cleanup_expired
consume_credential-cleanup digest credential_id workspace_id mutation at later db check table h
      dated =
    let key = rate_limit_key digest (codes "credential") (workspace_id ++ (b':' ∷ credential_id)) in
    answer key later mutation db (cleanup_expired (some at) check table)
    ∙ ap (λ r. if db.fails then unavailable else outcome r.1)
        (cleaned_entry mutation check.fails at later db.clock (table key) h (dated key))
    ∙ sym (answer key later mutation db table)
