-- ===== src/Tests/Integrations.antt =====
-- Runs of the rate limits of integrations, and instances of their theorems.
use monqom.Common.{
  subst, ℕ, ◌+◌, ◌≤◌, ◌<◌, ◌≡◌, refl, true, false, none, some, List, [], ◌∷◌, arith, ltb,
  if◌then◌else◌,
}
use monqom.Common.Text.{Text, codes}
use monqom.Integrations.RateLimit.{
  consume_credential, cleanup_expired, LimitState, Database, allowed, limit_exceeded, Table,
  rolling_times, earliest, expires_first, remaining_seconds, refused_until, credential_row,
  failure_row, with_state, rate_limit_key, source_key, assert_source_allowed,
  consume_failed_authentication, request_window_ms, auth_failure_window_ms,
  credential_request_limit, credential_mutation_limit, source_failure_limit,
}
use monqom.Integrations.RateLimit.Cleanup.{
  IsDated-credential_row, IsDated, consume_credential-cleanup,
}
use monqom.Integrations.RateLimit.Window.{count_recent}
use monqom.Integrations.RateLimit.Credential.{
  Call, run_calls, fresh, times, mutation_times_of, consume_credential_within_budget,
}
use monqom.Integrations.RateLimit.Retry.{IsKept, consume_credential_retry}
use monqom.Integrations.RateLimit.Sources.{
  run_failures, consume_failed_authentication_blocks, consume_failed_authentication_within_budget,
}

run : Unit {0}
unfolding rolling_times earliest expires_first remaining_seconds refused_until credential_row
    failure_row with_state rate_limit_key source_key consume_failed_authentication
run = tt

-- `count` times, one second apart.
abbrev every_second : ℕ → ℕ → List ℕ
every_second from ℕ.zero = []
every_second from (ℕ.suc count) = from ∷ every_second (from + 1000) count

abbrev busy : LimitState
busy = record {
  request_times = every_second 5000 60;
  mutation_times = every_second 5000 60;
  blocked_until = none;
  expires_at = 124000;
}

busy-IsKept : IsKept busy
busy-IsKept = record {
  requests_high = omega arith;
  mutations_high = omega arith;
  counted = λ t h. h;
}

busy-IsDated : IsDated busy
busy-IsDated = ground arith

busy_refuses : (credential_row true busy 64500).1 ≡ some 1
unfolding run
busy_refuses = refl

consume_credential_retry_example :
    (credential_row true (credential_row true busy 64500).0 66000).1 ≡ none
consume_credential_retry_example =
    consume_credential_retry true busy 64500 1 66000 busy-IsKept busy_refuses (omega arith)

abbrev calls : List Call
calls = (1000, true) ∷ (1000, false) ∷ (2500, true) ∷ []

consume_credential_within_budget_example :
    let passed = (run_calls calls (fresh 900) []).1 in
    (count_recent request_window_ms 3000 (times passed) ≤ credential_request_limit)
    × (count_recent request_window_ms 3000 (mutation_times_of passed) ≤ credential_mutation_limit)
consume_credential_within_budget_example =
    consume_credential_within_budget 900 calls 3000
      (omega arith, (omega arith, (omega arith, omega arith)))

consume_failed_authentication_within_budget_example :
    count_recent auth_failure_window_ms 3000
      (run_failures (1000 ∷ 1000 ∷ 2500 ∷ []) (fresh 900) []).1
    < source_failure_limit
consume_failed_authentication_within_budget_example =
    consume_failed_authentication_within_budget 900 (1000 ∷ 1000 ∷ 2500 ∷ []) 3000
      (omega arith, (omega arith, (omega arith, omega arith)))

abbrev failing : Table
failing key = some (record {
  request_times = every_second 5000 19;
  mutation_times = [];
  blocked_until = none;
  expires_at = 400000;
})

abbrev works : Database
works = record { fails = false; clock = 0 }

abbrev same_text : Text → Text
same_text t = t

failing_refuses :
    (consume_failed_authentication same_text (codes "10.0.0.1") (some 30000) works failing).1
    ≡ limit_exceeded 900
unfolding run
failing_refuses = refl

consume_failed_authentication_blocks_example :
    (until : ℕ) × (30000 < until)
    × (900 ≡ remaining_seconds until 30000)
    × ((t clock : ℕ)
        → assert_source_allowed same_text
            (codes "10.0.0.1")
            (some t)
            (record { fails = false; clock = clock })
            (consume_failed_authentication same_text
              (codes "10.0.0.1")
              (some 30000)
              works
              failing).0
          ≡ (if ltb t until then limit_exceeded (remaining_seconds until t) else allowed))
consume_failed_authentication_blocks_example =
    consume_failed_authentication_blocks same_text (codes "10.0.0.1") 30000 900 works failing
      failing_refuses

-- Rows that expired a second before the clean-up.
abbrev table : Table
table key = some (record {
  request_times = 5000 ∷ 6000 ∷ [];
  mutation_times = 6000 ∷ [];
  blocked_until = none;
  expires_at = 66000;
})

some_value : (a b : LimitState) → some a ≡ some b → a ≡ b
some_value a b e = cc

table-IsDated : (key : Text) (state : LimitState) → table key ≡ some state → IsDated state
table-IsDated key state e =
    subst IsDated (some_value _ state e) ((omega arith, (omega arith, tt)), (omega arith, tt))

consume_credential-cleanup_example :
    (consume_credential same_text
      (codes "c1")
      (some 68000)
      true
      (codes "w1")
      works
      (cleanup_expired (some 67000) works table)).1
    ≡ (consume_credential same_text (codes "c1") (some 68000) true (codes "w1") works table).1
consume_credential-cleanup_example =
    consume_credential-cleanup same_text (codes "c1") (codes "w1") true 67000 68000 works works
      table (omega arith) table-IsDated

IsDated-credential_row_example : IsDated (credential_row true busy 64500).0
IsDated-credential_row_example = IsDated-credential_row true busy 64500 busy-IsDated (omega arith)
