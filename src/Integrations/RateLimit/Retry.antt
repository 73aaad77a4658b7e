-- ===== src/Integrations/RateLimit/Retry.antt =====
-- The `retryAfterSeconds` of a refused call of `consumeCredential`.
use monqom.Common.{
  ℕ, ◌+◌, ◌*◌, ◌≤◌, ◌<◌, ◌≡◌, refl, ◌⊎◌, Bool, true, false, Option, none, some, List, arith, length,
  push, length-push,
}
use monqom.Integrations.RateLimit.{
  LimitState, request_window_ms, credential_request_limit, credential_mutation_limit, rolling_times,
  earliest, expires_first, remaining_seconds, refused_until, credential_row, retry_after,
}
use monqom.Integrations.RateLimit.Credential.{refused_until-none, requests_step, mutations_step}
use monqom.Integrations.RateLimit.Window.{
  has, has-push, has-rolling, has_of_rolling, has-earliest, length-rolling, length-rolling_lt,
}

-- A row as `credential_row` keeps it: within both budgets, each mutation counted as a request too.
pub record IsKept (state : LimitState) : Type 0 where
  pub requests_high : length state.request_times ≤ credential_request_limit
  pub mutations_high : length state.mutation_times ≤ credential_mutation_limit
  pub counted : (t : ℕ) → has t state.mutation_times ≡ true → has t state.request_times ≡ true

refused_until_bounds :
    (mutation : Bool) (r m : List ℕ) (until : ℕ)
    → refused_until mutation r m ≡ some until
    → ((length r < credential_request_limit) ⊎ (expires_first r request_window_ms ≤ until))
      × ((mutation ≡ false)
          ⊎ (length m < credential_mutation_limit)
          ⊎ (expires_first m request_window_ms ≤ until))
      × ((credential_request_limit ≤ length r)
          ⊎ ((mutation ≡ true) × (credential_mutation_limit ≤ length m)))
unfolding refused_until
refused_until_bounds mutation r m until h = ground arith

remaining_seconds_reach :
    (until now later : ℕ) → now + 1000 * remaining_seconds until now ≤ later → until ≤ later
unfolding remaining_seconds
remaining_seconds_reach until now later h = omega arith

counted_step :
    (mutation : Bool) (state : LimitState) (now t : ℕ)
    → IsKept state
    → has t (credential_row mutation state now).0.mutation_times ≡ true
    → has t (credential_row mutation state now).0.request_times ≡ true
unfolding credential_row
counted_step mutation state now t k h =
    let r = rolling_times state.request_times now request_window_ms in
    let m = rolling_times state.mutation_times now request_window_ms in
    ground (
      arith,
      has-push t now r,
      has-push t now m,
      has_of_rolling request_window_ms now t state.mutation_times,
      k.counted t,
      has-rolling request_window_ms now t state.request_times,
      refused_until-none mutation r m,
    )

-- Every row that the calls leave is such a row.
pub IsKept-credential_row :
    (mutation : Bool) (state : LimitState) (now : ℕ)
    → IsKept state
    → IsKept (credential_row mutation state now).0
IsKept-credential_row mutation state now k = record {
  requests_high = requests_step mutation state now k.requests_high;
  mutations_high = mutations_step mutation state now k.mutations_high;
  counted = λ t. counted_step mutation state now t k;
}

-- A row on which both budgets have room, as of some moment.
refused_until_room :
    (mutation : Bool) (r m : List ℕ)
    → length r < credential_request_limit
    → (mutation ≡ false) ⊎ (length m < credential_mutation_limit)
    → refused_until mutation r m ≡ none
unfolding refused_until
refused_until_room mutation r m h k = ground arith

module _ (mutation : Bool) (state : LimitState) (now until later : ℕ) (k : IsKept state)
    (refused : refused_until mutation
        (rolling_times state.request_times now request_window_ms)
        (rolling_times state.mutation_times now request_window_ms)
      ≡ some until)
    (waited : until ≤ later) where
  after : LimitState
  after = (credential_row mutation state now).0

  -- The earliest mutation of a full budget is a request that expires with it.
  requests_room :
      length (rolling_times after.request_times later request_window_ms) < credential_request_limit
  unfolding after credential_row expires_first
  requests_room =
      let r = rolling_times state.request_times now request_window_ms in
      let m = rolling_times state.mutation_times now request_window_ms in
      ground (
        arith,
        refused_until_bounds mutation r m until refused,
        length-rolling request_window_ms now state.request_times,
        k.requests_high,
        length-push r now,
        has-earliest r,
        length-rolling_lt request_window_ms later (earliest r) r,
        has-earliest m,
        has_of_rolling request_window_ms now (earliest m) state.mutation_times,
        k.counted (earliest m),
        has-rolling request_window_ms now (earliest m) state.request_times,
        has-push (earliest m) now r,
        length-rolling_lt request_window_ms later (earliest m) (push r now),
      )

  mutations_room :
      (mutation ≡ false)
      ⊎ (length (rolling_times after.mutation_times later request_window_ms)
          < credential_mutation_limit)
  unfolding after credential_row expires_first
  mutations_room =
      let r = rolling_times state.request_times now request_window_ms in
      let m = rolling_times state.mutation_times now request_window_ms in
      ground (
        arith,
        refused,
        refused_until_bounds mutation r m until refused,
        length-rolling request_window_ms now state.mutation_times,
        length-rolling request_window_ms later m,
        k.mutations_high,
        has-earliest m,
        length-rolling_lt request_window_ms later (earliest m) m,
      )

  passes_later : (credential_row mutation after later).1 ≡ none
  unfolding credential_row
  passes_later = rw (refused_until_room mutation _ _ requests_room mutations_room) refl

retry_after-eq-some :
    (o : Option ℕ) (now seconds : ℕ)
    → retry_after o now ≡ some seconds
    → (until : ℕ) × (o ≡ some until) × (seconds ≡ remaining_seconds until now)
retry_after-eq-some none now seconds h = cc
retry_after-eq-some (some until) now seconds h = (until, refl, cc)

-- A call that the budgets of a credential refuse is let through if it is made again after the
-- seconds that the refusal names, with no other call of that credential in between. The
-- row is as calls leave it: within both budgets, and each time of a mutation is one of a request.
pub consume_credential_retry :
    (mutation : Bool) (state : LimitState) (now seconds later : ℕ)
    → IsKept state
    → (credential_row mutation state now).1 ≡ some seconds
    → now + 1000 * seconds ≤ later
    → (credential_row mutation (credential_row mutation state now).0 later).1 ≡ none
unfolding credential_row after
consume_credential_retry mutation state now seconds later k e h =
    let (until, refused, named) = retry_after-eq-some _ now seconds e in
    passes_later mutation state now until later k refused
      (remaining_seconds_reach until now later (rw named at h))
