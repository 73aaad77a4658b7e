-- ===== src/Integrations/RateLimit/Credential.antt =====
-- The budgets of one credential, over any run of calls on its row.
use monqom.Common.{
  ℕ, ◌≤◌, ◌<◌, ◌≡◌, refl, ◌⊎◌, Bool, true, false, none, List, [], ◌∷◌, arith, if◌then◌else◌, length,
  push, length-push, length-filter,
}
use monqom.Integrations.RateLimit.{
  LimitState, request_window_ms, credential_request_limit, credential_mutation_limit, rolling_times,
  refused_until, credential_row, is_none, is_recent,
}
use monqom.Integrations.RateLimit.Window.{
  count_recent, count_recent-rolling, count_recent-push, length-rolling,
}

-- A call on the row: its time and whether it is a mutation.
abbrev pub Call : Type 0
Call = ℕ × Bool

-- The row after some calls, and the calls that were let through, the last one last.
unfoldable pub run_calls : List Call → LimitState → List Call → LimitState × List Call
run_calls [] state passed = (state, passed)
run_calls ((now, mutation) ∷ calls) state passed =
    let (state', retry) = credential_row mutation state now in
    run_calls calls state' (if is_none retry then push passed (now, mutation) else passed)

-- The calls come in the order of their times, none before `from` and none after `until`.
abbrev pub IsOrdered : ℕ → List Call → ℕ → Type 0
IsOrdered from [] until = from ≤ until
IsOrdered from ((now, _) ∷ calls) until = (from ≤ now) × IsOrdered now calls until

abbrev pub times : List Call → List ℕ
times [] = []
times ((t, _) ∷ calls) = t ∷ times calls

abbrev pub mutation_times_of : List Call → List ℕ
mutation_times_of [] = []
mutation_times_of ((t, true) ∷ calls) = t ∷ mutation_times_of calls
mutation_times_of ((t, false) ∷ calls) = mutation_times_of calls

-- From `since` on, the row counts at least the calls that were let through, within the budgets.
record Covers (since : ℕ) (state : LimitState) (passed : List Call) : Type 0 where
  requests_high : length state.request_times ≤ credential_request_limit
  mutations_high : length state.mutation_times ≤ credential_mutation_limit
  requests :
      (now : ℕ)
      → since ≤ now
      → count_recent request_window_ms now (times passed)
        ≤ count_recent request_window_ms now state.request_times
  mutations :
      (now : ℕ)
      → since ≤ now
      → count_recent request_window_ms now (mutation_times_of passed)
        ≤ count_recent request_window_ms now state.mutation_times

times-push : (c : Call) (calls : List Call) → times (push calls c) ≡ push (times calls) c.0
times-push c [] = refl
times-push c ((t, m) ∷ calls) = rw (times-push c calls) refl

mutation_times_of-push :
    (c : Call) (calls : List Call)
    → mutation_times_of (push calls c)
      ≡ (if c.1 then push (mutation_times_of calls) c.0 else mutation_times_of calls)
mutation_times_of-push (t, true) [] = refl
mutation_times_of-push (t, false) [] = refl
mutation_times_of-push (t, true) ((u, true) ∷ calls) =
    rw (mutation_times_of-push (t, true) calls) refl
mutation_times_of-push (t, false) ((u, true) ∷ calls) =
    rw (mutation_times_of-push (t, false) calls) refl
mutation_times_of-push c ((u, false) ∷ calls) = mutation_times_of-push c calls

-- What the two budgets allow when they refuse nothing.
pub refused_until-none :
    (mutation : Bool) (requests mutations : List ℕ)
    → refused_until mutation requests mutations ≡ none
    → (length requests < credential_request_limit)
      × ((mutation ≡ false) ⊎ (length mutations < credential_mutation_limit))
unfolding refused_until
refused_until-none mutation requests mutations h = ground arith

pub requests_step :
    (mutation : Bool) (state : LimitState) (now : ℕ)
    → length state.request_times ≤ credential_request_limit
    → length (credential_row mutation state now).0.request_times ≤ credential_request_limit
unfolding credential_row
requests_step mutation state now h =
    let r = rolling_times state.request_times now request_window_ms in
    ground (arith, length-rolling request_window_ms now state.request_times, length-push r now)

pub mutations_step :
    (mutation : Bool) (state : LimitState) (now : ℕ)
    → length state.mutation_times ≤ credential_mutation_limit
    → length (credential_row mutation state now).0.mutation_times ≤ credential_mutation_limit
unfolding credential_row
mutations_step mutation state now h =
    let r = rolling_times state.request_times now request_window_ms in
    let m = rolling_times state.mutation_times now request_window_ms in
    ground (
      arith,
      length-rolling request_window_ms now state.mutation_times,
      length-push m now,
      refused_until-none mutation r m,
    )

module _ (since now : ℕ) (mutation : Bool) (state : LimitState) (passed : List Call)
    (later : since ≤ now) (c : Covers since state passed) where
  step_passed : List Call
  step_passed =
      if is_none (credential_row mutation state now).1 then push passed (now, mutation) else passed

  requests_cover :
      (t : ℕ)
      → now ≤ t
      → count_recent request_window_ms t (times step_passed)
        ≤ count_recent request_window_ms t (credential_row mutation state now).0.request_times
  unfolding credential_row step_passed
  requests_cover t h =
      let r = rolling_times state.request_times now request_window_ms in
      let m = rolling_times state.mutation_times now request_window_ms in
      ground (
        arith,
        c.requests t (omega arith),
        count_recent-rolling request_window_ms now t state.request_times h,
        count_recent-push request_window_ms t now r,
        count_recent-push request_window_ms t now (times passed),
        times-push (now, mutation) passed,
        refused_until-none mutation r m,
      )

  mutations_cover :
      (t : ℕ)
      → now ≤ t
      → count_recent request_window_ms t (mutation_times_of step_passed)
        ≤ count_recent request_window_ms t (credential_row mutation state now).0.mutation_times
  unfolding credential_row step_passed
  mutations_cover t h =
      let r = rolling_times state.request_times now request_window_ms in
      let m = rolling_times state.mutation_times now request_window_ms in
      ground (
        arith,
        c.mutations t (omega arith),
        count_recent-rolling request_window_ms now t state.mutation_times h,
        count_recent-push request_window_ms t now m,
        count_recent-push request_window_ms t now (mutation_times_of passed),
        mutation_times_of-push (now, mutation) passed,
        refused_until-none mutation r m,
      )

  Covers-step : Covers now (credential_row mutation state now).0 step_passed
  Covers-step = record {
    requests_high = requests_step mutation state now c.requests_high;
    mutations_high = mutations_step mutation state now c.mutations_high;
    requests = requests_cover;
    mutations = mutations_cover;
  }

Covers-run :
    (from until : ℕ) (calls : List Call) (state : LimitState) (passed : List Call)
    → IsOrdered from calls until
    → Covers from state passed
    → Covers until (run_calls calls state passed).0 (run_calls calls state passed).1
unfolding run_calls credential_row step_passed
Covers-run from until [] state passed h c = record {
  requests_high = c.requests_high;
  mutations_high = c.mutations_high;
  requests = λ now k. c.requests now (omega arith);
  mutations = λ now k. c.mutations now (omega arith);
}
Covers-run from until ((now, mutation) ∷ calls) state passed (h, later) c =
    Covers-run now until calls (credential_row mutation state now).0
      (step_passed from now mutation state passed h c) later
      (Covers-step from now mutation state passed h c)

abbrev pub fresh : ℕ → LimitState
fresh clock = record {
  request_times = [];
  mutation_times = [];
  blocked_until = none;
  expires_at = clock;
}

-- Whatever calls one credential makes on a fresh row, in the order of their times, the window of a
-- minute that ends at any later moment holds at most 120 calls that were let through, of which at
-- most 60 are mutations.
pub consume_credential_within_budget :
    (clock : ℕ) (calls : List Call) (now : ℕ)
    → IsOrdered 0 calls now
    → let passed = (run_calls calls (fresh clock) []).1 in
      (count_recent request_window_ms now (times passed) ≤ credential_request_limit)
      × (count_recent request_window_ms now (mutation_times_of passed) ≤ credential_mutation_limit)
consume_credential_within_budget clock calls now h =
    let start : Covers 0 (fresh clock) [] = record {
      requests_high = omega arith;
      mutations_high = omega arith;
      requests = λ t _. omega arith;
      mutations = λ t _. omega arith;
    } in
    let (state, passed) = run_calls calls (fresh clock) [] in
    let c = Covers-run 0 now calls (fresh clock) [] h start in
    omega (
      arith,
      c.requests now (omega arith),
      c.mutations now (omega arith),
      c.requests_high,
      c.mutations_high,
      length-filter (is_recent request_window_ms now) state.request_times,
      length-filter (is_recent request_window_ms now) state.mutation_times,
    )
