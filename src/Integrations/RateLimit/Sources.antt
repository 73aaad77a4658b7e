-- ===== src/Integrations/RateLimit/Sources.antt =====
-- Blocking of the sources of failed authentications, and the budgets of step-up attempts.
use monqom.Common.{
  ℕ, ◌+◌, ◌≤◌, ◌<◌, ◌≡◌, ◌≢◌, false, Option, some, List, [], ◌∷◌, arith, ltb, inl, inr,
  if◌then◌else◌, length, push, length-push, length-filter, Option-cases,
}
use native.Mathlib.Decide.{dec_lt}
use monqom.Common.Text.{Text, text_eq_iff}
use monqom.Integrations.RateLimit.{
  LimitState, Table, Database, allowed, limit_exceeded, row_at, with_state, source_key,
  assert_source_allowed, consume_failed_authentication, failure_row, rolling_times,
  remaining_seconds, auth_failure_window_ms, source_failure_limit, source_block_ms, is_none,
  is_recent,
}
use monqom.Integrations.RateLimit.Window.{
  count_recent, count_recent-rolling, count_recent-push, length-rolling,
}
use monqom.Integrations.RateLimit.Credential.{fresh}

-- A successful call of `withState` writes one row.
with_state_other :
    (key other : Text) (now : Option ℕ) (op : LimitState → ℕ → LimitState × Option ℕ)
    (db : Database) (table : Table)
    → other ≢ key
    → (with_state key now op db table).0 other ≡ table other
unfolding with_state
with_state_other key other now op db table h = ground (arith, text_eq_iff other key)

-- What a refusal by `failure_row` leaves in the row.
failure_row-blocked :
    (state : LimitState) (now seconds : ℕ)
    → (failure_row state now).1 ≡ some seconds
    → (until : ℕ) × ((failure_row state now).0.blocked_until ≡ some until)
      × (now < until)
      × (seconds ≡ remaining_seconds until now)
unfolding failure_row
failure_row-blocked state now seconds h = elim (Option-cases state.blocked_until) [
  | inl free ↦ (now + source_block_ms, ground arith, ground arith, ground arith)
  | inr (until, blocked) ↦ elim (dec_lt now until) [
    | yes still ↦ (until, ground arith, ground arith, ground arith)
    | no past ↦ (now + source_block_ms, ground arith, ground arith, ground arith)
  ]
]

module _ (digest : Text → Text) (client_ip : Text) where
  -- When a failed authentication is answered by a refusal, there is one later moment to which the
  -- named seconds lead: every check of the source by a working database on the rows that the refusal
  -- leaves refuses it before that moment and lets it through from then on.
  pub consume_failed_authentication_blocks :
      (now seconds : ℕ) (db : Database) (table : Table)
      → (consume_failed_authentication digest client_ip (some now) db table).1
        ≡ limit_exceeded seconds
      → (until : ℕ) × (now < until)
        × (seconds ≡ remaining_seconds until now)
        × ((t clock : ℕ)
            → assert_source_allowed digest client_ip
                (some t)
                (record { fails = false; clock = clock })
                (consume_failed_authentication digest client_ip (some now) db table).0
              ≡ (if ltb t until then limit_exceeded (remaining_seconds until t) else allowed))
  unfolding consume_failed_authentication with_state assert_source_allowed
  consume_failed_authentication_blocks now seconds db table h =
      let key = source_key digest client_ip in
      let state = row_at table key db.clock in
      let (until, stored, later, named) = failure_row-blocked state now seconds (ground arith) in
      (until, later, named, λ t clock. ground (arith, text_eq_iff key key))

-- The failures that a row counts and does not refuse, in the order of their times.
unfoldable pub run_failures : List ℕ → LimitState → List ℕ → LimitState × List ℕ
run_failures [] state passed = (state, passed)
run_failures (now ∷ rest) state passed =
    let (state', retry) = failure_row state now in
    run_failures rest state' (if is_none retry then push passed now else passed)

abbrev pub IsSorted : ℕ → List ℕ → ℕ → Type 0
IsSorted from [] until = from ≤ until
IsSorted from (now ∷ rest) until = (from ≤ now) × IsSorted now rest until

record Counts (since : ℕ) (state : LimitState) (passed : List ℕ) : Type 0 where
  high : length state.request_times < source_failure_limit
  counted :
      (now : ℕ)
      → since ≤ now
      → count_recent auth_failure_window_ms now passed
        ≤ count_recent auth_failure_window_ms now state.request_times

module _ (since now : ℕ) (state : LimitState) (passed : List ℕ) (later : since ≤ now)
    (c : Counts since state passed) where
  next_passed : List ℕ
  next_passed = if is_none (failure_row state now).1 then push passed now else passed

  next_high : length (failure_row state now).0.request_times < source_failure_limit
  unfolding failure_row
  next_high =
      let r = rolling_times state.request_times now auth_failure_window_ms in
      ground (
        arith,
        c.high,
        length-rolling auth_failure_window_ms now state.request_times,
        length-push r now,
      )

  next_counted :
      (t : ℕ)
      → now ≤ t
      → count_recent auth_failure_window_ms t next_passed
        ≤ count_recent auth_failure_window_ms t (failure_row state now).0.request_times
  unfolding failure_row next_passed
  next_counted t h =
      let r = rolling_times state.request_times now auth_failure_window_ms in
      ground (
        arith,
        c.counted t (omega arith),
        count_recent-rolling auth_failure_window_ms now t state.request_times h,
        count_recent-push auth_failure_window_ms t now r,
        count_recent-push auth_failure_window_ms t now passed,
      )

Counts-run :
    (from until : ℕ) (rest : List ℕ) (state : LimitState) (passed : List ℕ)
    → IsSorted from rest until
    → Counts from state passed
    → Counts until (run_failures rest state passed).0 (run_failures rest state passed).1
unfolding run_failures next_passed
Counts-run from until [] state passed h c = record {
  high = c.high;
  counted = λ now k. c.counted now (omega arith);
}
Counts-run from until (now ∷ rest) state passed (h, later) c =
    Counts-run now until rest (failure_row state now).0 (next_passed from now state passed h c)
      later
      (record {
        high = next_high from now state passed h c;
        counted = next_counted from now state passed h c;
      })

-- However the failed authentications of one source follow each other, from a fresh row, in the
-- order of their times, at most 19 in the five minutes before any later moment are not refused.
pub consume_failed_authentication_within_budget :
    (clock : ℕ) (failures : List ℕ) (now : ℕ)
    → IsSorted 0 failures now
    → count_recent auth_failure_window_ms now (run_failures failures (fresh clock) []).1
      < source_failure_limit
consume_failed_authentication_within_budget clock failures now h =
    let start : Counts 0 (fresh clock) [] = record {
      high = omega arith;
      counted = λ t _. omega arith;
    } in
    let (state, passed) = run_failures failures (fresh clock) [] in
    let c = Counts-run 0 now failures (fresh clock) [] h start in
    omega (
      arith,
      c.counted now (omega arith),
      c.high,
      length-filter (is_recent auth_failure_window_ms now) state.request_times,
    )
