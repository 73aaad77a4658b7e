-- ===== src/Goals/Retry.antt =====
-- `runSerializable` of backend/src/modules/goals/goals.service.ts: its retries.
use monqom.Common.{
  ℕ, ◌≡◌, refl, ◌⊎◌, inl, inr, Bool, true, false, not, ◌==◌, ◌+◌, ◌||◌, ◌&&◌, if◌then◌else◌,
}
use monqom.Goals.Store.{GoalStore}
use monqom.Goals.Service.{
  Exception, serialization_conflict, Result, ok, err, is_conflict, Action, settle, transaction,
  attempts, run_serializable, next_round, serializable_retry_limit, retry_limit_exhausted,
}

module _ (s : GoalStore) where
  open s use {Db}

  -- The two ways that a transaction ends: undone, or with what its callback leaves.
  abbrev pub Ends : {A : Type 0} → Action s A → Db → Result A × Db → Type 0
  Ends {A} callback db answer =
      ((x : Exception) × (answer ≡ (err x, db)))
      ⊎ ((a : A) × (db' : Db) × (callback db ≡ ok (a, db')) × (answer ≡ (ok a, db')))

  pub transaction-Ends :
      {A : Type 0} (refused : Bool) (callback : Action s A) (db : Db)
      → Ends callback db (settle s (transaction s refused callback db) db)
  transaction-Ends true callback db = inl (serialization_conflict, refl)
  transaction-Ends false callback db =
      elim (callback db) as (λ r. callback db ≡ r → Ends callback db (settle s r db)) [
        | ok (a, db') ↦ λ e. inr (a, db', e, refl)
        | err x ↦ λ e. inl (x, refl)
      ]
        refl

  round-Ends :
      {A : Type 0} (refused : Bool) (attempt : ℕ) (callback : Action s A) (db : Db)
      (again : Result A × Db)
      → Ends callback db again
      → Ends callback db (next_round s (transaction s refused callback db) attempt db again)
  round-Ends true attempt callback db again h =
      elim (attempt == serializable_retry_limit)
        as (λ b. Ends callback db (if b then (err serialization_conflict, db) else again)) [
          | true ↦ inl (serialization_conflict, refl)
          | false ↦ h
        ]
  round-Ends false attempt callback db again h =
      elim (callback db)
          as (λ r. callback db ≡ r → Ends callback db (next_round s r attempt db again)) [
            | ok (a, db') ↦ λ e. inr (a, db', e, refl)
            | err x ↦ λ e.
                elim (not (is_conflict x) || attempt == serializable_retry_limit)
                  as (λ b. Ends callback db (if b then (err x, db) else again)) [
                    | true ↦ inl (x, refl)
                    | false ↦ h
                  ]
          ]
        refl

  attempts-Ends :
      {A : Type 0} (left attempt : ℕ) (refused : ℕ → Bool) (callback : Action s A) (db : Db)
      → Ends callback db (attempts s left attempt refused callback db)
  unfolding attempts
  attempts-Ends ℕ.zero attempt refused callback db = inl (retry_limit_exhausted, refl)
  attempts-Ends (ℕ.suc left) attempt refused callback db =
      round-Ends (refused attempt) attempt callback db _
        (attempts-Ends left (attempt + 1) refused callback db)

  pub run_serializable-Ends :
      {A : Type 0} (refused : ℕ → Bool) (callback : Action s A) (db : Db)
      → Ends callback db (run_serializable s refused callback db)
  unfolding run_serializable
  run_serializable-Ends refused callback db =
      attempts-Ends serializable_retry_limit 1 refused callback db

  -- A round that the database does not refuse is the last.
  settled_round :
      {A : Type 0} (r : Result (A × Db)) (attempt : ℕ) (db : Db) (again : Result A × Db)
      → ((x : Exception) → r ≡ err x → is_conflict x ≡ false)
      → next_round s r attempt db again ≡ settle s r db
  settled_round (ok (a, db')) attempt db again h = refl
  settled_round (err x) attempt db again h = rw (h x refl)

  three_rounds :
      {A : Type 0} (b1 b2 b3 : Bool) (r : Result (A × Db)) (db : Db)
      → ((x : Exception) → r ≡ err x → is_conflict x ≡ false)
      → next_round s (if b1 then err serialization_conflict else r) 1 db (
          next_round s (if b2 then err serialization_conflict else r) 2 db (
            next_round s
              (if b3 then err serialization_conflict else r)
              3
              db
              (err retry_limit_exhausted, db)))
        ≡ (if b1 && (b2 && b3) then (err serialization_conflict, db) else settle s r db)
  three_rounds false b2 b3 r db h = settled_round r 1 db _ h
  three_rounds true false b3 r db h = settled_round r 2 db _ h
  three_rounds true true false r db h = settled_round r 3 db _ h
  three_rounds true true true r db h = refl

  -- A callback that reports no serialization conflict of its own answers from its first attempt
  -- that the database does not refuse, if that is one of the first three; else the request fails with
  -- the conflict and changes nothing.
  pub run_serializable_retries :
      {A : Type 0} (refused : ℕ → Bool) (callback : Action s A) (db : Db)
      → ((x : Exception) → callback db ≡ err x → is_conflict x ≡ false)
      → run_serializable s refused callback db ≡ (
          if refused 1 && (refused 2 && refused 3)
          then (err serialization_conflict, db)
          else settle s (callback db) db)
  unfolding run_serializable attempts
  run_serializable_retries refused callback db h =
      three_rounds (refused 1) (refused 2) (refused 3) (callback db) db h
