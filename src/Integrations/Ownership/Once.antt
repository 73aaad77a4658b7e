-- ===== src/Integrations/Ownership/Once.antt =====
-- An idempotency key has one effect: what `execute` does with a key that it has completed.
use monqom.Common.{
  ℕ, ◌+◌, ◌<◌, ◌≡◌, refl, sym, ap, ◌∙◌, subst, Bool, true, false, Option, none, some, arith,
  if◌then◌else◌,
}
use monqom.Common.Results.{Outcome, ok, err, ◌>>=◌, >>=-eq-ok}
use monqom.Common.Text.{Text, text_eq_iff}
use monqom.Integrations.Contract.{Failure, conflict, different_request}
use monqom.Integrations.Ledger.{Row, IdempotencyRecord, Db, set_record}
use monqom.Integrations.Ownership.{
  Principal, Reply, Claim, Admission, proceeds, replays, refuses, Mutation, admit, is_same_request,
  same_operation, same_option, assert_identity, stored_reply, replay, opened, closed, run_claimed,
  execute, idempotency_retention_ms,
}

stored_reply-replayed :
    (r : IdempotencyRecord) (reply : Reply) → stored_reply r ≡ ok reply → reply.replayed ≡ true
unfolding stored_reply
stored_reply-replayed r reply h = ground arith

replay-replayed :
    (p : Principal) (r : IdempotencyRecord) (db : Db) (reply : Reply)
    → replay p r db ≡ ok reply
    → reply.replayed ≡ true
unfolding replay
replay-replayed p r db reply h = ground (arith, stored_reply-replayed r reply)

same_option-eq : (a b : Option Text) → same_option a b ≡ true → b ≡ a
same_option-eq none none h = refl
same_option-eq none (some b) h = cc
same_option-eq (some a) none h = cc
same_option-eq (some a) (some b) h = ap (λ t. some t) (sym ((text_eq_iff a b).0 h))

module _ (digest_of : Text → Text) where
  -- The record under the key of a claim.
  abbrev pub record_of : Principal → Claim → Db → Option IdempotencyRecord
  record_of p c db = db.records p.integration_id (digest_of c.key)

  reply_of_run :
      (a a' : Reply) (d d' : Db)
      → ◌≡◌ {A = Outcome Failure (Reply × Db)} (ok (a, d)) (ok (a', d'))
      → a ≡ a'
  reply_of_run a a' d d' h = cc

  run_claimed-record :
      (p : Principal) (c : Claim) (mutate : Mutation) (now completed_at : ℕ) (db db' : Db)
      (reply : Reply)
      → run_claimed digest_of p c mutate now completed_at db ≡ ok (reply, db')
      → (target : Row) × (record_of p c db'
          ≡ some (closed digest_of (opened digest_of p c now) reply target completed_at))
  unfolding run_claimed
  run_claimed-record p c mutate now completed_at db db' reply h =
      let ((reply', target, db''), _, k) =
        >>=-eq-ok
          (mutate (set_record p.integration_id (digest_of c.key) (opened digest_of p c now) db)) _
          h in
      (target, ground (arith, text_eq_iff (digest_of c.key) (digest_of c.key)))

  admitted :
      (p : Principal) (c : Claim) (mutate : Mutation) (now completed_at : ℕ) (db db' : Db)
      (reply : Reply) (a : Admission)
      → (elim a [
        | proceeds ↦ run_claimed digest_of p c mutate now completed_at db
        | replays r ↦ replay p r db >>= λ reply. ok (reply, db)
        | refuses failure ↦ err failure
      ])
        ≡ ok (reply, db')
      → reply.replayed ≡ false
      → run_claimed digest_of p c mutate now completed_at db ≡ ok (reply, db')
  admitted p c mutate now completed_at db db' reply proceeds h fresh = h
  admitted p c mutate now completed_at db db' reply (replays r) h fresh =
      let (again, e, k) = >>=-eq-ok (replay p r db) _ h in
      absurd (ground (arith, replay-replayed p r db again))
  admitted p c mutate now completed_at db db' reply (refuses failure) h fresh = cc

  -- What is left under the key by a request that was not a replay.
  pub executed_record :
      (p : Principal) (c : Claim) (mutate : Mutation) (now completed_at : ℕ) (db db' : Db)
      (reply : Reply)
      → execute digest_of p (some c) mutate now completed_at db ≡ ok (reply, db')
      → reply.replayed ≡ false
      → (target : Row) × (record_of p c db'
          ≡ some (closed digest_of (opened digest_of p c now) reply target completed_at))
  unfolding execute
  executed_record p c mutate now completed_at db db' reply h fresh =
      let (_, _, k) = >>=-eq-ok (assert_identity p db) _ h in
      run_claimed-record p c mutate now completed_at db db' reply (
        admitted p c mutate now completed_at db db' reply (admit p c (record_of p c db) now) k
          fresh)

  -- A request that was not a replay has made its changes.
  pub executed_changes :
      (p : Principal) (c : Claim) (mutate : Mutation) (now completed_at : ℕ) (db db' : Db)
      (reply : Reply)
      → execute digest_of p (some c) mutate now completed_at db ≡ ok (reply, db')
      → reply.replayed ≡ false
      → (target : Row) × (start : Db) × (changed : Db) × (mutate start
          ≡ ok (reply, target, changed))
  unfolding execute run_claimed
  executed_changes p c mutate now completed_at db db' reply h fresh =
      let (_, _, k) = >>=-eq-ok (assert_identity p db) _ h in
      let start = set_record p.integration_id (digest_of c.key) (opened digest_of p c now) db in
      let ((reply', target, changed), made, l) = >>=-eq-ok (mutate start) _ (
        admitted p c mutate now completed_at db db' reply (admit p c (record_of p c db) now) k
          fresh) in
      (
        target,
        start,
        changed,
        subst (λ x. mutate start ≡ ok (x, target, changed)) (reply_of_run reply' reply _ db' l)
            made,
      )

  pub completed_admits :
      (p : Principal) (c : Claim) (r : IdempotencyRecord) (now : ℕ)
      → r.completed ≡ true
      → now < r.expires_at
      → admit p c (some r) now
        ≡ (if is_same_request p c r then replays r else refuses (conflict different_request))
  unfolding admit
  completed_admits p c r now done early = ground arith

  -- A completed key changes nothing before it expires.
  completed_keeps :
      (p : Principal) (c : Claim) (mutate : Mutation) (now completed_at : ℕ) (db db' : Db)
      (reply : Reply) (r : IdempotencyRecord)
      → record_of p c db ≡ some r
      → r.completed ≡ true
      → now < r.expires_at
      → execute digest_of p (some c) mutate now completed_at db ≡ ok (reply, db')
      → (db' ≡ db) × (reply.replayed ≡ true) × (is_same_request p c r ≡ true)
  unfolding execute
  completed_keeps p c mutate now completed_at db db' reply r at done early h =
      let (_, _, k) = >>=-eq-ok (assert_identity p db) _ h in
      kept (is_same_request p c r) refl (
        subst
          (λ a.
            (elim a [
              | proceeds ↦ run_claimed digest_of p c mutate now completed_at db
              | replays r ↦ replay p r db >>= λ reply. ok (reply, db)
              | refuses failure ↦ err failure
            ])
            ≡ ok (reply, db'))
          (ap (λ o. admit p c o now) at ∙ completed_admits p c r now done early) k)
    where
      kept :
          (b : Bool)
          → is_same_request p c r ≡ b
          → (elim (if b then replays r else refuses (conflict different_request)) [
            | proceeds ↦ run_claimed digest_of p c mutate now completed_at db
            | replays r ↦ replay p r db >>= λ reply. ok (reply, db)
            | refuses failure ↦ err failure
          ])
            ≡ ok (reply, db')
          → (db' ≡ db) × (reply.replayed ≡ true) × (is_same_request p c r ≡ true)
      kept true e k =
          let (again, f, l) = >>=-eq-ok (replay p r db) _ k in
          (ground arith, ground (arith, replay-replayed p r db again), e)
      kept false e k = cc

  same_request :
      (p : Principal) (c c' : Claim) (now : ℕ) (reply : Reply) (target : Row) (completed_at : ℕ)
      → is_same_request p c' (closed digest_of (opened digest_of p c now) reply target completed_at)
        ≡ true
      → (same_operation c.operation c'.operation ≡ true)
        × (c'.target_external_id ≡ c.target_external_id)
        × (c'.fingerprint ≡ c.fingerprint)
  same_request p c c' now reply target completed_at h = (
    ground arith,
    same_option-eq c.target_external_id c'.target_external_id (ground arith),
    sym ((text_eq_iff c.fingerprint c'.fingerprint).0 (ground arith)),
  )

  -- After a request with an idempotency key has changed the rows, that key changes nothing until its
  -- retention of seven days is over: whatever is sent with it, and whatever happened in between that
  -- left its record, a reply is the replay of the same request, and the rows stay as they are.
  pub execute_once :
      (p : Principal) (c c' : Claim) (mutate mutate' : Mutation)
      (now completed_at later later_at : ℕ) (db db1 db2 db3 : Db) (reply reply' : Reply)
      → execute digest_of p (some c) mutate now completed_at db ≡ ok (reply, db1)
      → reply.replayed ≡ false
      → c'.key ≡ c.key
      → record_of p c db2 ≡ record_of p c db1
      → later < completed_at + idempotency_retention_ms
      → execute digest_of p (some c') mutate' later later_at db2 ≡ ok (reply', db3)
      → (db3 ≡ db2)
        × (reply'.replayed ≡ true)
        × (same_operation c.operation c'.operation ≡ true)
        × (c'.target_external_id ≡ c.target_external_id)
        × (c'.fingerprint ≡ c.fingerprint)
  execute_once p c c' mutate mutate' now completed_at later later_at db db1 db2 db3 reply reply' h
        fresh key same early k =
      let (target, stored) = executed_record p c mutate now completed_at db db1 reply h fresh in
      let r = closed digest_of (opened digest_of p c now) reply target completed_at in
      let at = ap (λ d. db2.records p.integration_id (digest_of d)) key ∙ same ∙ stored in
      let (kept, replayed, request) =
        completed_keeps p c' mutate' later later_at db2 db3 reply' r at refl early k in
      let (operation, external, fingerprint) =
        same_request p c c' now reply target completed_at request in
      (kept, replayed, operation, external, fingerprint)
