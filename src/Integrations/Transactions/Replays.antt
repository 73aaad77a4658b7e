-- ===== src/Integrations/Transactions/Replays.antt =====
-- What an integration is answered when it sends a request with an idempotency key again.
use monqom.Common.{◌+◌, ◌<◌, ◌≡◌, refl, sym, ap, ◌∙◌, true, false, Option, none, some, arith}
use monqom.Common.Results.{Outcome, ok, err, ◌>>=◌, >>=-eq-ok}
use monqom.Common.Text.{Text, codes}
use monqom.Integrations.Contract.{
  Failure, Command, normalize_external_id, normalize_idempotency_key, assert_version,
  normalize_command,
}
use monqom.Integrations.Ledger.{Row, IdempotencyRecord, creating, updating, deleting, Db}
use monqom.Integrations.Ownership.{
  Principal, Reply, Claim, Mutation, are_denied, refers, find_target, assert_scope, execute,
  text_of, idempotency_retention_ms,
}
use monqom.Integrations.Ownership.Once.{record_of, executed_changes}
use monqom.Integrations.Ownership.Replays.{IsRepeatable, retained, execute_replays}
use monqom.Integrations.Transactions.{
  Surroundings, Moment, fingerprint_create, fingerprint_update, fingerprint_delete, create_claim,
  changed, create_external_in, update_external_in, delete_external_in, attempt_again,
  create_idempotently, update_idempotently, delete_idempotently,
}
use monqom.Integrations.Transactions.Repeats.{
  create_external_in-IsRepeatable, update_external_in-IsRepeatable, delete_external_in-IsRepeatable,
}
use monqom.Integrations.Transactions.Runs.{
  ExternalRequest, create_external, update_external, delete_external, answer,
}

module _ (e : Surroundings) where
  open e use {lower, upper, digest_of}

  -- The claim that a request makes on its idempotency key.
  abbrev pub claim_of : ExternalRequest → Outcome Failure (Option Claim)
  claim_of (create_external key input) = do
    c ← normalize_command lower upper input
    create_claim e key c
  claim_of (update_external key version input) = do
    c ← normalize_command lower upper input
    external_id ← normalize_external_id (text_of c.external_id)
    key ← normalize_idempotency_key key
    fingerprint ← fingerprint_update e c version
    ok (
        some (record {
          key = key;
          operation = updating;
          target_external_id = some external_id;
          fingerprint = fingerprint;
        }))
  claim_of (delete_external key external_id version) = do
    id ← normalize_external_id external_id
    key ← normalize_idempotency_key key
    fingerprint ← fingerprint_delete e id version
    ok (
        some (record {
          key = key;
          operation = deleting;
          target_external_id = some id;
          fingerprint = fingerprint;
        }))

  some_claim :
      (c c' : Claim)
      → ◌≡◌ {A = Outcome Failure (Option Claim)} (ok (some c)) (ok (some c'))
      → c ≡ c'
  some_claim c c' h = cc

  -- The claim of a creation names the operation and the transaction.
  create_claim-some :
      (key : Option Text) (c : Command) (claim : Claim)
      → create_claim e key c ≡ ok (some claim)
      → (claim.operation ≡ creating) × (claim.target_external_id ≡ c.external_id)
  create_claim-some none c claim h = cc
  create_claim-some (some key) c claim h =
      let (_, _, k1) = >>=-eq-ok (normalize_idempotency_key key) _ h in
      let (_, _, k2) = >>=-eq-ok (fingerprint_create e c) _ k1 in
      let same = some_claim _ claim k2 in
      (ap (λ x. x.operation) (sym same), ap (λ x. x.target_external_id) (sym same))

  attempt_again_same :
      (o : Outcome Failure (Reply × Db)) (external_id : Option Text)
      → attempt_again e o external_id o ≡ o
  attempt_again_same (ok answer) external_id = refl
  attempt_again_same (err failure) external_id = ground arith

  -- A request whose claim is known runs its changes at any time and on any rows.
  record IsRun (p : Principal) (r : ExternalRequest) (c : Claim) : Type 0 where
    changes : Moment → Mutation
    runs :
        (m : Moment) (db : Db)
        → answer e p r m db ≡ execute digest_of p (some c) (changes m) m.now m.completed_at db
    repeatable :
        (m : Moment) (db db' : Db) (reply : Reply) (target : Row)
        → changes m db ≡ ok (reply, target, db')
        → IsRepeatable c reply

  answer-IsRun :
      (p : Principal) (r : ExternalRequest) (m : Moment) (db db' : Db) (reply : Reply) (c : Claim)
      → claim_of r ≡ ok (some c)
      → answer e p r m db ≡ ok (reply, db')
      → IsRun p r c
  unfolding answer create_idempotently update_idempotently delete_idempotently
  answer-IsRun p (create_external key input) m db db' reply c claimed h =
      let (_, scope, _) = >>=-eq-ok (assert_scope p (codes "transactions:create")) _ h in
      let (command, normal, named) = >>=-eq-ok (normalize_command lower upper input) _ claimed in
      let (o, t) = create_claim-some key command c named in
      record {
        changes = λ m. create_external_in e p command false;
        runs = λ m db. rw (scope, normal, named) (attempt_again_same _ command.external_id);
        repeatable = λ m db db' reply target.
            create_external_in-IsRepeatable e p command c db db' reply target o t;
      }
  answer-IsRun p (update_external key version input) m db db' reply c claimed h =
      let (_, scope, h1) = >>=-eq-ok (assert_scope p (codes "transactions:update-own")) _ h in
      let (_, positive, _) = >>=-eq-ok (assert_version version) _ h1 in
      let (command, normal, k1) = >>=-eq-ok (normalize_command lower upper input) _ claimed in
      let (external_id, named, k2) =
        >>=-eq-ok (normalize_external_id (text_of command.external_id)) _ k1 in
      let (key', keyed, k3) = >>=-eq-ok (normalize_idempotency_key key) _ k2 in
      let (fingerprint, printed, k4) = >>=-eq-ok (fingerprint_update e command version) _ k3 in
      let same = some_claim _ c k4 in
      record {
        changes = λ m. update_external_in e p external_id version command;
        runs = λ m db.
            rw (scope, positive, normal, named, keyed, printed)
              (ap
                (λ x.
                  execute digest_of p (some x) (update_external_in e p external_id version command)
                    m.now m.completed_at db)
                same);
        repeatable = λ m db db' reply target.
            update_external_in-IsRepeatable e p external_id version command c db db' reply target
              (ap (λ x. x.operation) (sym same));
      }
  answer-IsRun p (delete_external key external_id version) m db db' reply c claimed h =
      let (_, scope, h1) = >>=-eq-ok (assert_scope p (codes "transactions:delete-own")) _ h in
      let (_, positive, _) = >>=-eq-ok (assert_version version) _ h1 in
      let (id, named, k1) = >>=-eq-ok (normalize_external_id external_id) _ claimed in
      let (key', keyed, k2) = >>=-eq-ok (normalize_idempotency_key key) _ k1 in
      let (fingerprint, printed, k3) = >>=-eq-ok (fingerprint_delete e id version) _ k2 in
      let same = some_claim _ c k3 in
      record {
        changes = λ m. delete_external_in e p id version m.deleted_at;
        runs = λ m db.
            rw (scope, positive, named, keyed, printed)
              (ap
                (λ x.
                  execute digest_of p (some x) (delete_external_in e p id version m.deleted_at)
                    m.now m.completed_at db)
                same);
        repeatable = λ m db db' reply target.
            delete_external_in-IsRepeatable e p id version m.deleted_at c db db' reply target;
      }

  -- A request with an idempotency key that was answered, and not as a replay, sent again within the
  -- retention of seven days, on any rows in which its record is still there, the integration exists, and the
  -- target and the category and payment source that the record keeps are in reach of the principal,
  -- is answered as the first time, marked as a replay, and changes nothing. That holds for creating,
  -- updating and deleting.
  pub answer_replays :
      (p : Principal) (r : ExternalRequest) (m later : Moment) (db db1 db2 : Db) (reply : Reply)
      (c : Claim) (kept : IdempotencyRecord) (target : Row)
      → claim_of r ≡ ok (some c)
      → answer e p r m db ≡ ok (reply, db1)
      → reply.replayed ≡ false
      → record_of digest_of p c db1 ≡ some kept
      → record_of digest_of p c db2 ≡ some kept
      → later.now < m.completed_at + idempotency_retention_ms
      → db2.integrations p.workspace_id p.integration_id ≡ true
      → find_target p kept.target_transaction_id db2 ≡ some target
      → are_denied p (refers target) db2 ≡ false
      → are_denied p (retained kept) db2 ≡ false
      → answer e p r later db2 ≡ ok (record reply { replayed = true }, db2)
  answer_replays p r m later db db1 db2 reply c kept target claimed h fresh at1 at2 early identity
        found allowed still =
      let run = answer-IsRun p r m db db1 reply c claimed h in
      let ran = sym (run.runs m db) ∙ h in
      let (row, start, changed, made) =
        executed_changes digest_of p c (run.changes m) m.now m.completed_at db db1 reply ran
          fresh in
      run.runs later db2
      ∙ execute_replays digest_of p c (run.changes m) (run.changes later) m.now m.completed_at
          later.now later.completed_at db db1 db2 reply kept target ran fresh
          (run.repeatable m start changed reply row made) at1 at2 early identity found allowed still
