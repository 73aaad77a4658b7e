-- ===== src/Integrations/Transactions/Runs.antt =====
-- Sequences of requests of integrations.
use monqom.Common.{ℕ, ◌≡◌, refl, subst, false, Option, none, some, List, [], ◌∷◌, arith}
use monqom.Common.Results.{Outcome, ok, err, ◌>>=◌, >>=-eq-ok}
use monqom.Common.Text.{Text, codes}
use monqom.Integrations.Contract.{
  Failure, Command, normalize_external_id, normalize_idempotency_key, assert_version,
  normalize_command,
}
use monqom.Integrations.Ledger.{Db, set_record}
use monqom.Integrations.Ledger.Laws.{IsConsistent}
use monqom.Integrations.Ownership.{
  Principal, Reply, Claim, Mutation, Admission, proceeds, replays, refuses, admit, replay, opened,
  run_claimed, execute, assert_identity, assert_scope, text_of,
}
use monqom.Integrations.Transactions.{
  Surroundings, Moment, fingerprint_update, fingerprint_delete, create_claim, create_external_in,
  update_external_in, delete_external_in, attempt_again, create_idempotently, update_idempotently,
  delete_idempotently,
}
use monqom.Integrations.Transactions.Laws.{
  Keeps, Safe, create_external_in-Safe, update_external_in-Safe, delete_external_in-Safe,
}

pub data ExternalRequest : Type 0 where
  create_external : Option Text → Command → ExternalRequest
  update_external : Text → ℕ → Command → ExternalRequest
  delete_external : Text → Text → ℕ → ExternalRequest

-- A request that no other transaction comes in between.
unfoldable pub answer :
    Surroundings → Principal → ExternalRequest → Moment → Db → Outcome Failure (Reply × Db)
answer e p (create_external key input) m db = create_idempotently e p key input m none db
answer e p (update_external key version input) m db = update_idempotently e p key version input m db
answer e p (delete_external key external_id version) m db =
    delete_idempotently e p key external_id version m db

-- The rows after a request, which an exception leaves.
abbrev pub settle : Outcome Failure (Reply × Db) → Db → Db
settle (ok (_, db')) db = db'
settle (err _) db = db

abbrev pub serve : Surroundings → List (Principal × ExternalRequest × Moment) → Db → Db
serve e [] db = db
serve e ((p, r, m) ∷ requests) db = serve e requests (settle (answer e p r m db) db)

module _ (e : Surroundings) (p : Principal) where
  open e use {digest_of}

  second :
      (a a' : Reply) (b b' : Db)
      → ◌≡◌ {A = Outcome Failure (Reply × Db)} (ok (a, b)) (ok (a', b'))
      → b ≡ b'
  second a a' b b' h = cc

  run_claimed-Keeps :
      (c : Claim) (mutate : Mutation) (now completed_at : ℕ) (db db' : Db) (reply : Reply)
      → Safe e p mutate
      → run_claimed digest_of p c mutate now completed_at db ≡ ok (reply, db')
      → Keeps p db db'
  unfolding run_claimed
  run_claimed-Keeps c mutate now completed_at db db' reply safe h =
      let start = set_record p.integration_id (digest_of c.key) (opened digest_of p c now) db in
      let ((reply', target, db''), changes, k) = >>=-eq-ok (mutate start) _ h in
      let (fine, others) = safe start db'' reply' target changes in
      subst (Keeps p db) (second reply' reply _ db' k) (safe start db'' reply' target changes)

  by_admission :
      (c : Claim) (mutate : Mutation) (now completed_at : ℕ) (db db' : Db) (reply : Reply)
      (a : Admission)
      → Safe e p mutate
      → (elim a [
        | proceeds ↦ run_claimed digest_of p c mutate now completed_at db
        | replays r ↦ replay p r db >>= λ reply. ok (reply, db)
        | refuses failure ↦ err failure
      ])
        ≡ ok (reply, db')
      → Keeps p db db'
  by_admission c mutate now completed_at db db' reply proceeds safe h =
      run_claimed-Keeps c mutate now completed_at db db' reply safe h
  by_admission c mutate now completed_at db db' reply (replays r) safe h =
      let (again, _, k) = >>=-eq-ok (replay p r db) _ h in
      subst (Keeps p db) (second again reply db db' k) ((λ fine. fine), refl)
  by_admission c mutate now completed_at db db' reply (refuses failure) safe h = cc

  execute-Keeps :
      (claim : Option Claim) (mutate : Mutation) (now completed_at : ℕ) (db db' : Db)
      (reply : Reply)
      → Safe e p mutate
      → execute digest_of p claim mutate now completed_at db ≡ ok (reply, db')
      → Keeps p db db'
  unfolding execute
  execute-Keeps none mutate now completed_at db db' reply safe h =
      let (_, _, h1) = >>=-eq-ok (assert_identity p db) _ h in
      let ((reply', target, db''), changes, k) = >>=-eq-ok (mutate db) _ h1 in
      subst (Keeps p db) (second reply' reply _ db' k) (safe db db'' reply' target changes)
  execute-Keeps (some c) mutate now completed_at db db' reply safe h =
      let (_, _, h1) = >>=-eq-ok (assert_identity p db) _ h in
      by_admission c mutate now completed_at db db' reply
        (admit p c (db.records p.integration_id (digest_of c.key)) now) safe h1

  attempt-Keeps :
      (first again : Outcome Failure (Reply × Db)) (external_id : Option Text) (db db' : Db)
      (reply : Reply)
      → ((reply : Reply) (db' : Db) → first ≡ ok (reply, db') → Keeps p db db')
      → ((reply : Reply) (db' : Db) → again ≡ ok (reply, db') → Keeps p db db')
      → attempt_again e first external_id again ≡ ok (reply, db')
      → Keeps p db db'
  attempt-Keeps (ok (r, d)) again external_id db db' reply one two h = one reply db' h
  attempt-Keeps (err failure) again external_id db db' reply one two h =
      two reply db' (ground arith)

  -- A request of a principal that is answered keeps identifiers and the external ids of each
  -- integration unique, and leaves every row that is not of the principal's own integration.
  pub answer-Keeps :
      (r : ExternalRequest) (m : Moment) (db db' : Db) (reply : Reply)
      → answer e p r m db ≡ ok (reply, db')
      → Keeps p db db'
  unfolding answer create_idempotently update_idempotently delete_idempotently
  answer-Keeps (create_external key input) m db db' reply h =
      let (_, _, h1) = >>=-eq-ok (assert_scope p (codes "transactions:create")) _ h in
      let (c, _, h2) = >>=-eq-ok (normalize_command e.lower e.upper input) _ h1 in
      let (claim, _, h3) = >>=-eq-ok (create_claim e key c) _ h2 in
      let kept =
        λ (reply : Reply) (db' : Db)
            (k : execute digest_of p claim (create_external_in e p c false) m.now m.completed_at db
              ≡ ok (reply, db')).
          execute-Keeps claim (create_external_in e p c false) m.now m.completed_at db db' reply
            (create_external_in-Safe e p c false) k in
      attempt-Keeps _ _ c.external_id db db' reply kept kept h3
  answer-Keeps (update_external key version input) m db db' reply h =
      let (_, _, h1) = >>=-eq-ok (assert_scope p (codes "transactions:update-own")) _ h in
      let (_, _, h2) = >>=-eq-ok (assert_version version) _ h1 in
      let (c, _, h3) = >>=-eq-ok (normalize_command e.lower e.upper input) _ h2 in
      let (external_id, _, h4) = >>=-eq-ok (normalize_external_id (text_of c.external_id)) _ h3 in
      let (key', _, h5) = >>=-eq-ok (normalize_idempotency_key key) _ h4 in
      let (fingerprint, _, h6) = >>=-eq-ok (fingerprint_update e c version) _ h5 in
      execute-Keeps _ (update_external_in e p external_id version c) m.now m.completed_at db db'
        reply (update_external_in-Safe e p external_id version c) h6
  answer-Keeps (delete_external key external_id version) m db db' reply h =
      let (_, _, h1) = >>=-eq-ok (assert_scope p (codes "transactions:delete-own")) _ h in
      let (_, _, h2) = >>=-eq-ok (assert_version version) _ h1 in
      let (id, _, h3) = >>=-eq-ok (normalize_external_id external_id) _ h2 in
      let (key', _, h4) = >>=-eq-ok (normalize_idempotency_key key) _ h3 in
      let (fingerprint, _, h5) = >>=-eq-ok (fingerprint_delete e id version) _ h4 in
      execute-Keeps _ (delete_external_in e p id version m.deleted_at) m.now m.completed_at db db'
        reply (delete_external_in-Safe e p id version m.deleted_at) h5

settled :
    (e : Surroundings) (p : Principal) (r : ExternalRequest) (m : Moment) (db : Db)
    (o : Outcome Failure (Reply × Db))
    → answer e p r m db ≡ o
    → IsConsistent db
    → IsConsistent (settle o db)
settled e p r m db (ok (reply, db')) h fine = (answer-Keeps e p r m db db' reply h).0 fine
settled e p r m db (err failure) h fine = fine

-- Whatever requests integrations send, in any order, at most one transaction ever has a given
-- external id of an integration, deleted ones included, and at most one has a given identifier.
-- That is so to begin with.
pub serve-IsConsistent :
    (e : Surroundings) (requests : List (Principal × ExternalRequest × Moment)) (db : Db)
    → IsConsistent db
    → IsConsistent (serve e requests db)
serve-IsConsistent e [] db fine = fine
serve-IsConsistent e ((p, r, m) ∷ requests) db fine =
    serve-IsConsistent e requests _ (settled e p r m db (answer e p r m db) refl fine)
