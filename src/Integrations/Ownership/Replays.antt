-- ===== src/Integrations/Ownership/Replays.antt =====
-- What a request is answered when it is sent again: the reply of `replay`.
use monqom.Common.{
  ℕ, ◌+◌, ◌<◌, ◌≡◌, refl, sym, ap, ◌∙◌, subst, ◌⊎◌, inl, inr, true, false, Option, none, some,
  arith,
}
use monqom.Common.Results.{ok}
use monqom.Common.Text.{Text, text_eq_iff}
use monqom.Integrations.Ledger.{
  Row, Operation, creating, updating, deleting, transaction_body, exists_body, no_body,
  IdempotencyRecord, Db,
}
use monqom.Integrations.Ownership.{
  Principal, Reply, Claim, References, Mutation, admit, same_operation, same_option, refers,
  are_denied, assert_references, find_target, text_of, is_creating, stored_reply, replay, opened,
  closed, execute, idempotency_retention_ms, replays,
}
use monqom.Integrations.Ownership.Once.{record_of, executed_record, completed_admits}

-- A reply that its record keeps whole: that of a deletion, of a creation of what exists, or of a
-- transaction that was created or updated.
abbrev pub IsRepeatable : Claim → Reply → Type 0
IsRepeatable c reply =
    ((reply.response_status ≡ 204) × (reply.body ≡ no_body) × (reply.etag ≡ none))
    ⊎ ((is_creating c.operation ≡ true)
        × (reply.response_status ≡ 200)
        × (reply.body ≡ exists_body (text_of c.target_external_id))
        × (reply.etag ≡ none))
    ⊎ ((row : Row) × (reply.body ≡ transaction_body row)
        × ((reply.response_status ≡ 201)
            ⊎ ((reply.response_status ≡ 200) × (is_creating c.operation ≡ false))))

-- What `replay` checks last.
abbrev pub retained : IdempotencyRecord → References
retained r = record {
  category_id = r.retained_category_id;
  payment_source_id = text_of r.retained_payment_source_id;
  type = none;
}

same_operation_refl : (o : Operation) → same_operation o o ≡ true
same_operation_refl creating = refl
same_operation_refl updating = refl
same_operation_refl deleting = refl

same_option_refl : (a : Option Text) → same_option a a ≡ true
same_option_refl none = refl
same_option_refl (some a) = (text_eq_iff a a).1 refl

some-injective : (a b : IdempotencyRecord) → some a ≡ some b → a ≡ b
some-injective a b e = cc

module _ (digest_of : Text → Text) where
  stored_reply-closed :
      (p : Principal) (c : Claim) (now completed_at : ℕ) (reply : Reply) (target : Row)
      → IsRepeatable c reply
      → stored_reply (closed digest_of (opened digest_of p c now) reply target completed_at)
        ≡ ok (record reply { replayed = true })
  unfolding stored_reply
  stored_reply-closed p c now completed_at reply target (inl gone) = ground arith
  stored_reply-closed p c now completed_at reply target (inr (inl there)) = ground arith
  stored_reply-closed p c now completed_at reply target (inr (inr (row, body, inl made))) =
      ground arith
  stored_reply-closed p c now completed_at reply target (inr (inr (row, body, inr kept))) =
      ground arith

  admit-closed :
      (p : Principal) (c : Claim) (now completed_at later : ℕ) (reply : Reply) (target : Row)
      → later < completed_at + idempotency_retention_ms
      → admit p c
          (some (closed digest_of (opened digest_of p c now) reply target completed_at))
          later
        ≡ replays (closed digest_of (opened digest_of p c now) reply target completed_at)
  admit-closed p c now completed_at later reply target early =
      completed_admits digest_of p c _ later refl early
      ∙ ground (
        arith,
        same_operation_refl c.operation,
        same_option_refl c.target_external_id,
        (text_eq_iff c.fingerprint c.fingerprint).1 refl,
      )

  replay-closed :
      (p : Principal) (r : IdempotencyRecord) (db : Db) (target : Row) (source : Text)
      (reply : Reply)
      → find_target p r.target_transaction_id db ≡ some target
      → are_denied p (refers target) db ≡ false
      → r.retained_payment_source_id ≡ some source
      → are_denied p (retained r) db ≡ false
      → stored_reply r ≡ ok reply
      → replay p r db ≡ ok reply
  unfolding replay assert_references
  replay-closed p r db target source reply found allowed kept still answers =
      let still' : are_denied p
            (record {
              category_id = r.retained_category_id;
              payment_source_id = source;
              type = none;
            })
            db
          ≡ false =
        subst
          (λ o.
            are_denied p
              (record {
                category_id = r.retained_category_id;
                payment_source_id = text_of o;
                type = none;
              })
              db
            ≡ false)
          kept still in
      ground arith

  -- A reply that its record keeps whole is given again, within the retention of seven days, while the
  -- record, the target and what it referred to are in reach.
  pub execute_replays :
      (p : Principal) (c : Claim) (mutate mutate' : Mutation) (now completed_at later later_at : ℕ)
      (db db1 db2 : Db) (reply : Reply) (r : IdempotencyRecord) (target : Row)
      → execute digest_of p (some c) mutate now completed_at db ≡ ok (reply, db1)
      → reply.replayed ≡ false
      → IsRepeatable c reply
      → record_of digest_of p c db1 ≡ some r
      → record_of digest_of p c db2 ≡ some r
      → later < completed_at + idempotency_retention_ms
      → db2.integrations p.workspace_id p.integration_id ≡ true
      → find_target p r.target_transaction_id db2 ≡ some target
      → are_denied p (refers target) db2 ≡ false
      → are_denied p (retained r) db2 ≡ false
      → execute digest_of p (some c) mutate' later later_at db2
        ≡ ok (record reply { replayed = true }, db2)
  unfolding execute
  execute_replays p c mutate mutate' now completed_at later later_at db db1 db2 reply r target h
        fresh whole at1 at2 early identity found allowed still =
      let (target', stored) =
        executed_record digest_of p c mutate now completed_at db db1 reply h fresh in
      let closed_record = closed digest_of (opened digest_of p c now) reply target' completed_at in
      let same : r ≡ closed_record = some-injective r _ (sym at1 ∙ stored) in
      let admitted : admit p c (record_of digest_of p c db2) later ≡ replays r =
        ap (λ o. admit p c o later) at2
        ∙ subst (λ x. admit p c (some x) later ≡ replays x) (sym same)
            (admit-closed p c now completed_at later reply target' early) in
      let answers : replay p r db2 ≡ ok (record reply { replayed = true }) =
        replay-closed p r db2 target target'.payment_source_id (record reply { replayed = true })
          found allowed (ap (λ x. x.retained_payment_source_id) same) still
          (ap stored_reply same ∙ stored_reply-closed p c now completed_at reply target' whole) in
      rw (identity, admitted, answers)
