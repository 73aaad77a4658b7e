-- ===== src/Integrations/Transactions/Versions.antt =====
-- Versions: of two changes that expect the same version only one is made.
use monqom.Common.{
  ℕ, ◌+◌, ◌≡◌, refl, sym, ap, ◌∙◌, subst, Bool, true, false, not, ◌&&◌, none, some, arith, ◌==◌,
  if◌then◌else◌, any, find,
}
use monqom.Common.Results.{
  Outcome, ok, err, >>=-eq-ok, throw_if, throw_if-eq-ok, or_throw, or_throw-eq-ok,
}
use monqom.Common.Tables.{find-update_rows, find-holds, find-gone, any-find}
use monqom.Common.Text.{Text}
use monqom.Integrations.Contract.{
  Failure, not_found, precondition_failed, version_mismatch, transaction_not_found, Command,
}
use monqom.Integrations.Ledger.{Row, Db, is_null, is_keyed, find_keyed}
use monqom.Integrations.Ledger.Laws.{IsConsistent}
use monqom.Integrations.Ownership.{Principal, Reply, refers, assert_references, require_owned}
use monqom.Integrations.Transactions.{
  Surroundings, references_of, resolve_financials, is_current, changed, changed_rows,
  update_external_in, deleted, delete_external_in,
}

abbrev live : Principal → Text → Row → Bool
live p external_id r =
    is_keyed p.workspace_id p.integration_id external_id r && is_null r.deleted_at

some-injective : (a b : Row) → some a ≡ some b → a ≡ b
some-injective a b h = cc

pub third :
    {A B C : Type 0} (a a' : A) (b b' : B) (c c' : C)
    → ◌≡◌ {A = Outcome Failure (A × B × C)} (ok (a, b, c)) (ok (a', b', c'))
    → c ≡ c'
third a a' b b' c c' h = cc

module _ (e : Surroundings) (p : Principal) (external_id : Text) where
  -- The row that a request names, with the version that it has.
  abbrev pub HasVersion : ℕ → Db → Type 0
  HasVersion version db =
      (r : Row) × (find_keyed db p.workspace_id p.integration_id external_id false ≡ some r)
      × (r.version ≡ version)

  updated :
      (version : ℕ) (c : Command) (base_amount : ℕ) (old : Row) (db : Db)
      → find_keyed db p.workspace_id p.integration_id external_id false ≡ some old
      → old.version ≡ version
      → HasVersion
          (version + 1)
          (changed_rows e (is_current e p external_id old.id version) (changed e c base_amount) db)
  updated version c base_amount old db there at =
      let current = is_current e p external_id old.id version in
      let holds = find-holds (live p external_id) db.transactions old there in
      let hit : current old ≡ true = ground arith in
      let found =
        find-update_rows (live p external_id) current (changed e c base_amount) db.transactions old
          (λ r h. h) (λ r h. h) there in
      (
        changed e c base_amount old,
        found ∙ ap (λ b. some (if b then changed e c base_amount old else old)) hit,
        omega arith,
      )

  -- An accepted update found the version that it expects, and leaves the next one.
  pub update_external_in-version :
      (version : ℕ) (c : Command) (db db' : Db) (reply : Reply) (row : Row)
      → update_external_in e p external_id version c db ≡ ok (reply, row, db')
      → HasVersion version db × HasVersion (version + 1) db'
  unfolding update_external_in require_owned
  update_external_in-version version c db db' reply row h =
      let (old, found, h1) = >>=-eq-ok (require_owned p external_id db) _ h in
      let (_, _, h2) = >>=-eq-ok (assert_references p (refers old) db true) _ h1 in
      let (_, _, h3) = >>=-eq-ok (assert_references p (references_of e c) db false) _ h2 in
      let (u, same, h4) =
        >>=-eq-ok (throw_if (not (old.version == version)) (precondition_failed version_mismatch)) _
          h3 in
      let (base_amount, _, h5) = >>=-eq-ok (resolve_financials e p.workspace_id c db) _ h4 in
      let current = is_current e p external_id old.id version in
      let (_, _, h6) =
        >>=-eq-ok
          (throw_if (not (any current db.transactions)) (precondition_failed version_mismatch)) _
          h5 in
      let (row', _, h7) =
        >>=-eq-ok
          (or_throw
            (find
              (λ r. (r.id == old.id && r.workspace_id == p.workspace_id) && is_null r.deleted_at)
              (changed_rows e current (changed e c base_amount) db).transactions)
            (precondition_failed version_mismatch))
          _ h6 in
      let there = or_throw-eq-ok _ (not_found transaction_not_found) old found in
      let at : old.version ≡ version =
        ground (arith, throw_if-eq-ok _ (precondition_failed version_mismatch) u same) in
      (
        (old, there, at),
        subst (HasVersion (version + 1)) (third _ reply _ row _ db' h7)
            (updated version c base_amount old db there at),
      )

  pub HasVersion-unique : (v w : ℕ) (db : Db) → HasVersion v db → HasVersion w db → v ≡ w
  HasVersion-unique v w db (r, found, at) (s, found', at') =
      let same : r ≡ s = some-injective r s (sym found ∙ found') in
      sym at ∙ ap (λ x. x.version) same ∙ at'

  live_keyed :
      (r : Row)
      → live p external_id r ≡ true
      → is_keyed p.workspace_id p.integration_id external_id r ≡ true
  live_keyed r h = ground arith

  current_live :
      (id version : ℕ) (r : Row)
      → is_current e p external_id id version r ≡ true
      → live p external_id r ≡ true
  current_live id version r h = ground arith

  -- A deletion finds the version that it expects too.
  pub delete_external_in-version :
      (version at : ℕ) (db db' : Db) (reply : Reply) (row : Row)
      → IsConsistent db
      → delete_external_in e p external_id version at db ≡ ok (reply, row, db')
      → HasVersion version db
        × (find_keyed db' p.workspace_id p.integration_id external_id false ≡ none)
  unfolding delete_external_in require_owned
  delete_external_in-version version at db db' reply row fine h =
      let (old, found, h1) = >>=-eq-ok (require_owned p external_id db) _ h in
      let (_, _, h2) = >>=-eq-ok (assert_references p (refers old) db true) _ h1 in
      let current = is_current e p external_id old.id version in
      let (u, some_row, h3) =
        >>=-eq-ok
          (throw_if (not (any current db.transactions)) (precondition_failed version_mismatch)) _
          h2 in
      let there = or_throw-eq-ok _ (not_found transaction_not_found) old found in
      let is_there : any current db.transactions ≡ true =
        ground (arith, throw_if-eq-ok _ (precondition_failed version_mismatch) u some_row) in
      let keyed = is_keyed p.workspace_id p.integration_id external_id in
      let once = fine.keys p.workspace_id p.integration_id external_id in
      let hit =
        any-find (live p external_id) keyed current db.transactions old (λ r. live_keyed r)
          (λ r. current_live old.id version r) once there is_there in
      let gone =
        find-gone (live p external_id) keyed current (deleted e at) db.transactions old
          (λ r. live_keyed r) (λ r. refl) (λ r l. absurd (ground arith)) once there hit
          (ground arith) in
      (
        (old, there, ground arith),
        subst (λ d. find_keyed d p.workspace_id p.integration_id external_id false ≡ none)
            (third _ reply _ row _ db' h3) gone,
      )

  -- After an update that expected a version, no update and no deletion that expects that version
  -- is made on the rows that it left, where identifiers and external ids are unique in these.
  pub update_external_in_once :
      (version : ℕ) (c : Command) (db db' : Db) (reply : Reply) (row : Row)
      → update_external_in e p external_id version c db ≡ ok (reply, row, db')
      → IsConsistent db'
      → ((c' : Command) (reply' : Reply) (row' : Row) (db2 : Db)
          → ¬ (update_external_in e p external_id version c' db' ≡ ok (reply', row', db2)))
        × ((at : ℕ) (reply' : Reply) (row' : Row) (db2 : Db)
            → ¬ (delete_external_in e p external_id version at db' ≡ ok (reply', row', db2)))
  update_external_in_once version c db db' reply row h fine =
      let (_, next) = update_external_in-version version c db db' reply row h in
      (
        λ c' reply' row' db2 k. absurd (
            omega (
              arith,
              HasVersion-unique (version + 1) version db' next
                  (update_external_in-version version c' db' db2 reply' row' k).0,
            )),
        λ at reply' row' db2 k. absurd (
            omega (
              arith,
              HasVersion-unique (version + 1) version db' next
                  (delete_external_in-version version at db' db2 reply' row' fine k).0,
            )),
      )

  -- A deletion takes the transaction out of reach: on the rows that it leaves, updates and deletions
  -- of that external id, of any version, find nothing. Identifiers and external ids are unique.
  pub delete_external_in_gone :
      (version at : ℕ) (db db' : Db) (reply : Reply) (row : Row)
      → delete_external_in e p external_id version at db ≡ ok (reply, row, db')
      → IsConsistent db
      → ((v : ℕ) (c : Command)
          → update_external_in e p external_id v c db' ≡ err (not_found transaction_not_found))
        × ((v t : ℕ)
            → delete_external_in e p external_id v t db' ≡ err (not_found transaction_not_found))
  unfolding update_external_in delete_external_in require_owned
  delete_external_in_gone version at db db' reply row h fine =
      let (_, gone) = delete_external_in-version version at db db' reply row fine h in
      (λ v c. rw gone, λ v t. rw gone)
