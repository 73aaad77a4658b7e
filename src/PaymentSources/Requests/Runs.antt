-- ===== src/PaymentSources/Requests/Runs.antt =====
-- What requests for payment sources keep.
use monqom.Common.{
  ℕ, ◌≡◌, refl, sym, ap, ◌∙◌, subst, inl, inr, true, false, not, ◌&&◌, Option, none, some, List, [],
  ◌∷◌, arith, any, find, filter, Bool-cases, Option-cases, All,
}
use monqom.Common.Results.{
  Outcome, ok, err, throw_if, or_throw, >>=-eq-ok, throw_if-eq-ok, or_throw-eq-ok,
}
use monqom.Common.Tables.{
  find-only, find-holds, any-found, All-weaken, All-find, filter-push_gone,
  filter-update_rows_among, update_rows,
}
use monqom.Common.Text.{Text, text_eq, text_eq_iff}
use monqom.PaymentSources.Rows.{
  PaymentSource, PaymentSourceDb, is_unarchived, has_id, is_usable, is_cash,
  find_active_payment_source_by_name, find_system_cash_payment_source,
  reset_last_payment_source_preferences, prefers, with_preference, find_payment_source_by_id,
  new_payment_source, edit_payment_source, edited, archived, mark_archived,
}
use monqom.PaymentSources.Service.{
  PaymentSourceError, PaymentSourceCommand, payment_source_not_found, payment_source_name_conflict,
  system_cash_protected, unique_constraint, PaymentSourceResponse, is_found,
  normalize_required_value, validate_payment_source_input, create_payment_source,
  update_payment_source_in, update_payment_source, archive_payment_source_in,
  archive_payment_source,
}
use monqom.PaymentSources.Tidy.{
  IsTidy, AreUsable, IsTidy-push, IsTidy-edited, IsTidy-archived, AreUsable-push, AreUsable-edited,
  AreUsable-archived,
}
use monqom.PaymentSources.Requests.{
  PaymentSourceRequest, create_source, update_source, archive_source, answer_source, rows_after,
  serve_sources,
}

-- Rows that fit together.
pub record IsSettled (fold : Text → Text) (db : PaymentSourceDb) : Type 0 where
  pub tidy : IsTidy fold db.payment_sources
  pub preferences : AreUsable db.payment_sources db.memberships

-- The rows still fit together, and the system's cash sources are the same.
abbrev pub Stays : (Text → Text) → PaymentSourceDb → PaymentSourceDb → Type 0
Stays fold db db' =
    IsSettled fold db' × (filter is_cash db'.payment_sources ≡ filter is_cash db.payment_sources)

second :
    (a a' : PaymentSourceResponse) (d d' : PaymentSourceDb)
    → ◌≡◌ {A = Outcome PaymentSourceError (PaymentSourceResponse × PaymentSourceDb)}
        (ok (a, d))
        (ok (a', d'))
    → d ≡ d'
second a a' d d' h = cc

not_found-none : (o : Option PaymentSource) → is_found o ≡ false → o ≡ none
not_found-none none h = refl
not_found-none (some s) h = cc

edit_payment_source-rows :
    (w id user name type : Text) (previous s : PaymentSource) (db db' : PaymentSourceDb)
    → edit_payment_source w id user name type previous db ≡ some (s, db')
    → (db'.payment_sources ≡ update_rows (is_usable w id) (edited name type) db.payment_sources)
      × (db'.memberships ≡ db.memberships)
unfolding edit_payment_source
edit_payment_source-rows w id user name type previous s db db' h =
    let rows = update_rows (is_usable w id) (edited name type) db.payment_sources in
    elim (Bool-cases (any (is_usable w id) db.payment_sources)) [
      | inr missing ↦ absurd (ground arith)
      | inl present ↦ elim (Option-cases (find (is_usable w id) rows)) [
        | inl lost ↦ absurd (ground arith)
        | inr (x, found) ↦ (ground arith, ground arith)
      ]
    ]

mark_archived-rows :
    (w id user : Text) (at : ℕ) (s : PaymentSource) (db db' : PaymentSourceDb)
    → mark_archived w id user at s db ≡ some db'
    → (db'.payment_sources ≡ update_rows (is_usable w id) (archived at) db.payment_sources)
      × (db'.memberships ≡ db.memberships)
unfolding mark_archived
mark_archived-rows w id user at s db db' h =
    elim (Bool-cases (any (is_usable w id) db.payment_sources)) [
      | inr missing ↦ absurd (ground arith)
      | inl present ↦ (ground arith, ground arith)
    ]

-- Rows with the sources and memberships of others that fit together.
IsSettled-as :
    (fold : Text → Text) (db' : PaymentSourceDb) (sources : List PaymentSource)
    → db'.payment_sources ≡ sources
    → IsTidy fold sources
    → AreUsable sources db'.memberships
    → IsSettled fold db'
IsSettled-as fold db' sources e tidy usable = record {
  tidy = subst (IsTidy fold) (sym e) tidy;
  preferences = subst (λ s. AreUsable s db'.memberships) (sym e) usable;
}

module _ (fold : Text → Text) (db : PaymentSourceDb) (fine : IsSettled fold db) where
  create_payment_source-Stays :
      (input : PaymentSourceCommand) (workspace_id user_id new_id : Text) (db' : PaymentSourceDb)
      (r : PaymentSourceResponse)
      → create_payment_source fold input workspace_id user_id new_id db ≡ ok (r, db')
      → Stays fold db db'
  unfolding create_payment_source
  create_payment_source-Stays input workspace_id user_id new_id db' r h =
      let (w, _, h1) = >>=-eq-ok (normalize_required_value workspace_id _) _ h in
      let (user, _, h2) = >>=-eq-ok (normalize_required_value user_id _) _ h1 in
      let ((name, type), _, h3) = >>=-eq-ok (validate_payment_source_input input) _ h2 in
      let taken = find_active_payment_source_by_name fold w name none db in
      let (_, free, h4) = >>=-eq-ok (throw_if (is_found taken) payment_source_name_conflict) _ h3 in
      let (_, unused, h5) =
        >>=-eq-ok (throw_if (any (has_id new_id) db.payment_sources) unique_constraint) _ h4 in
      let new = new_payment_source new_id w name type in
      let free' = not_found-none taken (throw_if-eq-ok _ payment_source_name_conflict _ free) in
      let unused' = throw_if-eq-ok _ unique_constraint _ unused in
      subst (Stays fold db) (second _ r _ db' h5) (
        record {
          tidy = IsTidy-push fold db.payment_sources fine.tidy new_id w name type unused' free';
          preferences = AreUsable-push db.payment_sources new db.memberships fine.preferences;
        },
        filter-push_gone is_cash db.payment_sources new refl,
      )

  -- The row that an operation finds is the only one with its identifier.
  only_usable :
      (w id : Text) (existing : PaymentSource)
      → find_payment_source_by_id w id false db ≡ some existing
      → All (λ s. has_id id s ≡ true → s ≡ existing) db.payment_sources
  only_usable w id existing found =
      find-only _ (has_id id) db.payment_sources existing (λ s h. ground arith) (fine.tidy.ids id)
        found

  no_cash :
      (w id : Text) (existing : PaymentSource)
      → All (λ s. has_id id s ≡ true → s ≡ existing) db.payment_sources
      → is_cash existing ≡ false
      → All (λ s. is_usable w id s ≡ true → is_cash s ≡ false) db.payment_sources
  no_cash w id existing only other =
      All-weaken _ _ db.payment_sources
        (λ s one h. subst (λ x. is_cash x ≡ false) (sym (one (ground arith))) other) only

  update_payment_source_in-Stays :
      (id w user name type : Text) (db' : PaymentSourceDb) (r : PaymentSourceResponse)
      → update_payment_source_in fold id w user name type db ≡ ok (r, db')
      → Stays fold db db'
  unfolding update_payment_source_in
  update_payment_source_in-Stays id w user name type db' r h =
      let (existing, found, h1) =
        >>=-eq-ok (or_throw (find_payment_source_by_id w id false db) payment_source_not_found) _
          h in
      let (_, other, h2) = >>=-eq-ok (throw_if (is_cash existing) system_cash_protected) _ h1 in
      let taken = find_active_payment_source_by_name fold w name (some id) db in
      let (_, free, h3) = >>=-eq-ok (throw_if (is_found taken) payment_source_name_conflict) _ h2 in
      let ((s, db1), done, h4) =
        >>=-eq-ok
          (or_throw (edit_payment_source w id user name type existing db) payment_source_not_found)
          _ h3 in
      let (rows, same) =
        edit_payment_source-rows w id user name type existing s db db1
          (or_throw-eq-ok _ payment_source_not_found _ done) in
      let free' = not_found-none taken (throw_if-eq-ok _ payment_source_name_conflict _ free) in
      let only = only_usable w id existing (or_throw-eq-ok _ payment_source_not_found _ found) in
      let other' = throw_if-eq-ok _ system_cash_protected _ other in
      subst (Stays fold db) (second _ r _ db' h4) (
        IsSettled-as fold db1 _ rows
            (IsTidy-edited fold db.payment_sources fine.tidy w id name type free')
            (subst (AreUsable _) (sym same)
              (AreUsable-edited db.payment_sources w id name type db.memberships fine.preferences)),
        ap (filter is_cash) rows
            ∙ filter-update_rows_among is_cash (is_usable w id) (edited name type)
                db.payment_sources (λ s. refl) (no_cash w id existing only other'),
      )

  cash_left :
      (w id : Text) (existing cash : PaymentSource)
      → All (λ s. has_id id s ≡ true → s ≡ existing) db.payment_sources
      → is_cash existing ≡ false
      → find_system_cash_payment_source w db ≡ some cash
      → any (λ s. is_usable w cash.id s && not (is_usable w id s)) db.payment_sources ≡ true
  cash_left w id existing cash only other found =
      let test = λ (s : PaymentSource). text_eq s.workspace_id w && is_cash s && is_unarchived s in
      let held : test cash ≡ true = find-holds test db.payment_sources cash found in
      let one = All-find _ test db.payment_sources cash only found in
      let own : has_id cash.id cash ≡ true = (text_eq_iff cash.id cash.id).1 refl in
      any-found test _ db.payment_sources cash found (elim (Bool-cases (has_id id cash)) [
        | inr away ↦ ground arith
        | inl same ↦
            let bad : is_cash cash ≡ false =
              subst (λ x. is_cash x ≡ false) (sym (one same)) other in
            absurd (ground arith)
      ])

  archive_payment_source_in-Stays :
      (id w user : Text) (at : ℕ) (db' : PaymentSourceDb) (r : PaymentSourceResponse)
      → archive_payment_source_in id w user at db ≡ ok (r, db')
      → Stays fold db db'
  unfolding archive_payment_source_in
  archive_payment_source_in-Stays id w user at db' r h =
      let (existing, found, h1) =
        >>=-eq-ok (or_throw (find_payment_source_by_id w id false db) payment_source_not_found) _
          h in
      let (_, other, h2) = >>=-eq-ok (throw_if (is_cash existing) system_cash_protected) _ h1 in
      let (cash, cash_found, h3) =
        >>=-eq-ok (or_throw (find_system_cash_payment_source w db) payment_source_not_found) _ h2 in
      let (db1, done, h4) =
        >>=-eq-ok (or_throw (mark_archived w id user at existing db) payment_source_not_found) _
          h3 in
      let (rows, same) =
        mark_archived-rows w id user at existing db db1
          (or_throw-eq-ok _ payment_source_not_found _ done) in
      let only = only_usable w id existing (or_throw-eq-ok _ payment_source_not_found _ found) in
      let other' = throw_if-eq-ok _ system_cash_protected _ other in
      let sources = update_rows (is_usable w id) (archived at) db.payment_sources in
      let left =
        cash_left w id existing cash only other'
          (or_throw-eq-ok _ payment_source_not_found _ cash_found) in
      subst (Stays fold db) (second _ r _ db' h4) (
        IsSettled-as fold (reset_last_payment_source_preferences w id cash.id db1) _ rows
            (IsTidy-archived fold db.payment_sources fine.tidy w id at)
            (subst
              (λ ms. AreUsable sources (update_rows (prefers w id) (with_preference cash.id) ms))
              (sym same)
              (AreUsable-archived db.payment_sources w id cash.id at db.memberships left
                fine.preferences)),
        ap (filter is_cash) rows
            ∙ filter-update_rows_among is_cash (is_usable w id) (archived at) db.payment_sources
                (λ s. refl) (no_cash w id existing only other'),
      )

  answer_source-Stays :
      (request : PaymentSourceRequest) (db' : PaymentSourceDb) (r : PaymentSourceResponse)
      → answer_source fold request db ≡ ok (r, db')
      → Stays fold db db'
  unfolding answer_source update_payment_source archive_payment_source
  answer_source-Stays (create_source input w user_id new_id) db' r h =
      create_payment_source-Stays input w user_id new_id db' r h
  answer_source-Stays (update_source input payment_source_id workspace_id user_id) db' r h =
      let (id, _, h1) = >>=-eq-ok (normalize_required_value payment_source_id _) _ h in
      let (w, _, h2) = >>=-eq-ok (normalize_required_value workspace_id _) _ h1 in
      let (user, _, h3) = >>=-eq-ok (normalize_required_value user_id _) _ h2 in
      let ((name, type), _, h4) = >>=-eq-ok (validate_payment_source_input input) _ h3 in
      update_payment_source_in-Stays id w user name type db' r h4
  answer_source-Stays (archive_source payment_source_id workspace_id user_id at) db' r h =
      let (id, _, h1) = >>=-eq-ok (normalize_required_value payment_source_id _) _ h in
      let (w, _, h2) = >>=-eq-ok (normalize_required_value workspace_id _) _ h1 in
      let (user, _, h3) = >>=-eq-ok (normalize_required_value user_id _) _ h2 in
      archive_payment_source_in-Stays id w user at db' r h3

  rows_after-Stays :
      (request : PaymentSourceRequest)
      (o : Outcome PaymentSourceError (PaymentSourceResponse × PaymentSourceDb))
      → answer_source fold request db ≡ o
      → Stays fold db (rows_after o db)
  rows_after-Stays request (ok (r, db')) h = answer_source-Stays request db' r h
  rows_after-Stays request (err e) h = (fine, refl)

-- Whatever requests change payment sources, in any order: if no two sources have the same identifier,
-- no two unarchived sources of a workspace have names that compare as equal, and each membership
-- prefers an unarchived source of its workspace, then that is so afterwards, and the system's cash
-- sources are the same as before.
pub serve_sources-Stays :
    (fold : Text → Text) (requests : List PaymentSourceRequest) (db : PaymentSourceDb)
    → IsSettled fold db
    → Stays fold db (serve_sources fold requests db)
serve_sources-Stays fold [] db fine = (fine, refl)
serve_sources-Stays fold (r ∷ rs) db fine =
    let (now, kept) = rows_after-Stays fold db fine r (answer_source fold r db) refl in
    let (then, all) = serve_sources-Stays fold rs _ now in (then, all ∙ kept)
