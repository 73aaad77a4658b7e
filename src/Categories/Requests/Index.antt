-- ===== src/Categories/Requests/Index.antt =====
-- The check of names that the service makes before it writes, against the unique index of
-- backend/prisma/migrations/0019_security_foundations/migration.sql.
use monqom.Common.{
  ◌≡◌, ◌≢◌, refl, Bool, true, false, not, ◌&&◌, ◌||◌, Option, none, some, List, arith, any, find,
  push,
}
use monqom.Common.Results.{
  Outcome, ok, err, ◌>>=◌, throw_if, or_throw, throw_if-eq-ok, or_throw-eq-ok,
}
use monqom.Common.Tables.{update_rows, any-All-not, find-only, find-holds, All-both}
use monqom.Common.Text.{Text, text_eq, text_eq_iff}
use monqom.Integrations.Contract.{TransactionType}
use monqom.Categories.Rows.{
  Category, CategoryError, unique_constraint, CategoryAction, category_created, category_updated,
  CategoryDb, is_absent, is_active, of_type, with_id, is_in, is_child, breaks_index,
}
use monqom.Categories.Hierarchy.{category_not_found}
use monqom.Categories.Checks.{
  CategoryInput, CategoryValue, validate, is_except, bad_parent, name_taken, active_parent,
  check_parent, type_or_expense, next_order,
}
use monqom.Categories.Service.{
  assert_unique, new_category, renamed, store, create_category_in, update_category_in,
}
use monqom.Categories.Forest.{IsForest}
use monqom.Categories.Requests.Names.{breaks_index-after, breaks_index-push}

-- The next step of a chain that ends in an exception that the first step does not throw.
past :
    {E A B : Type 0} (m : Outcome E A) (k : A → Outcome E B) (x : E)
    → ¬ (m ≡ err x)
    → (m >>= k) ≡ err x
    → (a : A) × (m ≡ ok a) × (k a ≡ err x)
past (ok a) k x n h = (a, refl, h)
past (err y) k x n h = absurd (n (ground arith))

throw_if-err :
    (b : Bool) (x : CategoryError)
    → x ≢ unique_constraint
    → ¬ (throw_if b x ≡ err unique_constraint)
throw_if-err true x n h = n (cc)
throw_if-err false x n h = cc

or_throw-err :
    (o : Option Category) (x : CategoryError)
    → x ≢ unique_constraint
    → ¬ (or_throw o x ≡ err unique_constraint)
or_throw-err none x n h = n (cc)
or_throw-err (some c) x n h = cc

active_parent-err :
    (id w : Text) (except : Option Text) (type : Option TransactionType) (rows : List Category)
    → ¬ (active_parent id w except type rows ≡ err unique_constraint)
active_parent-err id w except type rows h =
    let other : bad_parent ≢ unique_constraint = λ k. cc in
    let test = λ (c : Category). is_in w id c && is_active c && of_type type c in
    let (parent, _, k) =
      past (or_throw (find test rows) bad_parent) _ unique_constraint (or_throw-err _ _ other) h in
    throw_if-err (not (is_absent parent.parent_id) || is_except except parent.id) bad_parent other k

check_parent-err :
    (p : Option Text) (w : Text) (except : Option Text) (type : Option TransactionType)
    (rows : List Category)
    → ¬ (check_parent p w except type rows ≡ err unique_constraint)
check_parent-err none w except type rows h = cc
check_parent-err (some p) w except type rows h = active_parent-err p w except type rows h

validate-err : (input : CategoryInput) → ¬ (validate input ≡ err unique_constraint)
unfolding validate
validate-err input h = ground arith

store-err :
    (lower : Text → Text) (action : CategoryAction) (c : Category) (user_id : Text)
    (rows : List Category) (db : CategoryDb)
    → breaks_index lower rows ≡ false
    → ¬ (store lower action c user_id rows db ≡ err unique_constraint)
store-err lower action c user_id rows db e h = ground arith

module _ (fold lower : Text → Text)
    (agree : (s t : Text) → text_eq (lower s) (lower t) ≡ text_eq (fold s) (fold t))
    (db : CategoryDb) (fine : IsForest db.categories)
    (apart : breaks_index lower db.categories ≡ false) where
  taken : name_taken ≢ unique_constraint
  taken k = cc

  create_category_in-index :
      (input : CategoryInput) (value : CategoryValue) (w user_id new_id : Text)
      → any (with_id new_id) db.categories ≡ false
      → ¬ (create_category_in fold lower input value w user_id new_id db ≡ err unique_constraint)
  unfolding create_category_in
  create_category_in-index input value w user_id new_id unused h =
      let type = type_or_expense input.type in
      let rows = db.categories in
      let (_, _, k1) =
        past (check_parent value.parent_id w none (some type) rows) _ unique_constraint
          (check_parent-err value.parent_id w none (some type) rows) h in
      let (_, free, k2) =
        past (assert_unique fold value.name value.parent_id w none type rows) _ unique_constraint
          (throw_if-err _ _ taken) k1 in
      let (_, _, k3) =
        past (throw_if (any (with_id new_id) rows) unique_constraint) _ unique_constraint
          (λ k. ground arith) k2 in
      let category = new_category value type w new_id (next_order value.parent_id w type rows) in
      store-err lower category_created category user_id (push rows category) db
        (breaks_index-push fold lower agree category rows (throw_if-eq-ok _ name_taken _ free)
          apart)
        k3

  update_category_in-index :
      (id : Text) (input : CategoryInput) (w user_id : Text)
      → ¬ (update_category_in fold lower id input w user_id db ≡ err unique_constraint)
  unfolding update_category_in
  update_category_in-index id input w user_id h =
      let rows = db.categories in
      let test = λ (c : Category). is_in w id c && is_active c in
      let (existing, found, k1) =
        past (or_throw (find test rows) category_not_found) _ unique_constraint
          (or_throw-err _ _ (λ k. cc)) h in
      let (value, _, k2) = past (validate input) _ unique_constraint (validate-err input) k1 in
      let (_, _, k3) =
        past (throw_if (any (is_child w id) rows && not (is_absent value.parent_id)) _) _
          unique_constraint (throw_if-err _ _ (λ k. cc)) k2 in
      let (_, _, k4) =
        past (check_parent value.parent_id w (some id) (some existing.type) rows) _
          unique_constraint (check_parent-err value.parent_id w (some id) (some existing.type) rows)
          k3 in
      let (_, free, k5) =
        past (assert_unique fold value.name value.parent_id w (some id) existing.type rows) _
          unique_constraint (throw_if-err _ _ taken) k4 in
      let there = or_throw-eq-ok (find test rows) category_not_found existing found in
      let held : test existing ≡ true = find-holds test rows existing there in
      let own : existing.workspace_id ≡ w =
        (text_eq_iff existing.workspace_id w).0 (ground (arith, held)) in
      let only =
        find-only test (with_id id) rows existing (λ c hit. ground arith) (fine.ids id) there in
      let unnamed = any-All-not _ rows (throw_if-eq-ok _ name_taken _ free) in
      store-err lower category_updated (renamed value existing.name existing) user_id
        (update_rows (with_id id) (renamed value existing.name) rows) db
        (breaks_index-after fold lower agree w id existing.name value existing own rows
          (All-both _ _ rows only unnamed) (fine.ids id) apart)
        k5

  -- The service's own check of names is enough for creating and updating a category: on rows that
  -- form a forest and keep the unique index of active siblings, where the database's LOWER and its
  -- comparison that ignores case hold the same names for equal and the drawn identifier is unused,
  -- neither of the two is refused by a unique index.
  pub categories_within_index :
      (id : Text) (input : CategoryInput) (value : CategoryValue) (w user_id new_id : Text)
      → any (with_id new_id) db.categories ≡ false
      → (¬ (create_category_in fold lower input value w user_id new_id db ≡ err unique_constraint))
        × (¬ (update_category_in fold lower id input w user_id db ≡ err unique_constraint))
  categories_within_index id input value w user_id new_id unused = (
    create_category_in-index input value w user_id new_id unused,
    update_category_in-index id input w user_id,
  )
