-- ===== src/Categories/Requests/Shape.antt =====
-- The shape of categories under sequences of requests.
use monqom.Common.{
  ℕ, ◌≡◌, refl, sym, ap, ◌∙◌, subst, true, not, ◌&&◌, ◌||◌, Option, none, some, List, [], ◌∷◌,
  arith, any, find, length, ◌==◌,
}
use monqom.Common.Results.{
  Outcome, ok, err, throw_if, or_throw, >>=-eq-ok, throw_if-eq-ok, or_throw-eq-ok,
}
use monqom.Common.Tables.{find-only, find-holds}
use monqom.Common.Text.{Text, text_eq_iff}
use monqom.Categories.Rows.{
  Category, CategoryError, unique_constraint, category_created, category_updated, category_restored,
  CategoryDb, is_absent, is_active, with_id, is_in, is_child,
}
use monqom.Categories.Hierarchy.{CategoryResponse, Children, Order, category_not_found}
use monqom.Categories.Checks.{
  CategoryInput, CategoryValue, validate, check_parent, type_or_expense, next_order, has_duplicates,
}
use monqom.Categories.Service.{
  assert_unique, new_category, renamed, restored_now, reorder_ids, active_among, same_parents,
  create_category_in, create_category, update_category_in, archive_category, restore_category_in,
  reorder_categories_in, reorder_categories, reorder_from, record_reorder,
}
use monqom.Categories.Forest.{IsForest}
use monqom.Categories.Forest.Changes.{
  IsForest-archived, IsForest-reorder_from, IsForest-restored, IsForest-renamed, IsForest-push,
}
use monqom.Categories.Requests.{
  CategoryRequest, answer_category, archive_request, create_request, reorder_request,
  restore_request, serve_categories, settle, update_request,
}
use monqom.Categories.Requests.Parents.{
  mapped-eq-ok, new-attached, renamed-attached, restored-active, rows_of-eq-ok, second, store-rows,
}

module _ (fold lower : Text → Text) where
  create_category_in-IsForest :
      (input : CategoryInput) (value : CategoryValue) (w user_id new_id : Text)
      (db db' : CategoryDb) (r : CategoryResponse)
      → create_category_in fold lower input value w user_id new_id db ≡ ok (r, db')
      → IsForest db.categories
      → IsForest db'.categories
  unfolding create_category_in
  create_category_in-IsForest input value w user_id new_id db db' r h fine =
      let (_, h1, k1) =
        >>=-eq-ok
          (check_parent value.parent_id w none (some (type_or_expense input.type)) db.categories) _
          h in
      let (_, _, k2) =
        >>=-eq-ok
          (assert_unique fold value.name value.parent_id w none (type_or_expense input.type)
            db.categories)
          _ k1 in
      let (_, h3, k3) =
        >>=-eq-ok (throw_if (any (with_id new_id) db.categories) unique_constraint) _ k2 in
      let unused = throw_if-eq-ok _ unique_constraint _ h3 in
      let category =
        new_category value (type_or_expense input.type) w new_id
          (next_order value.parent_id w (type_or_expense input.type) db.categories) in
      let at = store-rows lower category_created category user_id _ db db' r k3 in
      subst IsForest (sym at) (
        IsForest-push category db.categories unused
          (new-attached value.parent_id w (type_or_expense input.type) db.categories _ _ h1 refl
            refl)
          fine)

  update_category_in-IsForest :
      (id : Text) (input : CategoryInput) (w user_id : Text) (db db' : CategoryDb)
      (r : CategoryResponse)
      → update_category_in fold lower id input w user_id db ≡ ok (r, db')
      → IsForest db.categories
      → IsForest db'.categories
  unfolding update_category_in
  update_category_in-IsForest id input w user_id db db' r h fine =
      let test = λ (c : Category). is_in w id c && is_active c in
      let (existing, h0, k0) =
        >>=-eq-ok (or_throw (find test db.categories) category_not_found) _ h in
      let found = or_throw-eq-ok (find test db.categories) category_not_found existing h0 in
      let (value, _, k1) = >>=-eq-ok (validate input) _ k0 in
      let (_, h2, k2) =
        >>=-eq-ok
          (throw_if (any (is_child w id) db.categories && not (is_absent value.parent_id)) _) _
          k1 in
      let (_, h3, k3) =
        >>=-eq-ok (check_parent value.parent_id w (some id) (some existing.type) db.categories) _
          k2 in
      let (_, _, k4) =
        >>=-eq-ok
          (assert_unique fold value.name value.parent_id w (some id) existing.type db.categories) _
          k3 in
      let held : test existing ≡ true = find-holds test db.categories existing found in
      let own : existing.workspace_id ≡ w =
        (text_eq_iff existing.workspace_id w).0 (ground arith) in
      let only =
        find-only test (with_id id) db.categories existing (λ c hit. ground arith) (fine.ids id)
          found in
      let at =
        store-rows lower category_updated (renamed value existing.name existing) user_id _ db db' r
          k4 in
      subst IsForest (sym at) (
        IsForest-renamed w id existing.name value existing db.categories only own
          (throw_if-eq-ok _ _ _ h2)
          (renamed-attached value.parent_id w id existing.name value existing.type db.categories
            (renamed value existing.name existing) _ h3 own refl)
          fine)

  restore_category_in-IsForest :
      (id w user_id : Text) (db db' : CategoryDb) (r : CategoryResponse)
      → restore_category_in fold lower id w user_id db ≡ ok (r, db')
      → IsForest db.categories
      → IsForest db'.categories
  unfolding restore_category_in
  restore_category_in-IsForest id w user_id db db' r h fine =
      let test = λ (c : Category). is_in w id c && not (is_active c) in
      let (category, h0, k0) =
        >>=-eq-ok (or_throw (find test db.categories) category_not_found) _ h in
      let found = or_throw-eq-ok (find test db.categories) category_not_found category h0 in
      let (_, h1, k1) =
        >>=-eq-ok (check_parent category.parent_id w none none db.categories) _ k0 in
      let (_, _, k2) =
        >>=-eq-ok
          (assert_unique fold category.name category.parent_id w (some category.id) category.type
            db.categories)
          _ k1 in
      let only =
        find-only test (with_id id) db.categories category (λ c hit. ground arith) (fine.ids id)
          found in
      let at = store-rows lower category_restored (restored_now category) user_id _ db db' r k2 in
      subst IsForest (sym at) (
        IsForest-restored w id category db.categories only
          (restored-active category.parent_id w db.categories _ h1 fine) fine)

archive_category-IsForest :
    (id w user_id : Text) (now : ℕ) (db db' : CategoryDb) (r : CategoryResponse)
    → archive_category id w user_id now db ≡ ok (r, db')
    → IsForest db.categories
    → IsForest db'.categories
unfolding archive_category
archive_category-IsForest id w user_id now db db' r h fine =
    let (category, _, k) =
      >>=-eq-ok
        (or_throw (find (λ c. is_in w id c && is_active c) db.categories) category_not_found) _ h in
    subst IsForest (ap (λ d. d.categories) (second _ r _ db' k))
      (IsForest-archived w id now db.categories fine)

reorder_categories-IsForest :
    (locale_compare : Text → Text → Order) (item_ids : List Text) (w : Text) (user_id : Option Text)
    (db db' : CategoryDb) (r : Option Children)
    → reorder_categories locale_compare item_ids w user_id db ≡ ok (r, db')
    → IsForest db.categories
    → IsForest db'.categories
unfolding reorder_categories reorder_categories_in
reorder_categories-IsForest locale_compare item_ids w user_id db db' r h fine =
    let ((found, db1), h0, k0) = >>=-eq-ok (reorder_categories_in item_ids w user_id db) _ h in
    let (first, _, k1) = >>=-eq-ok (or_throw (find (λ c. true) found) _) _ k0 in
    let ids = reorder_ids item_ids in
    let rows = active_among w ids db.categories in
    let (_, _, k2) = >>=-eq-ok (throw_if ((length ids == 0) || has_duplicates ids) _) _ h0 in
    let (_, _, k3) =
      >>=-eq-ok (throw_if (not (length rows == length ids) || not (same_parents rows)) _) _ k2 in
    let changed : CategoryDb = record {
      categories = reorder_from 0 ids db.categories;
      audit_log = record_reorder user_id w ids db.audit_log;
    } in
    subst IsForest
      (ap (λ d. d.categories) (second rows found changed db1 k3)
        ∙ ap (λ d. d.categories) (second _ r db1 db' k1))
      (IsForest-reorder_from 0 ids db.categories fine)

module _ (fold lower : Text → Text) (locale_compare : Text → Text → Order) where
  answer_category-IsForest :
      (request : CategoryRequest) (db db' : CategoryDb)
      → answer_category fold lower locale_compare request db ≡ ok db'
      → IsForest db.categories
      → IsForest db'.categories
  unfolding answer_category create_category
  answer_category-IsForest (create_request input w user_id new_id) db db' h fine =
      let (r, k) = rows_of-eq-ok _ db' h in
      let (value, _, k1) = >>=-eq-ok (validate input) _ k in
      create_category_in-IsForest fold lower input value w user_id new_id db db' r
        (mapped-eq-ok _ _ k1) fine
  answer_category-IsForest (update_request id input w user_id) db db' h fine =
      let (r, k) = rows_of-eq-ok _ db' h in
      update_category_in-IsForest fold lower id input w user_id db db' r (mapped-eq-ok _ _ k) fine
  answer_category-IsForest (archive_request id w user_id now) db db' h fine =
      let (r, k) = rows_of-eq-ok _ db' h in
      archive_category-IsForest id w user_id now db db' r k fine
  answer_category-IsForest (restore_request id w user_id) db db' h fine =
      let (r, k) = rows_of-eq-ok _ db' h in
      restore_category_in-IsForest fold lower id w user_id db db' r (mapped-eq-ok _ _ k) fine
  answer_category-IsForest (reorder_request ids w user_id) db db' h fine =
      let (r, k) = rows_of-eq-ok _ db' h in
      reorder_categories-IsForest locale_compare ids w user_id db db' r k fine

  settled :
      (request : CategoryRequest) (db : CategoryDb) (o : Outcome CategoryError CategoryDb)
      → answer_category fold lower locale_compare request db ≡ o
      → IsForest db.categories
      → IsForest (settle o db).categories
  settled request db (ok db') h fine = answer_category-IsForest request db db' h fine
  settled request db (err e) h fine = fine

  -- Whatever requests change categories, in any order: if identifiers are unique, and every category
  -- has a parent of its own workspace and type that has no parent itself and is active if the
  -- category is, or no parent, then that is so afterwards.
  pub serve_categories-IsForest :
      (requests : List CategoryRequest) (db : CategoryDb)
      → IsForest db.categories
      → IsForest (serve_categories fold lower locale_compare requests db).categories
  serve_categories-IsForest [] db fine = fine
  serve_categories-IsForest (r ∷ rs) db fine =
      serve_categories-IsForest rs _
        (settled r db (answer_category fold lower locale_compare r db) refl fine)
