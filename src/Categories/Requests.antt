-- ===== src/Categories/Requests.antt =====
-- Sequences of requests that change categories.
pub mod Parents
pub mod Shape
pub mod Names
pub mod Index
use monqom.Common.{
  ℕ, ◌≡◌, refl, sym, ap, ◌∙◌, subst, Bool, true, false, not, ◌&&◌, ◌||◌, Option, none, some, List,
  [], ◌∷◌, arith, any, find, length, ◌==◌, All, push, Bool-cases, inl, inr,
}
use monqom.Common.Results.{
  Outcome, ok, err, ◌>>=◌, throw_if, or_throw, >>=-eq-ok, throw_if-eq-ok, or_throw-eq-ok,
}
use monqom.Common.Tables.{
  count, update_rows, find-only, find-holds, any-found, any-among, any-update_rows, All-always,
  All-weaken,
}
use monqom.Common.Text.{Text, text_eq, text_eq_iff}
use monqom.Integrations.Contract.{TransactionType}
use monqom.Categories.Rows.{
  Category, CategoryError, bad_request, not_found, conflict, unique_constraint, CategoryAction,
  category_created, category_updated, category_restored, CategoryDb, is_absent, is_active,
  same_type, of_type, with_id, is_in, is_child, in_family, breaks_index,
}
use monqom.Categories.Hierarchy.{CategoryResponse, Children, Order, category_not_found}
use monqom.Categories.Checks.{
  CategoryInput, CategoryValue, validate, bad_parent, is_except, active_parent, check_parent,
  map_unique_category_error, type_or_expense, next_order, has_duplicates,
}
use monqom.Categories.Service.{
  assert_unique, new_category, renamed, restored_now, store, reorder_ids, active_among,
  same_parents, create_category_in, create_category, update_category_in, update_category,
  archive_category, restore_category_in, restore_category, reorder_categories_in,
  reorder_categories, reorder_from, record_reorder,
}
use monqom.Categories.Forest.{is_root_for, attached_to, IsForest}
use monqom.Categories.Forest.Changes.{
  IsForest-archived, IsForest-reorder_from, IsForest-restored, IsForest-renamed, IsForest-push,
}

pub data CategoryRequest : Type 0 where
  create_request : CategoryInput → Text → Text → Text → CategoryRequest
  update_request : Text → CategoryInput → Text → Text → CategoryRequest
  archive_request : Text → Text → Text → ℕ → CategoryRequest
  restore_request : Text → Text → Text → CategoryRequest
  reorder_request : List Text → Text → Option Text → CategoryRequest

-- The new rows, without the response.
abbrev pub rows_of :
    {A : Type 0} → Outcome CategoryError (A × CategoryDb) → Outcome CategoryError CategoryDb
rows_of (ok (_, db)) = ok db
rows_of (err e) = err e

-- The rows after a request, which an exception leaves.
abbrev pub settle : Outcome CategoryError CategoryDb → CategoryDb → CategoryDb
settle (ok db') db = db'
settle (err e) db = db

module _ (fold lower : Text → Text) (locale_compare : Text → Text → Order) where
  unfoldable pub answer_category : CategoryRequest → CategoryDb → Outcome CategoryError CategoryDb
  answer_category (create_request input w user_id new_id) db =
      rows_of (create_category fold lower input w user_id new_id db)
  answer_category (update_request id input w user_id) db =
      rows_of (update_category fold lower id input w user_id db)
  answer_category (archive_request id w user_id at) db =
      rows_of (archive_category id w user_id at db)
  answer_category (restore_request id w user_id) db =
      rows_of (restore_category fold lower id w user_id db)
  answer_category (reorder_request ids w user_id) db =
      rows_of (reorder_categories locale_compare ids w user_id db)

  abbrev pub serve_categories : List CategoryRequest → CategoryDb → CategoryDb
  serve_categories [] db = db
  serve_categories (r ∷ rs) db = serve_categories rs (settle (answer_category r db) db)
