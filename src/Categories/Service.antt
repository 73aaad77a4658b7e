-- ===== src/Categories/Service.antt =====
-- `CategoriesService` of backend/src/modules/categories/categories.service.ts: the operations that
-- change rows. A transaction takes the rows and gives its answer with the new rows, an exception
-- undoes it; transactions run one after another. `lower` is the LOWER of the unique index, `fold`
-- the comparison that `mode: 'insensitive'` makes; `new_id` is the identifier drawn for a new row,
-- `at` is the time. Rows that a query finds come in the order of the table.
use monqom.Common.{
  ℕ, suc, ◌+◌, Bool, true, false, not, ◌&&◌, ◌||◌, Option, none, some, List, [], ◌∷◌, map, ◌==◌,
  if◌then◌else◌, any, all, find, filter, length, push,
}
use monqom.Common.Results.{Outcome, ok, ◌>>=◌, ◌>>◌, throw_if, or_throw}
use monqom.Common.Tables.{update_rows}
use monqom.Common.Text.{Text, codes, text_eq, includes, trim}
use monqom.Integrations.Contract.{TransactionType, is_blank}
use monqom.Categories.Rows.{
  Category, CategoryError, bad_request, unique_constraint, CategoryAction, category_created,
  category_updated, category_reordered, category_archived, category_restored, category_ids,
  CategoryEvent, CategoryDb, is_absent, is_active, same_parent, with_id, is_in, is_child, in_family,
  in_group, breaks_index,
}
use monqom.Categories.Hierarchy.{
  category_not_found, CategoryResponse, Children, no_more, map_category, Order, hierarchy,
}
use monqom.Categories.Checks.{
  CategoryInput, CategoryValue, check_parent, has_duplicates, is_except, map_unique_category_error,
  name_taken, next_order, record_event, type_or_expense, validate,
}

abbrev pub archived_at : ℕ → Category → Category
archived_at at c = record c { deleted_at = some at }

abbrev pub restored_now : Category → Category
restored_now c = record c { deleted_at = none }

abbrev pub reordered : ℕ → Category → Category
reordered n c = record c { sort_order = n }

-- `data` of the update of `updateCategory`
abbrev pub renamed : CategoryValue → Text → Category → Category
renamed value old_name c = record c {
  name = value.name;
  icon = value.icon;
  parent_id = value.parent_id;
  system_key = if text_eq value.name old_name then c.system_key else none;
}

-- `for (const [index, id] of ids.entries())`
abbrev pub reorder_from : ℕ → List Text → List Category → List Category
reorder_from index [] rows = rows
reorder_from index (id ∷ ids) rows =
    reorder_from (suc index) ids (update_rows (with_id id) (reordered (index + 1)) rows)

-- `data` of the creation in `createCategory`
abbrev pub new_category : CategoryValue → TransactionType → Text → Text → ℕ → Category
new_category value type w new_id sort_order = record {
  id = new_id;
  workspace_id = w;
  parent_id = value.parent_id;
  name = value.name;
  type = type;
  system_key = none;
  icon = value.icon;
  sort_order = sort_order;
  deleted_at = none;
}

-- `if (userId) await this.audit.record(...)`
abbrev pub record_reorder : Option Text → Text → List Text → List CategoryEvent → List CategoryEvent
record_reorder none w ids log = log
record_reorder (some user_id) w ids log =
    if is_blank user_id
    then log
    else push log (record {
      action = category_reordered;
      workspace_id = w;
      user_id = user_id;
      entity_id = w;
      metadata = category_ids ids;
    })

-- The `parentId`s form a set of one.
abbrev pub same_parents : List Category → Bool
same_parents [] = false
same_parents (c ∷ cs) = all (λ d. same_parent d.parent_id c.parent_id) cs

-- A statement that gives these rows, where the unique index of
-- backend/prisma/migrations/0019_security_foundations/migration.sql lets it.
abbrev pub store :
    (Text → Text)
    → CategoryAction
    → Category
    → Text
    → List Category
    → CategoryDb
    → Outcome CategoryError (CategoryResponse × CategoryDb)
store lower action c user_id rows db = do
  throw_if (breaks_index lower rows) unique_constraint
  ok (
    map_category c no_more,
    record { categories = rows; audit_log = record_event action c user_id db.audit_log },
  )

-- `archiveCategory`
unfoldable pub archive_category :
    Text → Text → Text → ℕ → CategoryDb → Outcome CategoryError (CategoryResponse × CategoryDb)
archive_category id w user_id at db = do
  let rows = db.categories
  category ← or_throw (find (λ c. is_in w id c && is_active c) rows) category_not_found
  ok (
    map_category (archived_at at category) no_more,
    record {
      categories = update_rows (in_family w id) (archived_at at) rows;
      audit_log = record_event category_archived (archived_at at category) user_id db.audit_log;
    },
  )

abbrev pub assert_unique :
    (Text → Text)
    → Text
    → Option Text
    → Text
    → Option Text
    → TransactionType
    → List Category
    → Outcome CategoryError (Unit {0})
assert_unique fold name parent_id w except type rows =
    throw_if
      (any
        (λ c.
          in_group w parent_id type c
          && text_eq (fold c.name) (fold name)
          && not (is_except except c.id))
        rows)
      name_taken

module _ (fold lower : Text → Text) where
  unfoldable pub create_category_in :
      CategoryInput
      → CategoryValue
      → Text
      → Text
      → Text
      → CategoryDb
      → Outcome CategoryError (CategoryResponse × CategoryDb)
  create_category_in input value w user_id new_id db = do
    let rows = db.categories
    let type = type_or_expense input.type
    check_parent value.parent_id w none (some type) rows
    assert_unique fold value.name value.parent_id w none type rows
    throw_if (any (with_id new_id) rows) unique_constraint
    let category = new_category value type w new_id (next_order value.parent_id w type rows)
    store lower category_created category user_id (push rows category) db

  -- `createCategory`
  unfoldable pub create_category :
      CategoryInput
      → Text
      → Text
      → Text
      → CategoryDb
      → Outcome CategoryError (CategoryResponse × CategoryDb)
  create_category input w user_id new_id db = do
    value ← validate input
    map_unique_category_error (create_category_in input value w user_id new_id db)

  unfoldable pub update_category_in :
      Text
      → CategoryInput
      → Text
      → Text
      → CategoryDb
      → Outcome CategoryError (CategoryResponse × CategoryDb)
  update_category_in id input w user_id db = do
    let rows = db.categories
    existing ← or_throw (find (λ c. is_in w id c && is_active c) rows) category_not_found
    value ← validate input
    throw_if (any (is_child w id) rows && not (is_absent value.parent_id))
        (bad_request (codes "A category with children cannot become a subcategory"))
    check_parent value.parent_id w (some id) (some existing.type) rows
    assert_unique fold value.name value.parent_id w (some id) existing.type rows
    store lower category_updated (renamed value existing.name existing) user_id
        (update_rows (with_id id) (renamed value existing.name) rows) db

  -- `updateCategory`
  abbrev pub update_category :
      Text
      → CategoryInput
      → Text
      → Text
      → CategoryDb
      → Outcome CategoryError (CategoryResponse × CategoryDb)
  update_category id input w user_id db =
      map_unique_category_error (update_category_in id input w user_id db)

  unfoldable pub restore_category_in :
      Text → Text → Text → CategoryDb → Outcome CategoryError (CategoryResponse × CategoryDb)
  restore_category_in id w user_id db = do
    let rows = db.categories
    category ← or_throw (find (λ c. is_in w id c && not (is_active c)) rows) category_not_found
    check_parent category.parent_id w none none rows
    assert_unique fold category.name category.parent_id w (some category.id) category.type rows
    store lower category_restored (restored_now category) user_id
        (update_rows (in_family w id) restored_now rows) db

  -- `restoreCategory`
  abbrev pub restore_category :
      Text → Text → Text → CategoryDb → Outcome CategoryError (CategoryResponse × CategoryDb)
  restore_category id w user_id db = map_unique_category_error (restore_category_in id w user_id db)

abbrev pub reorder_ids : List Text → List Text
reorder_ids item_ids = filter (λ id. not (is_blank id)) (map trim item_ids)

-- `where: { workspaceId, id: { in: ids }, deletedAt: null }`
abbrev pub active_among : Text → List Text → List Category → List Category
active_among w ids = filter (λ c. text_eq c.workspace_id w && includes ids c.id && is_active c)

-- The transaction of `reorderCategories`, with the rows that it found.
unfoldable pub reorder_categories_in :
    List Text → Text → Option Text → CategoryDb → Outcome CategoryError (List Category × CategoryDb)
reorder_categories_in item_ids w user_id db = do
  let ids = reorder_ids item_ids
  throw_if ((length ids == 0) || has_duplicates ids)
      (bad_request (codes "Category ids must be unique"))
  let found = active_among w ids db.categories
  throw_if (not (length found == length ids) || not (same_parents found))
      (bad_request (codes "Categories must be active siblings"))
  ok (
    found,
    record {
      categories = reorder_from 0 ids db.categories;
      audit_log = record_reorder user_id w ids db.audit_log;
    },
  )

-- `reorderCategories`
unfoldable pub reorder_categories :
    (Text → Text → Order)
    → List Text
    → Text
    → Option Text
    → CategoryDb
    → Outcome CategoryError (Option Children × CategoryDb)
reorder_categories locale_compare item_ids w user_id db = do
  (found, db') ← reorder_categories_in item_ids w user_id db
  first ←
      or_throw (find (λ c. true) found) (bad_request (codes "Categories must be active siblings"))
  ok (hierarchy locale_compare w false (some first.type) db'.categories, db')
