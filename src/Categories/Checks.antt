-- ===== src/Categories/Checks.antt =====
-- What `CategoriesService` of backend/src/modules/categories/categories.service.ts checks before it
-- changes rows, and what it records. `fold` is the comparison that `mode: 'insensitive'` makes.
use monqom.Common.{
  ℕ, ◌+◌, Bool, false, not, ◌&&◌, ◌||◌, Option, none, some, List, [], ◌∷◌, ltb, if◌then◌else◌, find,
  length, push,
}
use monqom.Common.Results.{Outcome, ok, err, ◌>>=◌, ◌>>◌, throw_if, or_throw}
use monqom.Common.Text.{Text, codes, text_eq, includes, trim}
use monqom.Integrations.Contract.{TransactionType, expense, is_blank}
use monqom.Categories.Rows.{
  Category, CategoryError, bad_request, conflict, unique_constraint, CategoryAction, of_category,
  CategoryEvent, is_absent, is_active, of_type, is_in, in_group, max_order,
}

pub record CategoryInput : Type 0 where
  pub name : Text
  pub icon : Option Text
  pub parent_id : Option Text
  pub type : Option TransactionType

-- What `validate` gives.
pub record CategoryValue : Type 0 where
  pub name : Text
  pub icon : Option Text
  pub parent_id : Option Text

abbrev pub name_taken : CategoryError
name_taken = conflict (codes "An active category with this name already exists in this group")

abbrev pub bad_parent : CategoryError
bad_parent = bad_request (codes "Parent category must be an active top-level category")

-- `value?.trim() || null`
abbrev pub trim_or_null : Option Text → Option Text
trim_or_null none = none
trim_or_null (some s) = if is_blank (trim s) then none else some (trim s)

abbrev too_long : ℕ → Option Text → Bool
too_long n none = false
too_long n (some s) = ltb n (length s)

unfoldable pub validate : CategoryInput → Outcome CategoryError CategoryValue
validate input = do
  let name = trim input.name
  throw_if (is_blank name || ltb 100 (length name))
      (bad_request (codes "Name must contain 1 to 100 characters"))
  let icon = trim_or_null input.icon
  throw_if (too_long 32 icon) (bad_request (codes "Icon must be 32 characters or fewer"))
  ok (record { name = name; icon = icon; parent_id = trim_or_null input.parent_id })

-- `parent.id === exceptId`
abbrev pub is_except : Option Text → Text → Bool
is_except none id = false
is_except (some e) id = text_eq id e

abbrev pub active_parent :
    Text
    → Text
    → Option Text
    → Option TransactionType
    → List Category
    → Outcome CategoryError (Unit {0})
active_parent id w except type rows = do
  parent ← or_throw (find (λ c. is_in w id c && is_active c && of_type type c) rows) bad_parent
  throw_if (not (is_absent parent.parent_id) || is_except except parent.id) bad_parent

-- `if (parentId) await this.activeParent(...)`
abbrev pub check_parent :
    Option Text
    → Text
    → Option Text
    → Option TransactionType
    → List Category
    → Outcome CategoryError (Unit {0})
check_parent none w except type rows = ok tt
check_parent (some id) w except type rows = active_parent id w except type rows

abbrev pub next_order : Option Text → Text → TransactionType → List Category → ℕ
next_order parent_id w type rows = max_order (in_group w parent_id type) rows + 1

abbrev pub record_event : CategoryAction → Category → Text → List CategoryEvent → List CategoryEvent
record_event action c user_id log = push log (record {
  action = action;
  workspace_id = c.workspace_id;
  user_id = user_id;
  entity_id = c.id;
  metadata = of_category c.name c.parent_id c.deleted_at;
})

-- `catch (error) { throw mapUniqueCategoryError(error) }`
abbrev pub map_unique_category_error :
    {A : Type 0} → Outcome CategoryError A → Outcome CategoryError A
map_unique_category_error (ok a) = ok a
map_unique_category_error (err unique_constraint) = err name_taken
map_unique_category_error (err e) = err e

abbrev pub type_or_expense : Option TransactionType → TransactionType
type_or_expense none = expense
type_or_expense (some t) = t

-- `ids.size !== ids.length` of a set
abbrev pub has_duplicates : List Text → Bool
has_duplicates [] = false
has_duplicates (t ∷ ts) = includes ts t || has_duplicates ts
