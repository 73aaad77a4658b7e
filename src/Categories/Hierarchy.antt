-- ===== src/Categories/Hierarchy.antt =====
-- Reading categories: `hierarchy`, `listCategories` and `getCategoryById` of
-- backend/src/modules/categories/categories.service.ts. `locale_compare` is `localeCompare`, the
-- order of the database plays no part, since the rows are sorted again. The recursion of `build` has
-- fuel, nothing is the answer when it runs out.
use monqom.Common.{
  ℕ, zero, suc, Bool, true, false, ◌&&◌, ◌||◌, Option, none, some, List, [], ◌∷◌, ltb, ◌==◌,
  if◌then◌else◌, filter, length,
}
use monqom.Common.Chain.{◌>>=◌}
use monqom.Common.Results.{Outcome, or_throw}
use monqom.Common.Text.{Text, codes, text_eq, trim}
use monqom.Integrations.Contract.{TransactionType}
use monqom.Categories.Rows.{
  Category, CategoryError, not_found, CategoryDb, is_absent, is_active, same_parent, of_type,
}

abbrev pub category_not_found : CategoryError
category_not_found = not_found (codes "Category not found")

-- The fields of `CategoryResponse` but `children`.
pub record Listed : Type 0 where
  pub id : Text
  pub name : Text
  pub system_key : Option Text
  pub type : TransactionType
  pub icon : Option Text
  pub parent_id : Option Text
  pub sort_order : ℕ
  pub is_archived : Bool
  pub archived_at : Option ℕ

mutual
  pub data CategoryResponse : Type 0 where
    response : Listed → Children → CategoryResponse

  pub data Children : Type 0 where
    no_more : Children
    child : CategoryResponse → Children → Children

abbrev pub listed : Category → Listed
listed c = record {
  id = c.id;
  name = c.name;
  system_key = c.system_key;
  type = c.type;
  icon = c.icon;
  parent_id = c.parent_id;
  sort_order = c.sort_order;
  is_archived = if is_absent c.deleted_at then false else true;
  archived_at = c.deleted_at;
}

-- `map`
abbrev pub map_category : Category → Children → CategoryResponse
map_category c children = response (listed c) children

-- What `localeCompare` answers: less than, equal to or more than 0.
pub data Order : Type 0 where
  less same more : Order

-- The rows that `hierarchy` reads.
abbrev pub is_listed : Text → Bool → Option TransactionType → Category → Bool
is_listed w include_archived type c =
    text_eq c.workspace_id w && of_type type c && (include_archived || is_active c)

-- `.map((row) => this.map(row, build(row.id)))`
abbrev pub map_children : (Category → Option Children) → List Category → Option Children
map_children build [] = some no_more
map_children build (c ∷ cs) = do
  children ← build c
  rest ← map_children build cs
  some (child (map_category c children) rest)

module _ (locale_compare : Text → Text → Order) where
  abbrev pub then_less : Order → Bool → Bool
  then_less less rest = true
  then_less same rest = rest
  then_less more rest = false

  -- Whether the comparison of `sort` answers less than 0.
  abbrev pub precedes : Category → Category → Bool
  precedes a b =
      ltb a.sort_order b.sort_order
      || ((a.sort_order == b.sort_order)
          && then_less (locale_compare a.name b.name) (then_less (locale_compare a.id b.id) false))

  -- `Array.prototype.sort`, which is stable
  abbrev pub insert_sorted : Category → List Category → List Category
  insert_sorted c [] = c ∷ []
  insert_sorted c (d ∷ ds) =
      let rest = insert_sorted c ds in if precedes d c then d ∷ rest else c ∷ d ∷ ds

  abbrev pub sort_categories : List Category → List Category
  sort_categories [] = []
  sort_categories (c ∷ cs) = insert_sorted c (sort_categories cs)

  abbrev pub build : ℕ → List Category → Option Text → Option Children
  build zero rows parent_id = none
  build (suc n) rows parent_id =
      map_children (λ c. build n rows (some c.id))
        (sort_categories (filter (λ c. same_parent c.parent_id parent_id) rows))

  unfoldable pub hierarchy : Text → Bool → Option TransactionType → List Category → Option Children
  hierarchy w include_archived type rows =
      let found = filter (is_listed w include_archived type) rows in
      build (suc (suc (suc (length found)))) found none

unfoldable mutual
  pub find_category : Children → Text → Option CategoryResponse
  find_category no_more id = none
  find_category (child c rest) id = elim (find_here c id) [
    | none ↦ find_category rest id
    | some found ↦ some found
  ]

  pub find_here : CategoryResponse → Text → Option CategoryResponse
  find_here (response c children) id =
      let below = find_category children id in
      if text_eq c.id id then some (response c children) else below

module _ (locale_compare : Text → Text → Order) where
  -- `listCategories`
  abbrev pub list_categories : Bool → Option TransactionType → Text → CategoryDb → Option Children
  list_categories include_archived type w db =
      hierarchy locale_compare (trim w) include_archived type db.categories

  -- `getCategoryById`
  unfoldable pub get_category_by_id :
      Text
      → Bool
      → Option TransactionType
      → Text
      → CategoryDb
      → Option (Outcome CategoryError CategoryResponse)
  get_category_by_id id include_archived type w db = do
    categories ← list_categories include_archived type w db
    some (or_throw (find_category categories (trim id)) category_not_found)
