-- ===== src/Categories/Rows.antt =====
-- The rows of categories (backend/prisma/schema.prisma) with the conditions of the queries in
-- backend/src/modules/categories/categories.service.ts. An identifier is never the empty string, so
-- the code's tests of one for truth are tests for `null`. `createdAt`, `updatedAt` and `color`,
-- which the service does not read, are left out.
use monqom.Common.{ℕ, max, Bool, true, false, ◌&&◌, ◌||◌, Option, none, some, List, [], ◌∷◌, any}
use monqom.Common.Text.{Text, text_eq}
use monqom.Integrations.Contract.{TransactionType, expense, income}

pub record Category : Type 0 where
  pub id : Text
  pub workspace_id : Text
  pub parent_id : Option Text
  pub name : Text
  pub type : TransactionType
  pub system_key : Option Text
  pub icon : Option Text
  pub sort_order : ℕ
  pub deleted_at : Option ℕ

pub data CategoryError : Type 0 where
  bad_request : Text → CategoryError
  not_found : Text → CategoryError
  conflict : Text → CategoryError
  unique_constraint : CategoryError

pub data CategoryAction : Type 0 where
  category_created category_updated category_reordered category_archived category_restored :
      CategoryAction

-- `metadata` of an audit event
pub data CategoryMetadata : Type 0 where
  of_category : Text → Option Text → Option ℕ → CategoryMetadata
  category_ids : List Text → CategoryMetadata

pub record CategoryEvent : Type 0 where
  pub action : CategoryAction
  pub workspace_id : Text
  pub user_id : Text
  pub entity_id : Text
  pub metadata : CategoryMetadata

pub record CategoryDb : Type 0 where
  pub categories : List Category
  pub audit_log : List CategoryEvent

abbrev pub is_absent {ℓ} : {A : Type ℓ} → Option A → Bool
is_absent none = true
is_absent (some _) = false

abbrev pub is_active : Category → Bool
is_active c = is_absent c.deleted_at

abbrev pub same_parent : Option Text → Option Text → Bool
same_parent none none = true
same_parent (some p) (some q) = text_eq p q
same_parent _ _ = false

abbrev pub same_type : TransactionType → TransactionType → Bool
same_type expense expense = true
same_type income income = true
same_type _ _ = false

-- `...(type ? { type } : {})`
abbrev pub of_type : Option TransactionType → Category → Bool
of_type none c = true
of_type (some t) c = same_type t c.type

abbrev pub with_id : Text → Category → Bool
with_id id c = text_eq c.id id

-- `where: { id, workspaceId }`
abbrev pub is_in : Text → Text → Category → Bool
is_in w id c = text_eq c.workspace_id w && with_id id c

-- `where: { workspaceId, parentId: id }`, the relation `children`
abbrev pub is_child : Text → Text → Category → Bool
is_child w id c = text_eq c.workspace_id w && same_parent c.parent_id (some id)

-- `where: { workspaceId, OR: [{ id }, { parentId: id }] }`
abbrev pub in_family : Text → Text → Category → Bool
in_family w id c = text_eq c.workspace_id w && (with_id id c || same_parent c.parent_id (some id))

-- `where: { workspaceId, parentId, deletedAt: null, type }`
abbrev pub in_group : Text → Option Text → TransactionType → Category → Bool
in_group w parent_id type c =
    text_eq c.workspace_id w
    && same_parent c.parent_id parent_id
    && is_active c
    && same_type type c.type

-- `_max: { sortOrder: true }` of the rows that a condition holds of, 0 without any
abbrev pub max_order : (Category → Bool) → List Category → ℕ
max_order p [] = 0
max_order p (c ∷ cs) =
    let rest = max_order p cs in elim (p c) [ true ↦ max c.sort_order rest | false ↦ rest ]

-- The unique index `categories_active_sibling_name_key`; `lower` is the database's LOWER.
abbrev pub twins : (Text → Text) → Category → Category → Bool
twins lower a b =
    in_group a.workspace_id a.parent_id a.type b
    && is_active a
    && text_eq (lower b.name) (lower a.name)

abbrev pub breaks_index : (Text → Text) → List Category → Bool
breaks_index lower [] = false
breaks_index lower (c ∷ cs) = any (twins lower c) cs || breaks_index lower cs
