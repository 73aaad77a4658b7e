-- ===== src/Tests/Categories.antt =====
-- Runs of the requests for categories, and instances of their theorems.
use monqom.Common.{
  ◌+◌, if◌then◌else◌, ℕ, ◌≤◌, ◌≡◌, refl, subst, true, false, Option, none, some, List, [], ◌∷◌,
  arith, find, map, ◌&&◌, Bool-cases, inl, inr,
}
use monqom.Common.Results.{ok, err, or_throw}
use monqom.Common.Tables.{count}
use monqom.Common.Text.{is_upper, Text, codes, text_lt, text_eq, text_eq_iff, trim}
use monqom.Integrations.Contract.{expense, income}
use monqom.Categories.Rows.{unique_constraint, Category, CategoryDb, with_id}
use monqom.Categories.Hierarchy.{
  Order, less, same, more, listed, is_listed, hierarchy, find_category, get_category_by_id,
  category_not_found,
}
use monqom.Categories.Checks.{CategoryValue, CategoryInput, validate, name_taken, bad_parent}
use monqom.Categories.Service.{
  create_category_in, create_category, update_category_in, archive_category, restore_category_in,
  reorder_categories_in, reorder_categories,
}
use monqom.Categories.Forest.{IsForest}
use monqom.Categories.Requests.{
  CategoryRequest, create_request, update_request, archive_request, restore_request,
  reorder_request, answer_category, serve_categories,
}
use monqom.Categories.Requests.Index.{categories_within_index}
use monqom.Categories.Requests.Shape.{serve_categories-IsForest}
use monqom.Categories.Service.{reorder_from, reorder_ids}
use monqom.Categories.Reordering.{index_of, moved, reorder_categories_in-order}
use monqom.Categories.Listing.{get_category_by_id-listed, fields_of}
use monqom.Categories.Listing.Trees.{map_some}

run : Unit {0}
unfolding trim text_lt validate hierarchy find_category get_category_by_id create_category_in
    create_category update_category_in archive_category restore_category_in reorder_categories_in
    reorder_categories answer_category
run = tt

abbrev compare : Text → Text → Order
compare s t = elim (text_lt s t) [
  | true ↦ less
  | false ↦ elim (text_lt t s) [ true ↦ more | false ↦ same ]
]

abbrev home : Text
home = codes "home"

abbrev food : Category
food = record {
  id = codes "f";
  workspace_id = codes "home";
  parent_id = none;
  name = codes "Food";
  type = expense;
  system_key = some (codes "food");
  icon = none;
  sort_order = 1;
  deleted_at = none;
}

abbrev groceries : Category
groceries = record food {
  id = codes "g";
  parent_id = some (codes "f");
  name = codes "Groceries";
  system_key = none;
}

abbrev snacks : Category
snacks = record groceries { id = codes "s"; name = codes "Snacks"; deleted_at = some 3 }

abbrev salary : Category
salary = record food { id = codes "w"; name = codes "Salary"; type = income }

abbrev rows : CategoryDb
rows = record { categories = salary ∷ snacks ∷ food ∷ groceries ∷ []; audit_log = [] }

at_most_once :
    (id own : Text)
    → count (with_id own) rows.categories ≤ 1
    → text_eq own id ≡ true
    → count (with_id id) rows.categories ≤ 1
at_most_once id own h e =
    subst (λ x. count (with_id x) rows.categories ≤ 1) ((text_eq_iff own id).0 e) h

once : (id : Text) → count (with_id id) rows.categories ≤ 1
once id = elim (Bool-cases (text_eq (codes "w") id)) [
  | inl here ↦ at_most_once id (codes "w") (omega arith) here
  | inr not_w ↦ elim (Bool-cases (text_eq (codes "s") id)) [
    | inl here ↦ at_most_once id (codes "s") (omega arith) here
    | inr not_s ↦ elim (Bool-cases (text_eq (codes "f") id)) [
      | inl here ↦ at_most_once id (codes "f") (omega arith) here
      | inr not_f ↦ elim (Bool-cases (text_eq (codes "g") id)) [
        | inl here ↦ at_most_once id (codes "g") (omega arith) here
        | inr not_g ↦ rw not_w (rw not_s (rw not_f (rw not_g (omega arith))))
      ]
    ]
  ]
]

rows-IsForest : IsForest rows.categories
rows-IsForest = record { ids = once; parents = (refl, (refl, (refl, (refl, tt)))) }

abbrev bakery : CategoryInput
bakery = record {
  name = codes " Bakery ";
  icon = some (codes "bread");
  parent_id = some (codes "f");
  type = none;
}

abbrev requests : List CategoryRequest
requests =
    create_request bakery home (codes "ann") (codes "b")
    ∷ update_request (codes "g") (record bakery { name = codes "Market" }) home (codes "ann")
    ∷ archive_request (codes "f") home (codes "ann") 9
    ∷ restore_request (codes "f") home (codes "ann")
    ∷ reorder_request (codes "g" ∷ codes "b" ∷ []) home none
    ∷ []

serve_categories-IsForest_example :
    IsForest (serve_categories (λ t. t) (λ t. t) compare requests rows).categories
serve_categories-IsForest_example =
    serve_categories-IsForest (λ t. t) (λ t. t) compare requests rows rows-IsForest

-- After the requests, as id, name, place and time of archiving.
after :
    map {B = Text × Text × ℕ × Option ℕ}
      (λ c. (c.id, c.name, c.sort_order, c.deleted_at))
      (serve_categories (λ t. t) (λ t. t) compare requests rows).categories
    ≡ (codes "w", codes "Salary", 1, none)
      ∷ (codes "s", codes "Snacks", 1, none)
      ∷ (codes "f", codes "Food", 1, none)
      ∷ (codes "g", codes "Market", 1, none)
      ∷ (codes "b", codes "Bakery", 2, none)
      ∷ []
unfolding run
after = refl

name_kept :
    answer_category
      (λ t. t)
      (λ t. t)
      compare
      (create_request (record bakery { name = codes "Groceries" }) home (codes "ann") (codes "b"))
      rows
    ≡ err name_taken
unfolding run
name_kept = refl

no_third_level :
    answer_category
      (λ t. t)
      (λ t. t)
      compare
      (create_request
        (record bakery { parent_id = some (codes "g") })
        home
        (codes "ann")
        (codes "b"))
      rows
    ≡ err bad_parent
unfolding run
no_third_level = refl

get_category_by_id-listed_example :
    fields_of (get_category_by_id compare (codes " g") false (some expense) home rows)
    ≡ some (
        or_throw
          (map_some listed (
            find
              (λ c. is_listed (trim home) false (some expense) c && with_id (trim (codes " g")) c)
              rows.categories))
          category_not_found)
get_category_by_id-listed_example =
    get_category_by_id-listed compare (codes " g") false (some expense) home rows rows-IsForest

found_groceries :
    fields_of (get_category_by_id compare (codes " g") false (some expense) home rows)
    ≡ some (ok (listed groceries))
unfolding run
found_groceries = refl

archived_hidden :
    fields_of (get_category_by_id compare (codes "s") false none home rows)
    ≡ some (err category_not_found)
unfolding run
archived_hidden = refl

-- Salary first, then food.
abbrev places : List Text
places = codes "w " ∷ codes "f" ∷ []

abbrev sorted : CategoryDb
sorted = record rows { categories = reorder_from 0 (codes "w" ∷ codes "f" ∷ []) rows.categories }

sorted-ok : reorder_categories_in places home none rows ≡ ok (salary ∷ food ∷ [], sorted)
unfolding run
sorted-ok = refl

reorder_categories_in-order_example :
    find (with_id (codes "f")) sorted.categories
    ≡ moved
        (index_of 0 (reorder_ids places) (codes "f"))
        (find (with_id (codes "f")) rows.categories)
reorder_categories_in-order_example =
    reorder_categories_in-order places home none rows sorted (salary ∷ food ∷ []) (codes "f")
      sorted-ok

food_second :
    moved (index_of 0 (reorder_ids places) (codes "f")) (find (with_id (codes "f")) rows.categories)
    ≡ some (record food { sort_order = 2 })
unfolding run
food_second = refl

abbrev plain_bakery : CategoryValue
plain_bakery = record { name = codes "Bakery"; icon = none; parent_id = some (codes "f") }

categories_within_index_example :
    (¬ (
      create_category_in (λ t. t) (λ t. t) bakery plain_bakery home (codes "ann") (codes "b") rows
      ≡ err unique_constraint))
    × (¬ (
        update_category_in (λ t. t) (λ t. t) (codes "g") bakery home (codes "ann") rows
        ≡ err unique_constraint))
categories_within_index_example =
    categories_within_index (λ t. t) (λ t. t) (λ s t. refl) rows rows-IsForest refl (codes "g")
      bakery plain_bakery home (codes "ann") (codes "b") refl

-- Two archived children with one name come back together, which the index alone refuses.
abbrev twin : Category
twin = record snacks { id = codes "t"; name = codes "snacks" }

restore_needs_index :
    restore_category_in
      (map (λ c. if is_upper c then c + 32 else c))
      (map (λ c. if is_upper c then c + 32 else c))
      (codes "f")
      home
      (codes "ann")
      (record {
        categories = record food { deleted_at = some 3 } ∷ snacks ∷ twin ∷ [];
        audit_log = [];
      })
    ≡ err unique_constraint
unfolding run
restore_needs_index = refl
