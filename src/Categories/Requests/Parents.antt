-- ===== src/Categories/Requests/Parents.antt =====
-- What the checks of categories.service.ts in backend/src/modules/categories say of parents, for
-- requests that are answered.
use monqom.Common.{
  ◌≡◌, refl, sym, ap, subst, true, not, ◌&&◌, Option, none, some, List, arith, any, find, All,
}
use monqom.Common.Results.{
  Outcome, ok, err, throw_if, or_throw, >>=-eq-ok, throw_if-eq-ok, or_throw-eq-ok,
}
use monqom.Common.Tables.{
  update_rows, find-only, find-holds, any-found, any-among, any-update_rows, All-always, All-weaken,
}
use monqom.Common.Text.{Text, text_eq}
use monqom.Integrations.Contract.{TransactionType}
use monqom.Categories.Rows.{
  Category, CategoryError, bad_request, not_found, conflict, unique_constraint, CategoryAction,
  CategoryDb, is_active, same_type, of_type, with_id, is_in, breaks_index,
}
use monqom.Categories.Hierarchy.{CategoryResponse}
use monqom.Categories.Checks.{
  CategoryValue, bad_parent, is_except, active_parent, check_parent, map_unique_category_error,
}
use monqom.Categories.Service.{renamed, store}
use monqom.Categories.Forest.{is_root_for, attached_to, IsForest}
use monqom.Categories.Requests.{rows_of}

pub rows_of-eq-ok :
    {A : Type 0} (o : Outcome CategoryError (A × CategoryDb)) (db : CategoryDb)
    → rows_of o ≡ ok db
    → (a : A) × (o ≡ ok (a, db))
rows_of-eq-ok (ok (a, d)) db h = (a, cc)
rows_of-eq-ok (err e) db h = cc

pub mapped-eq-ok :
    {A : Type 0} (o : Outcome CategoryError A) (a : A)
    → map_unique_category_error o ≡ ok a
    → o ≡ ok a
mapped-eq-ok (ok b) a h = h
mapped-eq-ok (err (bad_request t)) a h = cc
mapped-eq-ok (err (not_found t)) a h = cc
mapped-eq-ok (err (conflict t)) a h = cc
mapped-eq-ok (err unique_constraint) a h = cc

pub second :
    {A : Type 0} (a a' : A) (d d' : CategoryDb)
    → ◌≡◌ {A = Outcome CategoryError (A × CategoryDb)} (ok (a, d)) (ok (a', d'))
    → d ≡ d'
second a a' d d' h = cc

pub store-rows :
    (lower : Text → Text) (action : CategoryAction) (c : Category) (user_id : Text)
    (rows : List Category) (db db' : CategoryDb) (r : CategoryResponse)
    → store lower action c user_id rows db ≡ ok (r, db')
    → db'.categories ≡ rows
store-rows lower action c user_id rows db db' r h =
    let (_, _, k) = >>=-eq-ok (throw_if (breaks_index lower rows) unique_constraint) _ h in
    sym (ap (λ d. d.categories) (second _ r _ db' k))

-- A parent that passes the checks can be that of any category of its type.
active_parent-found :
    (p w : Text) (except : Option Text) (type : TransactionType) (rows : List Category)
    (c : Category) (u : Unit {0})
    → active_parent p w except (some type) rows ≡ ok u
    → c.workspace_id ≡ w
    → c.type ≡ type
    → any (λ q. is_root_for c p q && not (is_except except q.id)) rows ≡ true
active_parent-found p w except type rows c u h e k =
    let test = λ (q : Category). is_in w p q && is_active q && of_type (some type) q in
    let (parent, h0, h1) = >>=-eq-ok (or_throw (find test rows) bad_parent) _ h in
    let found = or_throw-eq-ok (find test rows) bad_parent parent h0 in
    let free = throw_if-eq-ok _ bad_parent u h1 in
    let held : test parent ≡ true = find-holds test rows parent found in
    let typed : same_type c.type parent.type ≡ true =
      subst (λ t. same_type t parent.type ≡ true) (sym k) (ground arith) in
    let own : text_eq parent.workspace_id c.workspace_id ≡ true =
      subst (λ v. text_eq parent.workspace_id v ≡ true) (sym e) (ground arith) in
    any-found test (λ q. is_root_for c p q && not (is_except except q.id)) rows parent found
      (ground arith)

pub new-attached :
    (p : Option Text) (w : Text) (type : TransactionType) (rows : List Category) (c : Category)
    (u : Unit {0})
    → check_parent p w none (some type) rows ≡ ok u
    → c.workspace_id ≡ w
    → c.type ≡ type
    → attached_to p c rows ≡ true
new-attached none w type rows c u h e k = refl
new-attached (some p) w type rows c u h e k =
    any-among _ (is_root_for c p) rows (All-always rows (λ q found. ground arith))
      (active_parent-found p w none type rows c u h e k)

-- A parent other than the row itself, after a change of the row.
pub renamed-attached :
    (p : Option Text) (w id old_name : Text) (value : CategoryValue) (type : TransactionType)
    (rows : List Category) (c : Category) (u : Unit {0})
    → check_parent p w (some id) (some type) rows ≡ ok u
    → c.workspace_id ≡ w
    → c.type ≡ type
    → attached_to p c (update_rows (with_id id) (renamed value old_name) rows) ≡ true
renamed-attached none w id old_name value type rows c u h e k = refl
renamed-attached (some p) w id old_name value type rows c u h e k =
    any-update_rows _ (is_root_for c p) (with_id id) (renamed value old_name) rows
      (All-always rows (λ q found. ground arith))
      (active_parent-found p w (some id) type rows c u h e k)

pub restored-active :
    (o : Option Text) (w : Text) (rows : List Category) (u : Unit {0})
    → check_parent o w none none rows ≡ ok u
    → IsForest rows
    → (p : Text) → o ≡ some p
    → All (λ c. with_id p c ≡ true → is_active c ≡ true) rows
restored-active none w rows u h fine p e = cc
restored-active (some o) w rows u h fine p e =
    let test = λ (q : Category). is_in w o q && is_active q && of_type none q in
    let (parent, h0, _) = >>=-eq-ok (or_throw (find test rows) bad_parent) _ h in
    let found = or_throw-eq-ok (find test rows) bad_parent parent h0 in
    let held : test parent ≡ true = find-holds test rows parent found in
    let live : is_active parent ≡ true = ground arith in
    let only = find-only test (with_id o) rows parent (λ c hit. ground arith) (fine.ids o) found in
    let same : o ≡ p = cc in
    subst (λ n. All (λ c. with_id n c ≡ true → is_active c ≡ true) rows) same
      (All-weaken _ _ rows (λ c one hit. subst (λ x. is_active x ≡ true) (sym (one hit)) live) only)
