-- ===== src/Categories/Listing.antt =====
-- What `hierarchy` and `getCategoryById` of backend/src/modules/categories/categories.service.ts
-- find in rows of the right shape.
pub mod Trees
use monqom.Common.{
  ℕ, suc, ◌+◌, ◌≤◌, ◌≡◌, refl, sym, ap, ◌∙◌, subst, inl, inr, Bool, true, false, not, ◌&&◌, ◌||◌,
  Option, none, some, List, [], ◌∷◌, arith, if◌then◌else◌, any, find, filter, length, All,
  All-filter, Bool-cases, Option-cases,
}
use monqom.Common.Chain.{◌>>=◌}
use monqom.Common.Results.{Outcome, ok, err, or_throw}
use monqom.Common.Tables.{
  count, any-filter, find-filter, count-filter, find-none-any, filter-empty, All-find, All-self,
  All-weaken, All-always, any-among, any-found, any-has, All-filtered, find-only, find-holds,
}
use monqom.Common.Text.{Text, text_eq, text_eq_iff, trim}
use monqom.Integrations.Contract.{TransactionType, expense, income}
use monqom.Categories.Rows.{
  Category, CategoryError, CategoryDb, is_absent, is_active, same_parent, same_type, of_type,
  with_id, is_in,
}
use monqom.Categories.Hierarchy.{
  CategoryResponse, response, Children, no_more, child, Listed, listed, map_category, Order,
  precedes, insert_sorted, sort_categories, map_children, build, is_listed, hierarchy,
  find_category, find_here, get_category_by_id, category_not_found,
}
use monqom.Categories.Forest.{is_root_for, attached_to, IsForest}
use monqom.Categories.Listing.Trees.{
  any-sort_categories, All-sort_categories, absent-none, assemble, fields, find_category-assemble,
  find_category-fields, has_parent, is_found, map_children-assemble, map_some, nothing_below,
  root-listed, same_parent-eq,
}

module _ (locale_compare : Text → Text → Order) where
  -- The rows of one workspace that are listed, each with its parent.
  module _ (rows : List Category) (fine : IsForest rows) (w : Text) (include_archived : Bool)
      (type : Option TransactionType) where
    abbrev found : List Category
    found = filter (is_listed w include_archived type) rows

    found-attached :
        All (λ c. (p : Text) → c.parent_id ≡ some p → any (is_root_for c p) found ≡ true) found
    found-attached =
        All-weaken _ _ found
          (λ c (inside, attached) p e.
            any-filter (is_root_for c p) (is_listed w include_archived type) rows
            ∙ any-among (is_root_for c p) _ rows
                (All-always rows (λ q root. root-listed w include_archived type p c q inside root))
                (subst (λ o. attached_to o c rows ≡ true) e attached))
          (All-filtered _ (is_listed w include_archived type) rows fine.parents)

    no_grandchild :
        (c : Category)
        → ((P : Category → Type 0) → All P found → P c)
        → is_absent c.parent_id ≡ false
        → any (λ d. same_parent d.parent_id (some c.id)) found ≡ true
        → ⊥
    no_grandchild c self nested parent =
        let test = λ (d : Category). same_parent d.parent_id (some c.id) in
        let (d, at) = any-has test found parent in
        let held : test d ≡ true = find-holds test found d at in
        let root =
          All-find _ test found d found-attached at c.id (same_parent-eq d.parent_id c.id held) in
        let (q, here) = any-has (is_root_for d c.id) found root in
        let top : is_root_for d c.id q ≡ true = find-holds (is_root_for d c.id) found q here in
        let once : count (with_id c.id) found ≤ 1 = omega (
          arith,
          count-filter (with_id c.id) (is_listed w include_archived type) rows,
          fine.ids c.id,
        ) in
        let only =
          find-only (is_root_for d c.id) (with_id c.id) found q (λ r hit. ground arith) once here in
        let same : c ≡ q = self _ only ((text_eq_iff c.id c.id).1 refl) in
        let absent : is_absent c.parent_id ≡ true =
          subst (λ x. is_absent x.parent_id ≡ true) (sym same) (ground arith) in
        ground arith

    leaf-childless :
        All
          (λ c.
            is_absent c.parent_id ≡ false
            → any (λ d. same_parent d.parent_id (some c.id)) found ≡ false)
          found
    leaf-childless =
        All-weaken _ _ found
          (λ c self nested.
            elim (Bool-cases (any (λ d. same_parent d.parent_id (some c.id)) found)) [
              | inr childless ↦ childless
              | inl parent ↦ absurd (no_grandchild c self nested parent)
            ])
          (All-self found)

    abbrev below_roots : Category → Children
    below_roots c =
        assemble (λ _. no_more)
          (sort_categories locale_compare (filter (λ d. same_parent d.parent_id (some c.id)) found))

    children-build :
        (n : ℕ) (c : Category)
        → build locale_compare (suc (suc n)) found (some c.id) ≡ some (below_roots c)
    children-build n c =
        map_children-assemble _ (λ _. no_more) _
          (All-sort_categories locale_compare _ _ (
            All-weaken _ _ _
              (λ d (kid, childless).
                ap
                  (λ ds.
                    map_children (λ e. build locale_compare n found (some e.id))
                      (sort_categories locale_compare ds))
                  (filter-empty _ found (childless (has_parent d.parent_id c.id kid))))
              (All-filtered _ _ found leaf-childless)))

    -- Two levels are all that there are.
    hierarchy-build :
        hierarchy locale_compare w include_archived type rows
        ≡ some (
            assemble below_roots
              (sort_categories locale_compare (filter (λ c. same_parent c.parent_id none) found)))
    unfolding hierarchy
    hierarchy-build = map_children-assemble _ below_roots _ (
        All-sort_categories locale_compare
          (λ c.
            build locale_compare (suc (suc (length found))) found (some c.id)
            ≡ some (below_roots c))
          (filter (λ c. same_parent c.parent_id none) found)
          (All-always _ (λ c. children-build (length found) c)))

    below-found :
        (id : Text) (c : Category)
        → is_found (find_category (below_roots c) id)
          ≡ any (λ d. same_parent d.parent_id (some c.id) && (with_id id d || false)) found
    unfolding find_category
    below-found id c =
        find_category-assemble (λ _. no_more) id _
        ∙ any-sort_categories locale_compare _
            (filter (λ d. same_parent d.parent_id (some c.id)) found)
        ∙ any-filter _ (λ d. same_parent d.parent_id (some c.id)) found

    -- A root that has the identifier, or a child that does.
    abbrev leads_to : Text → Category → Bool
    leads_to id c =
        same_parent c.parent_id none
        && (with_id id c || is_found (find_category (below_roots c) id))

    leads_to-own : (id : Text) → any (leads_to id) found ≡ true → any (with_id id) found ≡ true
    leads_to-own id h =
        let (c, at) = any-has (leads_to id) found h in
        let held : leads_to id c ≡ true = find-holds (leads_to id) found c at in
        elim (Bool-cases (with_id id c)) [
          | inl here ↦ any-found (leads_to id) (with_id id) found c at here
          | inr other ↦
              any-among (λ d. same_parent d.parent_id (some c.id) && (with_id id d || false))
                (with_id id) found (All-always found (λ d hit. ground arith))
                (sym (below-found id c) ∙ ground arith)
        ]

    reached :
        (id : Text) (c : Category) (o : Option Text)
        → c.parent_id ≡ o
        → find (with_id id) found ≡ some c
        → any (leads_to id) found ≡ true
    reached id c none e at =
        let hit : with_id id c ≡ true = find-holds (with_id id) found c at in
        let top : same_parent c.parent_id none ≡ true =
          subst (λ o. same_parent o none ≡ true) (sym e) refl in
        any-found (with_id id) (leads_to id) found c at (ground arith)
    reached id c (some p) e at =
        let hit : with_id id c ≡ true = find-holds (with_id id) found c at in
        any-among (is_root_for c p) (leads_to id) found
          (All-always found (λ q root.
            let top : same_parent q.parent_id none ≡ true =
              absent-none q.parent_id (ground arith) in
            let same : q.id ≡ p = (text_eq_iff q.id p).0 (ground arith) in
            let kid : same_parent c.parent_id (some q.id) ≡ true =
              subst (λ o. same_parent o (some q.id) ≡ true) (sym e)
                ((text_eq_iff p q.id).1 (sym same)) in
            let below : is_found (find_category (below_roots q) id) ≡ true =
              below-found id q ∙ any-found (with_id id) _ found c at (ground arith) in
            ground arith))
          (All-find _ (with_id id) found c found-attached at p e)

    tree : Children
    tree =
        assemble below_roots
          (sort_categories locale_compare (filter (λ c. same_parent c.parent_id none) found))

    tree-found : (id : Text) → is_found (find_category tree id) ≡ any (leads_to id) found
    unfolding tree
    tree-found id =
        find_category-assemble below_roots id _
        ∙ any-sort_categories locale_compare _ (filter (λ c. same_parent c.parent_id none) found)
        ∙ any-filter _ (λ c. same_parent c.parent_id none) found

    tree-fields :
        (id : Text) (c : Category) (r : CategoryResponse)
        → find (with_id id) found ≡ some c
        → find_category tree id ≡ some r
        → fields r ≡ listed c
    unfolding tree
    tree-fields id c r at h =
        let once : count (with_id id) found ≤ 1 = omega (
          arith,
          count-filter (with_id id) (is_listed w include_archived type) rows,
          fine.ids id,
        ) in
        let only = find-only (with_id id) (with_id id) found c (λ r hit. hit) once at in
        let among = λ (q : Category → Bool).
          All-sort_categories locale_compare (λ d. with_id id d ≡ true → d ≡ c) (filter q found)
            (All-filter _ q found only) in
        find_category-fields below_roots id c _ r (among (λ c. same_parent c.parent_id none))
          (All-always _ (λ d r' e.
            find_category-fields (λ _. no_more) id c _ r'
              (among (λ x. same_parent x.parent_id (some d.id)))
              (All-always _ (λ x r'' e. nothing_below id r'' _ e)) e))
          h

    searched :
        (id : Text) (o : Option CategoryResponse) (f : Option Category)
        → find_category tree id ≡ o
        → find (with_id id) found ≡ f
        → map_some fields o ≡ map_some listed f
    searched id none none h at = refl
    searched id none (some c) h at =
        let no_hit : any (leads_to id) found ≡ false = sym (tree-found id) ∙ ap is_found h in
        let hit = reached id c c.parent_id refl at in absurd (ground arith)
    searched id (some r) none h at =
        let hit = leads_to-own id (sym (tree-found id) ∙ ap is_found h) in
        let no_hit = find-none-any (with_id id) found at in absurd (ground arith)
    searched id (some r) (some c) h at = ap some (tree-fields id c r at h)

abbrev pub fields_of :
    Option (Outcome CategoryError CategoryResponse) → Option (Outcome CategoryError Listed)
fields_of none = none
fields_of (some (ok r)) = some (ok (fields r))
fields_of (some (err e)) = some (err e)

answered :
    (o : Option CategoryResponse) (f : Option Listed)
    → map_some fields o ≡ f
    → fields_of (some (or_throw o category_not_found)) ≡ some (or_throw f category_not_found)
answered none f h = ap (λ f. some (or_throw f category_not_found)) h
answered (some r) f h = ap (λ f. some (or_throw f category_not_found)) h

-- Where identifiers are unique and categories form trees of two levels: `getCategoryById` comes to
-- an end, and answers with the fields of the row of the workspace that has the identifier, the type,
-- if one is asked for, and is active unless archived ones are asked for too. It answers that there
-- is no such category just where there is no such row.
pub get_category_by_id-listed :
    (locale_compare : Text → Text → Order) (id : Text) (include_archived : Bool)
    (type : Option TransactionType) (w : Text) (db : CategoryDb)
    → IsForest db.categories
    → fields_of (get_category_by_id locale_compare id include_archived type w db)
      ≡ some (
          or_throw
            (map_some listed (
              find
                (λ c. is_listed (trim w) include_archived type c && with_id (trim id) c)
                db.categories))
            category_not_found)
unfolding get_category_by_id tree
get_category_by_id-listed locale_compare id include_archived type w db fine =
    let rows = db.categories in
    ap
      (λ o. fields_of (
        o >>= λ categories.
        some (or_throw (find_category categories (trim id)) category_not_found)))
      (hierarchy-build locale_compare rows fine (trim w) include_archived type)
    ∙ answered _ _ (
        searched locale_compare rows fine (trim w) include_archived type (trim id) _ _ refl refl
        ∙ ap (map_some listed)
            (find-filter (with_id (trim id)) (is_listed (trim w) include_archived type) rows))
