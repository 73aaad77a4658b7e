-- ===== src/Categories/Reordering.antt =====
-- What `reorderCategories` of backend/src/modules/categories/categories.service.ts makes of each row.
use monqom.Common.{
  ℕ, suc, ◌+◌, ◌≡◌, refl, sym, ap, ◌∙◌, subst, inl, inr, false, not, ◌||◌, ◌==◌, Option, none, some,
  List, [], ◌∷◌, arith, if◌then◌else◌, find, length, Bool-cases,
}
use monqom.Common.Results.{Outcome, ok, throw_if, >>=-eq-ok, throw_if-eq-ok}
use monqom.Common.Tables.{update_rows}
use monqom.Common.Text.{Text, text_eq, text_eq_iff, includes}
use monqom.Categories.Rows.{Category, CategoryError, CategoryDb, with_id}
use monqom.Categories.Checks.{has_duplicates}
use monqom.Categories.Service.{
  reordered, reorder_from, reorder_ids, active_among, same_parents, record_reorder,
  reorder_categories_in,
}

abbrev pub index_of : ℕ → List Text → Text → Option ℕ
index_of n [] id = none
index_of n (t ∷ ts) id = let rest = index_of (suc n) ts id in if text_eq t id then some n else rest

-- A row whose identifier stands at an index of the list, counted from 0, or nowhere.
abbrev pub moved : Option ℕ → Option Category → Option Category
moved place none = none
moved none (some c) = some c
moved (some n) (some c) = some (reordered (n + 1) c)

index_of-missing :
    (n : ℕ) (ts : List Text) (id : Text) → includes ts id ≡ false → index_of n ts id ≡ none
index_of-missing n [] id h = refl
index_of-missing n (t ∷ ts) id h = ground (arith, index_of-missing (suc n) ts id)

moved-none : (o : Option Category) → moved none o ≡ o
moved-none none = refl
moved-none (some c) = refl

find-reordered :
    (id : Text) (n : ℕ) (rows : List Category)
    → find (with_id id) (update_rows (with_id id) (reordered (n + 1)) rows)
      ≡ moved (some n) (find (with_id id) rows)
find-reordered id n [] = refl
find-reordered id n (c ∷ cs) = ground (arith, find-reordered id n cs)

find-others :
    (t id : Text) (n : ℕ) (rows : List Category)
    → text_eq t id ≡ false
    → find (with_id id) (update_rows (with_id t) (reordered n) rows) ≡ find (with_id id) rows
find-others t id n [] h = refl
find-others t id n (c ∷ cs) h = elim (Bool-cases (with_id t c)) [
  | inl here ↦
      let own : with_id id c ≡ false =
        subst (λ x. text_eq x id ≡ false) (sym ((text_eq_iff c.id t).0 here)) h in
      ground (arith, find-others t id n cs)
  | inr other ↦ ground (arith, find-others t id n cs)
]

find-reorder_from :
    (n : ℕ) (ids : List Text) (rows : List Category) (id : Text)
    → has_duplicates ids ≡ false
    → find (with_id id) (reorder_from n ids rows)
      ≡ moved (index_of n ids id) (find (with_id id) rows)
find-reorder_from n [] rows id h = sym (moved-none (find (with_id id) rows))
find-reorder_from n (t ∷ ts) rows id h =
    let later = update_rows (with_id t) (reordered (n + 1)) rows in
    let rest = find-reorder_from (suc n) ts later id (ground arith) in
    elim (Bool-cases (text_eq t id)) [
      | inl here ↦
          let same : t ≡ id = (text_eq_iff t id).0 here in
          let missing : includes ts id ≡ false =
            subst (λ x. includes ts x ≡ false) same (ground arith) in
          rest
          ∙ ap (λ o. moved o (find (with_id id) later)) (index_of-missing (suc n) ts id missing)
          ∙ moved-none (find (with_id id) later)
          ∙ subst
              (λ x.
                find (with_id id) (update_rows (with_id x) (reordered (n + 1)) rows)
                ≡ moved (some n) (find (with_id id) rows))
              (sym same) (find-reordered id n rows)
          ∙ ap (λ b. moved (if b then some n else index_of (suc n) ts id) (find (with_id id) rows))
              (sym here)
      | inr other ↦
          rest
          ∙ ap (moved (index_of (suc n) ts id)) (find-others t id (n + 1) rows other)
          ∙ ap (λ b. moved (if b then some n else index_of (suc n) ts id) (find (with_id id) rows))
              (sym other)
    ]

second :
    (a a' : List Category) (d d' : CategoryDb)
    → ◌≡◌ {A = Outcome CategoryError (List Category × CategoryDb)} (ok (a, d)) (ok (a', d'))
    → d ≡ d'
second a a' d d' h = cc

-- Where `reorderCategories` succeeds: the row that is found by an identifier is afterwards the row
-- that was found before, with the place of the identifier among those given, counted from 1, for its
-- order if it is among them, and unchanged otherwise.
pub reorder_categories_in-order :
    (item_ids : List Text) (w : Text) (user_id : Option Text) (db db' : CategoryDb)
    (found : List Category) (id : Text)
    → reorder_categories_in item_ids w user_id db ≡ ok (found, db')
    → find (with_id id) db'.categories
      ≡ moved (index_of 0 (reorder_ids item_ids) id) (find (with_id id) db.categories)
unfolding reorder_categories_in
reorder_categories_in-order item_ids w user_id db db' found id h =
    let ids = reorder_ids item_ids in
    let rows = active_among w ids db.categories in
    let (_, distinct, h1) = >>=-eq-ok (throw_if ((length ids == 0) || has_duplicates ids) _) _ h in
    let (_, _, h2) =
      >>=-eq-ok (throw_if (not (length rows == length ids) || not (same_parents rows)) _) _ h1 in
    let changed : CategoryDb = record {
      categories = reorder_from 0 ids db.categories;
      audit_log = record_reorder user_id w ids db.audit_log;
    } in
    let single : has_duplicates ids ≡ false =
      ground (arith, throw_if-eq-ok ((length ids == 0) || has_duplicates ids) _ _ distinct) in
    subst
      (λ d.
        find (with_id id) d.categories
        ≡ moved (index_of 0 ids id) (find (with_id id) db.categories))
      (second rows found changed db' h2) (find-reorder_from 0 ids db.categories id single)
