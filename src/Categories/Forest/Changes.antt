-- ===== src/Categories/Forest/Changes.antt =====
-- Each change of rows of backend/src/modules/categories/categories.service.ts and the shape of rows.
use monqom.Common.{
  ℕ, suc, ◌+◌, ◌≡◌, refl, sym, ap, ◌∙◌, subst, inl, inr, Bool, true, false, not, ◌&&◌, Option, none,
  some, List, [], ◌∷◌, arith, if◌then◌else◌, any, All, All-append, push, Bool-cases,
}
use monqom.Common.Tables.{count, update_rows, All-both, All-weaken, any-push, count-push, any-count}
use monqom.Common.Text.{Text, text_eq, text_eq_iff}
use monqom.Categories.Rows.{
  Category, is_absent, is_active, same_parent, with_id, is_child, in_family,
}
use monqom.Categories.Checks.{CategoryValue}
use monqom.Categories.Service.{archived_at, restored_now, reordered, renamed, reorder_from}
use monqom.Categories.Forest.{
  IsForest, IsForest-kept, IsForest-update_rows, attached-after, attached_to, is_root_for,
}

All-unit : (rows : List Category) → All (λ c. Unit {0}) rows
All-unit [] = tt
All-unit (c ∷ cs) = (tt, All-unit cs)

absent-same_parent :
    (o : Option Text) (id : Text) → is_absent o ≡ true → same_parent o (some id) ≡ false
absent-same_parent none id h = refl
absent-same_parent (some p) id h = cc

-- A family has the children of each of its roots.
family_of_root :
    (w id p : Text) (c q : Category)
    → c.parent_id ≡ some p
    → is_root_for c p q ≡ true
    → in_family w id q ≡ true
    → (with_id id q ≡ true) × (in_family w id c ≡ true)
family_of_root w id p c q e root family =
    let same_workspace : q.workspace_id ≡ c.workspace_id =
      (text_eq_iff q.workspace_id c.workspace_id).0 (ground arith) in
    let same_id : q.id ≡ p = (text_eq_iff q.id p).0 (ground arith) in
    let of_workspace : text_eq q.workspace_id w ≡ true = ground arith in
    let rootless : same_parent q.parent_id (some id) ≡ false =
      absent-same_parent q.parent_id id (ground arith) in
    let of_id : text_eq q.id id ≡ true = ground arith in
    let hit : same_parent c.parent_id (some id) ≡ true =
      subst (λ o. same_parent o (some id) ≡ true) (sym e)
        (subst (λ x. text_eq x id ≡ true) same_id of_id) in
    let here : text_eq c.workspace_id w ≡ true =
      subst (λ x. text_eq x w ≡ true) same_workspace of_workspace in
    (of_id, ground arith)

pub IsForest-archived :
    (w id : Text) (at : ℕ) (rows : List Category)
    → IsForest rows
    → IsForest (update_rows (in_family w id) (archived_at at) rows)
IsForest-archived w id at rows fine =
    IsForest-kept (in_family w id) (archived_at at) rows (λ c. refl) (λ c. Unit {0}) (λ c. refl)
      (All-unit rows)
      (λ c q p _ _ e root. elim (Bool-cases (in_family w id q)) [
        | inl inside ↦ let (_, also) = family_of_root w id p c q e root inside in ground arith
        | inr outside ↦ elim (Bool-cases (in_family w id c)) [
          | inl inside ↦ ground arith
          | inr not_inside ↦ ground arith
        ]
      ])
      fine

pub IsForest-reordered :
    (id : Text) (n : ℕ) (rows : List Category)
    → IsForest rows
    → IsForest (update_rows (with_id id) (reordered n) rows)
IsForest-reordered id n rows fine =
    IsForest-kept (with_id id) (reordered n) rows (λ c. refl) (λ c. Unit {0}) (λ c. refl)
      (All-unit rows) (λ c q p _ _ e root. ground arith) fine

pub IsForest-reorder_from :
    (index : ℕ) (ids : List Text) (rows : List Category)
    → IsForest rows
    → IsForest (reorder_from index ids rows)
IsForest-reorder_from index [] rows fine = fine
IsForest-reorder_from index (id ∷ ids) rows fine =
    IsForest-reorder_from (suc index) ids _ (IsForest-reordered id (index + 1) rows fine)

each_row :
    (o : Option Text) (rows : List Category)
    → ((p : Text) → o ≡ some p → All (λ c. with_id p c ≡ true → is_active c ≡ true) rows)
    → All (λ c. (p : Text) → o ≡ some p → with_id p c ≡ true → is_active c ≡ true) rows
each_row o [] h = tt
each_row o (c ∷ cs) h = ((λ p e. (h p e).0), each_row o cs (λ p e. (h p e).1))

-- A family has the parents of its children.
family_root :
    (w id p : Text) (c q : Category)
    → c.parent_id ≡ some p
    → is_root_for c p q ≡ true
    → in_family w id c ≡ true
    → with_id id c ≡ false
    → in_family w id q ≡ false
    → ⊥
family_root w id p c q e root family child outside =
    let same_workspace : q.workspace_id ≡ c.workspace_id =
      (text_eq_iff q.workspace_id c.workspace_id).0 (ground arith) in
    let same_id : q.id ≡ p = (text_eq_iff q.id p).0 (ground arith) in
    let hit : same_parent c.parent_id (some id) ≡ true = ground arith in
    let of_id : text_eq q.id id ≡ true =
      subst (λ x. text_eq x id ≡ true) (sym same_id)
        (subst (λ o. same_parent o (some id) ≡ true) e hit) in
    let here : text_eq q.workspace_id w ≡ true =
      subst (λ x. text_eq x w ≡ true) (sym same_workspace) (ground arith) in
    ground arith

-- Where the parent of the category, if it has one, is active.
pub IsForest-restored :
    (w id : Text) (category : Category) (rows : List Category)
    → All (λ c. with_id id c ≡ true → c ≡ category) rows
    → ((p : Text)
        → category.parent_id ≡ some p
        → All (λ c. with_id p c ≡ true → is_active c ≡ true) rows)
    → IsForest rows
    → IsForest (update_rows (in_family w id) restored_now rows)
IsForest-restored w id category rows only active fine =
    IsForest-kept (in_family w id) restored_now rows (λ c. refl) _ (λ c. refl)
      (All-both _
        (λ c. (p : Text) → category.parent_id ≡ some p → with_id p c ≡ true → is_active c ≡ true)
        rows only (each_row category.parent_id rows active))
      (λ c q p (one, _) (_, live) e root. elim (Bool-cases (in_family w id q)) [
        | inl inside ↦ let (_, also) = family_of_root w id p c q e root inside in ground arith
        | inr outside ↦ elim (Bool-cases (in_family w id c)) [
          | inl inside ↦ elim (Bool-cases (with_id id c)) [
            | inl here ↦
                let same : c.parent_id ≡ category.parent_id = ap (λ x. x.parent_id) (one here) in
                let on : is_active q ≡ true = live p (sym same ∙ e) (ground arith) in ground arith
            | inr child ↦ absurd (family_root w id p c q e root inside child outside)
          ]
          | inr not_inside ↦ ground arith
        ]
      ])
      fine

childless_each :
    (q : Category → Bool) (b : Bool) (rows : List Category)
    → (any q rows && b) ≡ false
    → All (λ c. (q c && b) ≡ false) rows
childless_each q b [] h = tt
childless_each q b (c ∷ cs) h = (ground arith, childless_each q b cs (ground arith))

renamed_root :
    (w id p old_name : Text) (value : CategoryValue) (existing c q : Category)
    → existing.workspace_id ≡ w
    → (is_child w id c && not (is_absent value.parent_id)) ≡ false
    → (with_id id q ≡ true → q ≡ existing)
    → c.parent_id ≡ some p
    → is_root_for c p q ≡ true
    → is_root_for c p (if with_id id q then renamed value old_name q else q) ≡ true
renamed_root w id p old_name value existing c q of_workspace childless one e root =
    elim (Bool-cases (with_id id q)) [
      | inr other ↦ ground arith
      | inl here ↦
          let own : q.workspace_id ≡ c.workspace_id =
            (text_eq_iff q.workspace_id c.workspace_id).0 (ground arith) in
          let in_workspace : c.workspace_id ≡ w =
            sym own ∙ ap (λ x. x.workspace_id) (one here) ∙ of_workspace in
          let on : text_eq c.workspace_id w ≡ true =
            (text_eq_iff c.workspace_id w).1 in_workspace in
          let same_id : q.id ≡ p = (text_eq_iff q.id p).0 (ground arith) in
          let hit : same_parent c.parent_id (some id) ≡ true =
            subst (λ o. same_parent o (some id) ≡ true) (sym e)
              (subst (λ x. text_eq x id ≡ true) same_id here) in
          ground arith
    ]

-- A new parent is no child, and a category that gets a parent has no children.
pub IsForest-renamed :
    (w id old_name : Text) (value : CategoryValue) (existing : Category) (rows : List Category)
    → All (λ c. with_id id c ≡ true → c ≡ existing) rows
    → existing.workspace_id ≡ w
    → (any (is_child w id) rows && not (is_absent value.parent_id)) ≡ false
    → attached_to value.parent_id
        (renamed value old_name existing)
        (update_rows (with_id id) (renamed value old_name) rows)
      ≡ true
    → IsForest rows
    → IsForest (update_rows (with_id id) (renamed value old_name) rows)
IsForest-renamed w id old_name value existing rows only of_workspace childless found fine =
    IsForest-update_rows (with_id id) (renamed value old_name) rows (λ c. refl)
      (All-weaken _ _ rows
        (λ c (one, kept) attached. elim (Bool-cases (with_id id c)) [
          | inl here ↦ rw here (
              subst
                (λ x.
                  attached_to value.parent_id (renamed value old_name x)
                    (update_rows (with_id id) (renamed value old_name) rows)
                  ≡ true)
                (sym (one here)) found)
          | inr other ↦ rw other (
              attached-after (with_id id) (renamed value old_name) rows (λ c. refl) c c c.parent_id
                (λ p e.
                  All-weaken _ _ rows
                    (λ q one root.
                      renamed_root w id p old_name value existing c q of_workspace kept one e root)
                    only)
                attached)
        ])
        (All-both _ _ rows only (childless_each (is_child w id) _ rows childless)))
      fine

attached-push :
    (p : Option Text) (c : Category) (rows : List Category) (d : Category)
    → attached_to p c rows ≡ true
    → attached_to p c (push rows d) ≡ true
attached-push none c rows d h = refl
attached-push (some p) c rows d h = any-push (is_root_for c p) rows d h

-- A new row with an unused identifier, under a parent that can be its own.
pub IsForest-push :
    (c : Category) (rows : List Category)
    → any (with_id c.id) rows ≡ false
    → attached_to c.parent_id c rows ≡ true
    → IsForest rows
    → IsForest (push rows c)
IsForest-push c rows unused attached fine = record {
  ids = λ id. elim (Bool-cases (with_id id c)) [
    | inl here ↦
        let same : c.id ≡ id = (text_eq_iff c.id id).0 here in
        let unseen : count (with_id id) rows ≡ 0 =
          subst (λ x. count (with_id x) rows ≡ 0) same (any-count (with_id c.id) rows unused) in
        ground (arith, count-push (with_id id) rows c)
    | inr other ↦ ground (arith, count-push (with_id id) rows c, fine.ids id)
  ];
  parents =
      All-append _ rows (c ∷ [])
        (All-weaken _ _ rows (λ d. attached-push d.parent_id d rows c) fine.parents)
        (attached-push c.parent_id c rows c attached, tt);
}
