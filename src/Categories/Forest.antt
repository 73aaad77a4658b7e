-- ===== src/Categories/Forest.antt =====
-- The shape of the categories of a workspace, for the changes of rows that
-- backend/src/modules/categories/categories.service.ts makes.
pub mod Changes
use monqom.Common.{
  ℕ, suc, ◌+◌, ◌≤◌, ◌≡◌, refl, sym, ap, ◌∙◌, subst, inl, inr, Bool, true, false, not, ◌&&◌, ◌||◌,
  Option, none, some, List, [], ◌∷◌, arith, if◌then◌else◌, any, all, find, All, All-append, push,
  Bool-cases,
}
use monqom.Common.Tables.{
  count, update_rows, count-update_rows, All-update_rows, All-both, All-weaken, find-only,
  find-holds, any-All-not, any-update_rows, any-among, any-push, count-push, any-count,
}
use monqom.Common.Text.{Text, text_eq, text_eq_iff}
use monqom.Integrations.Contract.{TransactionType}
use monqom.Categories.Rows.{
  Category, is_absent, is_active, same_parent, same_type, of_type, with_id, is_in, is_child,
  in_family,
}
use monqom.Categories.Checks.{CategoryValue}
use monqom.Categories.Service.{archived_at, restored_now, reordered, renamed, reorder_from}

-- Whether a row can be the parent `p` of another one.
abbrev pub is_root_for : Category → Text → Category → Bool
is_root_for c p q =
    is_in c.workspace_id p q
    && same_type c.type q.type
    && is_absent q.parent_id
    && (not (is_active c) || is_active q)

abbrev pub attached_to : Option Text → Category → List Category → Bool
attached_to none c rows = true
attached_to (some p) c rows = any (is_root_for c p) rows

-- Identifiers are unique. The parent of a category is in its workspace, has its type and no parent,
-- and is active if the category is.
pub record IsForest (rows : List Category) : Type 0 where
  pub ids : (id : Text) → count (with_id id) rows ≤ 1
  pub parents : All (λ c. attached_to c.parent_id c rows ≡ true) rows

-- A change of rows that keeps identifiers.
module _ (u : Category → Bool) (f : Category → Category) (rows : List Category)
    (same_id : (c : Category) → (f c).id ≡ c.id) where
  abbrev after : Category → Category
  after c = if u c then f c else c

  pub IsForest-update_rows :
      All
        (λ c.
          attached_to c.parent_id c rows ≡ true
          → attached_to (after c).parent_id (after c) (update_rows u f rows) ≡ true)
        rows
      → IsForest rows
      → IsForest (update_rows u f rows)
  IsForest-update_rows h fine = record {
    ids = λ id.
        subst (λ k. k ≤ 1)
          (sym (count-update_rows (with_id id) u f rows (λ r. ap (λ x. text_eq x id) (same_id r))))
          (fine.ids id);
    parents =
        All-update_rows _ _ u f rows (λ c (attached, step). step attached)
          (All-both _ _ rows fine.parents h);
  }

  -- The row that was a parent still is one.
  pub attached-after :
      (c c' : Category) (p : Option Text)
      → ((id : Text)
          → p ≡ some id
          → All (λ q. is_root_for c id q ≡ true → is_root_for c' id (after q) ≡ true) rows)
      → attached_to p c rows ≡ true
      → attached_to p c' (update_rows u f rows) ≡ true
  attached-after c c' none h k = refl
  attached-after c c' (some id) h k =
      any-update_rows (is_root_for c id) (is_root_for c' id) u f rows (h id refl) k

  -- A change that keeps parents too, which may use what is known of each row.
  pub IsForest-kept :
      (Fact : Category → Type 0)
      → ((c : Category) → (f c).parent_id ≡ c.parent_id)
      → All Fact rows
      → ((c q : Category) (p : Text)
          → Fact c
          → Fact q
          → c.parent_id ≡ some p
          → is_root_for c p q ≡ true
          → is_root_for (after c) p (after q) ≡ true)
      → IsForest rows
      → IsForest (update_rows u f rows)
  IsForest-kept Fact same_parent facts step fine =
      let kept : (c : Category) → (after c).parent_id ≡ c.parent_id = λ c. elim (Bool-cases (u c)) [
        | inl yes' ↦ ground (arith, same_parent c)
        | inr no' ↦ ground arith
      ] in
      IsForest-update_rows
        (All-weaken Fact _ rows
          (λ c fact attached.
            subst (λ p. attached_to p (after c) (update_rows u f rows) ≡ true) (sym (kept c))
              (attached-after c (after c) c.parent_id
                (λ id e. All-weaken Fact _ rows (λ q other. step c q id fact other e) facts)
                attached))
          facts)
        fine
