-- ===== src/PaymentSources/Tidy.antt =====
-- What holds of the rows of backend/src/modules/payment-sources, under each write.
use monqom.Common.{
  ℕ, ◌≤◌, ◌≡◌, refl, sym, subst, inl, inr, Bool, true, false, not, ◌&&◌, none, some, List, arith,
  if◌then◌else◌, any, find, push, All, Bool-cases,
}
use monqom.Common.Tables.{
  count, update_rows, count-update_rows, count-push, count-among, count-update_rows_fewer,
  any-count, any-push, any-update_rows, any-All-not, find-none-any, find-none-count,
  All-update_rows, All-weaken, All-always,
}
use monqom.Common.Text.{Text, text_eq, text_eq_iff}
use monqom.PaymentSources.Rows.{
  PaymentSource, WorkspaceMembership, is_unarchived, has_id, is_usable, is_named, is_excluded,
  prefers, with_preference, new_payment_source, edited, archived,
}

-- An unarchived source of a workspace whose name is compared as the key.
abbrev pub is_called : (Text → Text) → Text → Text → PaymentSource → Bool
is_called fold w key s = text_eq s.workspace_id w && is_unarchived s && text_eq (fold s.name) key

-- Identifiers are unique, and so are the names of the unarchived sources of a workspace.
pub record IsTidy (fold : Text → Text) (sources : List PaymentSource) : Type 0 where
  pub ids : (id : Text) → count (has_id id) sources ≤ 1
  pub names : (w key : Text) → count (is_called fold w key) sources ≤ 1

-- Each membership prefers an unarchived source of its workspace.
abbrev pub AreUsable : List PaymentSource → List WorkspaceMembership → Type 0
AreUsable sources =
    All (λ m. any (is_usable m.workspace_id m.last_payment_source_id) sources ≡ true)

fewer :
    (fold : Text → Text) (w id name type v key : Text) (s : PaymentSource)
    → (text_eq w v && text_eq (fold name) key) ≡ false
    → is_called fold v key (if is_usable w id s then edited name type s else s) ≡ true
    → is_called fold v key s ≡ true
fewer fold w id name type v key s other h = elim (Bool-cases (is_usable w id s)) [
  | inl hit ↦
      let same : s.workspace_id ≡ w = (text_eq_iff s.workspace_id w).0 (ground arith) in
      let with_key : is_called fold v key (edited name type s) ≡ true = ground arith in
      let own : text_eq w v ≡ true = subst (λ x. text_eq x v ≡ true) same (ground arith) in
      absurd (ground arith)
  | inr apart ↦ ground arith
]

module _ (fold : Text → Text) (sources : List PaymentSource) (fine : IsTidy fold sources) where
  pub IsTidy-push :
      (new_id w name type : Text)
      → any (has_id new_id) sources ≡ false
      → find (λ s. is_named fold w name s && not (is_excluded none s)) sources ≡ none
      → IsTidy fold (push sources (new_payment_source new_id w name type))
  IsTidy-push new_id w name type unused free =
      let new = new_payment_source new_id w name type in
      record {
        ids = λ id. elim (Bool-cases (text_eq new_id id)) [
          | inl here ↦
              let unseen : count (has_id id) sources ≡ 0 =
                subst (λ x. count (has_id x) sources ≡ 0) ((text_eq_iff new_id id).0 here)
                  (any-count (has_id new_id) sources unused) in
              ground (arith, count-push (has_id id) sources new)
          | inr other ↦ ground (arith, count-push (has_id id) sources new, fine.ids id)
        ];
        names = λ v key.
            elim (Bool-cases (is_called fold v key (new_payment_source new_id w name type))) [
              | inl here ↦
                  let same_w : w ≡ v = (text_eq_iff w v).0 (ground arith) in
                  let same_key : fold name ≡ key = (text_eq_iff (fold name) key).0 (ground arith) in
                  let unseen : count (is_named fold w name) sources ≡ 0 =
                    find-none-count _ (is_named fold w name) sources (λ s h. ground arith) free in
                  let unseen' : count (is_called fold v key) sources ≡ 0 =
                    subst (λ v. count (is_called fold v key) sources ≡ 0) same_w
                      (subst (λ k. count (is_called fold w k) sources ≡ 0) same_key unseen) in
                  ground (arith, count-push (is_called fold v key) sources new)
              | inr other ↦
                  ground (arith, count-push (is_called fold v key) sources new, fine.names v key)
            ];
      }

  pub IsTidy-archived :
      (w id : Text) (at : ℕ) → IsTidy fold (update_rows (is_usable w id) (archived at) sources)
  IsTidy-archived w id at = record {
    ids = λ n.
        subst (λ k. k ≤ 1)
          (sym (count-update_rows (has_id n) (is_usable w id) (archived at) sources (λ s. refl)))
          (fine.ids n);
    names = λ v key. omega (
      arith,
      count-update_rows_fewer (is_called fold v key) (is_usable w id) (archived at) sources
          (λ s h. ground arith),
      fine.names v key,
    );
  }

  pub IsTidy-edited :
      (w id name type : Text)
      → find (λ s. is_named fold w name s && not (is_excluded (some id) s)) sources ≡ none
      → IsTidy fold (update_rows (is_usable w id) (edited name type) sources)
  IsTidy-edited w id name type free = record {
    ids = same_ids;
    names = λ v key. elim (Bool-cases (text_eq w v && text_eq (fold name) key)) [
      | inl here ↦
          let same_w : w ≡ v = (text_eq_iff w v).0 (ground arith) in
          let same_key : fold name ≡ key = (text_eq_iff (fold name) key).0 (ground arith) in
          let rows = update_rows (is_usable w id) (edited name type) sources in
          let own : All (λ s. is_called fold v key s ≡ true → has_id id s ≡ true) rows =
            All-update_rows _ _ (is_usable w id) (edited name type) sources
              (λ s miss. elim (Bool-cases (is_usable w id s)) [
                | inl hit ↦ λ _. ground arith
                | inr apart ↦ λ called.
                    let now : is_called fold v key s ≡ true = ground arith in
                    let named : is_named fold w name s ≡ true =
                      subst (λ x. is_called fold x (fold name) s ≡ true) (sym same_w)
                        (subst (λ x. is_called fold v x s ≡ true) (sym same_key) now) in
                    ground arith
              ])
              (any-All-not _ sources (find-none-any _ sources free)) in
          omega (arith, count-among (is_called fold v key) (has_id id) rows own, same_ids id)
      | inr other ↦ omega (
        arith,
        count-update_rows_fewer (is_called fold v key) (is_usable w id) (edited name type) sources
            (λ s h. fewer fold w id name type v key s other h),
        fine.names v key,
      )
    ];
  }
    where
      same_ids :
          (n : Text)
          → count (has_id n) (update_rows (is_usable w id) (edited name type) sources) ≤ 1
      same_ids n =
          subst (λ k. k ≤ 1)
            (sym (
              count-update_rows (has_id n) (is_usable w id) (edited name type) sources (λ s. refl)))
            (fine.ids n)

AreUsable-grown :
    (sources more : List PaymentSource) (ms : List WorkspaceMembership)
    → ((w id : Text) → any (is_usable w id) sources ≡ true → any (is_usable w id) more ≡ true)
    → AreUsable sources ms
    → AreUsable more ms
AreUsable-grown sources more ms h =
    All-weaken _ _ ms (λ m. h m.workspace_id m.last_payment_source_id)

pub AreUsable-push :
    (sources : List PaymentSource) (s : PaymentSource) (ms : List WorkspaceMembership)
    → AreUsable sources ms
    → AreUsable (push sources s) ms
AreUsable-push sources s ms =
    AreUsable-grown sources _ ms (λ w id. any-push (is_usable w id) sources s)

pub AreUsable-edited :
    (sources : List PaymentSource) (w id name type : Text) (ms : List WorkspaceMembership)
    → AreUsable sources ms
    → AreUsable (update_rows (is_usable w id) (edited name type) sources) ms
AreUsable-edited sources w id name type ms = AreUsable-grown sources _ ms (λ v n.
    any-update_rows (is_usable v n) (is_usable v n) (is_usable w id) (edited name type) sources
      (All-always sources (λ s h. ground arith)))

not_preferred :
    (w id : Text) (m : WorkspaceMembership) (s : PaymentSource)
    → prefers w id m ≡ false
    → is_usable m.workspace_id m.last_payment_source_id s ≡ true
    → is_usable w id s ≡ false
not_preferred w id m s other h = elim (Bool-cases (is_usable w id s)) [
  | inr away ↦ away
  | inl bad ↦
      let own : s.workspace_id ≡ m.workspace_id =
        (text_eq_iff s.workspace_id m.workspace_id).0 (ground arith) in
      let same : s.id ≡ m.last_payment_source_id =
        (text_eq_iff s.id m.last_payment_source_id).0 (ground arith) in
      let in_w : text_eq m.workspace_id w ≡ true =
        subst (λ x. text_eq x w ≡ true) own (ground arith) in
      let with_it : text_eq m.last_payment_source_id id ≡ true =
        subst (λ x. text_eq x id ≡ true) same (ground arith) in
      absurd (ground arith)
]

-- A source is archived and the preferences for it are set to another one.
pub AreUsable-archived :
    (sources : List PaymentSource) (w id cash_id : Text) (at : ℕ) (ms : List WorkspaceMembership)
    → any (λ s. is_usable w cash_id s && not (is_usable w id s)) sources ≡ true
    → AreUsable sources ms
    → AreUsable
        (update_rows (is_usable w id) (archived at) sources)
        (update_rows (prefers w id) (with_preference cash_id) ms)
AreUsable-archived sources w id cash_id at ms cash fine =
    All-update_rows _ _ (prefers w id) (with_preference cash_id) ms
      (λ m usable. elim (Bool-cases (prefers w id m)) [
        | inl reset ↦ rw reset (
            subst
              (λ v.
                any (is_usable v cash_id) (update_rows (is_usable w id) (archived at) sources)
                ≡ true)
              (sym ((text_eq_iff m.workspace_id w).0 (ground arith)))
              (any-update_rows (λ s. is_usable w cash_id s && not (is_usable w id s))
                (is_usable w cash_id) (is_usable w id) (archived at) sources
                (All-always sources (λ s h. ground arith)) cash))
        | inr other ↦ rw other (
            any-update_rows (is_usable m.workspace_id m.last_payment_source_id) _ (is_usable w id)
              (archived at) sources
              (All-always sources
                (λ s h. let away = not_preferred w id m s other h in ground arith))
              usable)
      ])
      fine
