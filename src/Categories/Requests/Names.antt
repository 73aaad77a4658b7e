-- ===== src/Categories/Requests/Names.antt =====
-- The names of active siblings, where a row is put last or renamed, and the unique index of
-- backend/prisma/migrations/0019_security_foundations/migration.sql.
use monqom.Common.{
  ◌≤◌, ◌≡◌, refl, sym, ◌∙◌, subst, inl, inr, Bool, true, false, not, ◌&&◌, Option, none, some, List,
  [], ◌∷◌, arith, any, push, if◌then◌else◌, Bool-cases, All,
}
use monqom.Common.Tables.{count, update_rows}
use monqom.Common.Text.{Text, text_eq, text_eq_iff}
use monqom.Integrations.Contract.{TransactionType, expense, income}
use monqom.Categories.Rows.{
  Category, same_parent, same_type, with_id, in_group, twins, breaks_index,
}
use monqom.Categories.Checks.{CategoryValue, is_except}
use monqom.Categories.Service.{renamed}

text_eq_sym : (s t : Text) → text_eq s t ≡ true → text_eq t s ≡ true
text_eq_sym s t h = (text_eq_iff t s).1 (sym ((text_eq_iff s t).0 h))

text_eq_trans : (s t u : Text) → text_eq s t ≡ true → text_eq t u ≡ true → text_eq s u ≡ true
text_eq_trans s t u h k = (text_eq_iff s u).1 ((text_eq_iff s t).0 h ∙ (text_eq_iff t u).0 k)

same_parent_sym : (p q : Option Text) → same_parent p q ≡ true → same_parent q p ≡ true
same_parent_sym none none h = refl
same_parent_sym none (some q) h = cc
same_parent_sym (some p) none h = cc
same_parent_sym (some p) (some q) h = text_eq_sym p q h

same_type_sym : (s t : TransactionType) → same_type s t ≡ true → same_type t s ≡ true
same_type_sym expense expense h = refl
same_type_sym expense income h = cc
same_type_sym income expense h = cc
same_type_sym income income h = refl

module _ (fold lower : Text → Text)
    (agree : (s t : Text) → text_eq (lower s) (lower t) ≡ text_eq (fold s) (fold t)) where
  -- Of two rows with the same place in the index each stands in the group of the other.
  twins-in_group :
      (a b : Category)
      → twins lower a b ≡ true
      → ((in_group a.workspace_id a.parent_id a.type b && text_eq (fold b.name) (fold a.name))
          ≡ true)
        × ((in_group b.workspace_id b.parent_id b.type a && text_eq (fold a.name) (fold b.name))
            ≡ true)
  twins-in_group a b h =
      let same : text_eq (fold b.name) (fold a.name) ≡ true =
        sym (agree b.name a.name) ∙ ground arith in
      let named = text_eq_sym (fold b.name) (fold a.name) same in
      let placed = text_eq_sym b.workspace_id a.workspace_id (ground arith) in
      let parented = same_parent_sym b.parent_id a.parent_id (ground arith) in
      let typed = same_type_sym a.type b.type (ground arith) in (ground arith, ground arith)

  any-push-none :
      (q : Category → Bool) (rows : List Category) (c : Category)
      → any q rows ≡ false
      → q c ≡ false
      → any q (push rows c) ≡ false
  any-push-none q [] c e h = ground arith
  any-push-none q (d ∷ ds) c e h = ground (arith, any-push-none q ds c)

  -- A row that is put last has no twin where none has its name in its group.
  pub breaks_index-push :
      (c : Category) (rows : List Category)
      → any
          (λ d.
            in_group c.workspace_id c.parent_id c.type d
            && text_eq (fold d.name) (fold c.name)
            && not (is_except none d.id))
          rows
        ≡ false
      → breaks_index lower rows ≡ false
      → breaks_index lower (push rows c) ≡ false
  breaks_index-push c [] free e = refl
  breaks_index-push c (d ∷ ds) free e =
      let rest = breaks_index-push c ds (ground arith) (ground arith) in
      let alone : twins lower d c ≡ false = elim (Bool-cases (twins lower d c)) [
        | inl twin ↦ let (_, found) = twins-in_group d c twin in absurd (ground arith)
        | inr apart ↦ apart
      ] in
      let apart = any-push-none (twins lower d) ds c (ground arith) alone in ground arith

  module _ (w id old_name : Text) (value : CategoryValue) (existing : Category)
      (own : existing.workspace_id ≡ w) where
    abbrev after : Category → Category
    after c = if with_id id c then renamed value old_name c else c

    -- What is known of a row where the name is free.
    abbrev IsFree : Category → Type 0
    IsFree c =
        (with_id id c ≡ true → c ≡ existing)
        × ((in_group w value.parent_id existing.type c
              && text_eq (fold c.name) (fold value.name)
              && not (is_except (some id) c.id))
            ≡ false)

    clash :
        (a b : Category)
        → a ≡ existing
        → with_id id b ≡ false
        → IsFree b
        → (in_group a.workspace_id value.parent_id a.type b
            && text_eq (fold b.name) (fold value.name))
          ≡ true
        → ⊥
    clash a b same other (_, free) h =
        let found : (in_group w value.parent_id existing.type b
              && text_eq (fold b.name) (fold value.name))
            ≡ true =
          subst
            (λ v.
              (in_group v value.parent_id existing.type b
                && text_eq (fold b.name) (fold value.name))
              ≡ true)
            own
            (subst
              (λ x.
                (in_group x.workspace_id value.parent_id x.type b
                  && text_eq (fold b.name) (fold value.name))
                ≡ true)
              same h) in
        ground arith

    twins-after :
        (a b : Category)
        → IsFree a
        → IsFree b
        → (with_id id a && with_id id b) ≡ false
        → twins lower a b ≡ false
        → twins lower (after a) (after b) ≡ false
    twins-after a b free_a free_b one apart = elim (Bool-cases (with_id id a)) [
      | inl in_a ↦ elim (Bool-cases (twins lower (renamed value old_name a) b)) [
        | inl twin ↦ absurd (
            clash a b (free_a.0 in_a) (ground arith) free_b
              (twins-in_group (renamed value old_name a) b twin).0)
        | inr fine ↦ ground arith
      ]
      | inr out_a ↦ elim (Bool-cases (with_id id b)) [
        | inl in_b ↦ elim (Bool-cases (twins lower a (renamed value old_name b))) [
          | inl twin ↦ absurd (
              clash b a (free_b.0 in_b) out_a free_a
                (twins-in_group a (renamed value old_name b) twin).1)
          | inr fine ↦ ground arith
        ]
        | inr out_b ↦ ground arith
      ]
    ]

    any-twins-after :
        (c : Category) (rows : List Category)
        → IsFree c
        → All IsFree rows
        → count (with_id id) (c ∷ rows) ≤ 1
        → any (twins lower c) rows ≡ false
        → any (twins lower (after c)) (update_rows (with_id id) (renamed value old_name) rows)
          ≡ false
    any-twins-after c [] free all once e = refl
    any-twins-after c (d ∷ ds) free (first, others) once e =
        let one : (with_id id c && with_id id d) ≡ false = ground arith in
        let apart = twins-after c d free first one (ground arith) in
        let rest = any-twins-after c ds free others (ground arith) (ground arith) in ground arith

    pub breaks_index-after :
        (rows : List Category)
        → All IsFree rows
        → count (with_id id) rows ≤ 1
        → breaks_index lower rows ≡ false
        → breaks_index lower (update_rows (with_id id) (renamed value old_name) rows) ≡ false
    breaks_index-after [] all once e = refl
    breaks_index-after (c ∷ cs) (first, others) once e =
        let apart = any-twins-after c cs first others once (ground arith) in
        let rest = breaks_index-after cs others (ground arith) (ground arith) in ground arith
