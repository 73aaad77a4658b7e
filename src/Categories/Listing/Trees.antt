-- ===== src/Categories/Listing/Trees.antt =====
-- Searches of trees of responses, and the parents of rows that are listed.
use monqom.Common.{
  ◌≡◌, refl, sym, ap, ◌∙◌, subst, inl, inr, Bool, true, false, not, ◌&&◌, ◌||◌, Option, none, some,
  List, [], ◌∷◌, arith, any, All, Bool-cases, Option-cases,
}
use monqom.Common.Text.{Text, text_eq, text_eq_iff}
use monqom.Integrations.Contract.{TransactionType, expense, income}
use monqom.Categories.Rows.{Category, is_absent, same_parent, same_type, of_type, with_id}
use monqom.Categories.Hierarchy.{
  CategoryResponse, response, Children, no_more, child, Listed, listed, map_category, Order,
  precedes, insert_sorted, sort_categories, map_children, is_listed, find_category,
}
use monqom.Categories.Forest.{is_root_for}

-- The tree where each row has these children.
abbrev pub assemble : (Category → Children) → List Category → Children
assemble g [] = no_more
assemble g (c ∷ cs) = child (map_category c (g c)) (assemble g cs)

pub map_children-assemble :
    (grow : Category → Option Children) (g : Category → Children) (cs : List Category)
    → All (λ c. grow c ≡ some (g c)) cs
    → map_children grow cs ≡ some (assemble g cs)
map_children-assemble grow g [] h = refl
map_children-assemble grow g (c ∷ cs) (first, others) =
    ground (arith, first, map_children-assemble grow g cs others)

abbrev pub is_found : Option CategoryResponse → Bool
is_found r = not (is_absent r)

-- A search of a tree finds something where an identifier is the one sought.
pub find_category-assemble :
    (g : Category → Children) (id : Text) (cs : List Category)
    → is_found (find_category (assemble g cs) id)
      ≡ any (λ c. with_id id c || is_found (find_category (g c) id)) cs
unfolding find_category
find_category-assemble g id [] = refl
find_category-assemble g id (c ∷ cs) = ground (arith, find_category-assemble g id cs)

abbrev pub fields : CategoryResponse → Listed
fields (response l _) = l

pub find_category-fields :
    (g : Category → Children) (id : Text) (x : Category) (cs : List Category) (r : CategoryResponse)
    → All (λ c. with_id id c ≡ true → c ≡ x) cs
    → All (λ c. (r : CategoryResponse) → find_category (g c) id ≡ some r → fields r ≡ listed x) cs
    → find_category (assemble g cs) id ≡ some r
    → fields r ≡ listed x
unfolding find_category
find_category-fields g id x [] r h k e = cc
find_category-fields g id x (c ∷ cs) r (first, others) (below, more) e =
    elim (Bool-cases (with_id id c)) [
      | inl here ↦
          let same : map_category c (g c) ≡ r = ground arith in
          ap fields (sym same) ∙ ap listed (first here)
      | inr other ↦ elim (Option-cases (find_category (g c) id)) [
        | inl missing ↦ find_category-fields g id x cs r others more (ground arith)
        | inr (y, found) ↦ let same : y ≡ r = ground arith in ap fields (sym same) ∙ below y found
      ]
    ]

same_type-eq : (s t : TransactionType) → same_type s t ≡ true → s ≡ t
same_type-eq expense expense h = refl
same_type-eq expense income h = cc
same_type-eq income expense h = cc
same_type-eq income income h = refl

of_type-same :
    (o : Option TransactionType) (c q : Category)
    → same_type c.type q.type ≡ true
    → of_type o c ≡ true
    → of_type o q ≡ true
of_type-same none c q h k = refl
of_type-same (some t) c q h k = subst (λ s. same_type t s ≡ true) (same_type-eq c.type q.type h) k

pub has_parent :
    (o : Option Text) (id : Text) → same_parent o (some id) ≡ true → is_absent o ≡ false
has_parent none id h = cc
has_parent (some p) id h = refl

pub absent-none : (o : Option Text) → is_absent o ≡ true → same_parent o none ≡ true
absent-none none h = refl
absent-none (some p) h = cc

pub nothing_below :
    (id : Text) (r : CategoryResponse) (l : Listed)
    → find_category no_more id ≡ some r
    → fields r ≡ l
unfolding find_category
nothing_below id r l e = cc

abbrev pub map_some : {A B : Type 0} → (A → B) → Option A → Option B
map_some f none = none
map_some f (some a) = some (f a)

pub same_parent-eq : (o : Option Text) (id : Text) → same_parent o (some id) ≡ true → o ≡ some id
same_parent-eq none id h = cc
same_parent-eq (some p) id h = ap some ((text_eq_iff p id).0 h)

-- The parent of a row that is listed is listed.
pub root-listed :
    (w : Text) (include_archived : Bool) (type : Option TransactionType) (p : Text) (c q : Category)
    → is_listed w include_archived type c ≡ true
    → is_root_for c p q ≡ true
    → (is_listed w include_archived type q && is_root_for c p q) ≡ true
root-listed w include_archived type p c q inside root =
    let same : q.workspace_id ≡ c.workspace_id =
      (text_eq_iff q.workspace_id c.workspace_id).0 (ground arith) in
    let own : text_eq q.workspace_id w ≡ true =
      subst (λ x. text_eq x w ≡ true) (sym same) (ground arith) in
    ground (arith, of_type-same type c q)

module _ (locale_compare : Text → Text → Order) where
  any-insert_sorted :
      (q : Category → Bool) (c : Category) (cs : List Category)
      → any q (insert_sorted locale_compare c cs) ≡ (q c || any q cs)
  any-insert_sorted q c [] = refl
  any-insert_sorted q c (d ∷ ds) = ground (arith, any-insert_sorted q c ds)

  pub any-sort_categories :
      (q : Category → Bool) (cs : List Category)
      → any q (sort_categories locale_compare cs) ≡ any q cs
  any-sort_categories q [] = refl
  any-sort_categories q (c ∷ cs) =
      any-insert_sorted q c (sort_categories locale_compare cs)
      ∙ ap (λ b. q c || b) (any-sort_categories q cs)

  All-insert_sorted :
      (P : Category → Type 0) (c : Category) (cs : List Category)
      → P c
      → All P cs
      → All P (insert_sorted locale_compare c cs)
  All-insert_sorted P c [] p h = (p, tt)
  All-insert_sorted P c (d ∷ ds) p (q, h) = elim (Bool-cases (precedes locale_compare d c)) [
    | inl before ↦ rw before (q, All-insert_sorted P c ds p h)
    | inr after ↦ rw after (p, (q, h))
  ]

  pub All-sort_categories :
      (P : Category → Type 0) (cs : List Category)
      → All P cs
      → All P (sort_categories locale_compare cs)
  All-sort_categories P [] h = tt
  All-sort_categories P (c ∷ cs) (p, h) = All-insert_sorted P c _ p (All-sort_categories P cs h)
