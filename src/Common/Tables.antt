-- ===== src/Common/Tables.antt =====
-- Tables as lists of rows: how queries and updates fit together.
use monqom.Common.{
  ℕ, ◌+◌, ◌≤◌, ◌≡◌, refl, sym, ◌∙◌, subst, inl, inr, Bool, true, false, ◌&&◌, none, some, List, [],
  ◌∷◌, map, arith, if◌then◌else◌, any, find, filter, Bool-cases, All, push,
}

module _ {A : Type 0} where
  abbrev pub count : (A → Bool) → List A → ℕ
  count p [] = 0
  count p (r ∷ rs) = (if p r then 1 else 0) + count p rs

  -- `updateMany`: the rows that a condition holds of, changed
  abbrev pub update_rows : (A → Bool) → (A → A) → List A → List A
  update_rows p f = map (λ r. if p r then f r else r)

  -- Changes that leave a test's columns alone.
  pub count-update_rows :
      (q p : A → Bool) (f : A → A) (rs : List A)
      → ((r : A) → q (f r) ≡ q r)
      → count q (update_rows p f rs) ≡ count q rs
  count-update_rows q p f [] h = refl
  count-update_rows q p f (r ∷ rs) h = ground (arith, h r, count-update_rows q p f rs h)

  -- A query of columns that a change leaves alone finds the changed row.
  pub find-update_rows :
      (q p : A → Bool) (f : A → A) (rs : List A) (x : A)
      → ((r : A) → q r ≡ true → q (f r) ≡ true)
      → ((r : A) → q (f r) ≡ true → q r ≡ true)
      → find q rs ≡ some x
      → find q (update_rows p f rs) ≡ some (if p x then f x else x)
  find-update_rows q p f [] x to from e = cc
  find-update_rows q p f (r ∷ rs) x to from e =
      ground (arith, to r, from r, find-update_rows q p f rs x to from)

  pub find-holds : (q : A → Bool) (rs : List A) (x : A) → find q rs ≡ some x → q x ≡ true
  find-holds q [] x e = cc
  find-holds q (r ∷ rs) x e = ground (arith, find-holds q rs x)

  pub find-none-count :
      (q p : A → Bool) (rs : List A)
      → ((r : A) → p r ≡ true → q r ≡ true)
      → find q rs ≡ none
      → count p rs ≡ 0
  find-none-count q p [] h e = refl
  find-none-count q p (r ∷ rs) h e = ground (arith, h r, find-none-count q p rs h)

  count_zero-find :
      (q p : A → Bool) (rs : List A)
      → ((r : A) → q r ≡ true → p r ≡ true)
      → count p rs ≡ 0
      → find q rs ≡ none
  count_zero-find q p [] h e = refl
  count_zero-find q p (r ∷ rs) h e = ground (arith, h r, count_zero-find q p rs h)

  -- The only row that a query finds, changed so that the query no longer holds of it.
  pub find-gone :
      (q p u : A → Bool) (f : A → A) (rs : List A) (x : A)
      → ((r : A) → q r ≡ true → p r ≡ true)
      → ((r : A) → p (f r) ≡ p r)
      → ((r : A) → q (f r) ≡ true → q r ≡ true)
      → count p rs ≤ 1
      → find q rs ≡ some x
      → u x ≡ true
      → q (f x) ≡ false
      → find q (update_rows u f rs) ≡ none
  find-gone q p u f [] x h k back once e hit miss = cc
  find-gone q p u f (r ∷ rs) x h k back once e hit miss = elim (Bool-cases (q r)) [
    | inl here ↦
        let at : r ≡ x = ground arith in
        let rest : find q (update_rows u f rs) ≡ none =
          count_zero-find q p (update_rows u f rs) h
            (count-update_rows p u f rs k ∙ ground (arith, h r)) in
        let hit' : u r ≡ true = subst (λ y. u y ≡ true) (sym at) hit in
        let miss' : q (f r) ≡ false = subst (λ y. q (f y) ≡ false) (sym at) miss in ground arith
    | inr other ↦
        let found : find q rs ≡ some x = ground arith in
        let rest = find-gone q p u f rs x h k back (ground arith) found hit miss in
        ground (arith, back r)
  ]

  -- As that the change does not reach.
  pub filter-update_rows :
      (q p : A → Bool) (f : A → A) (rs : List A)
      → ((r : A) → p r ≡ true → q r ≡ false)
      → ((r : A) → q (f r) ≡ q r)
      → filter q (update_rows p f rs) ≡ filter q rs
  filter-update_rows q p f [] h k = refl
  filter-update_rows q p f (r ∷ rs) h k = ground (arith, h r, k r, filter-update_rows q p f rs h k)

  count_zero-any :
      (p u : A → Bool) (rs : List A)
      → ((r : A) → u r ≡ true → p r ≡ true)
      → count p rs ≡ 0
      → any u rs ≡ false
  count_zero-any p u [] h e = refl
  count_zero-any p u (r ∷ rs) h e = ground (arith, h r, count_zero-any p u rs h)

  -- Where a query can hold of one row only, a stronger test that holds of some row holds of that one.
  pub any-find :
      (q p u : A → Bool) (rs : List A) (x : A)
      → ((r : A) → q r ≡ true → p r ≡ true)
      → ((r : A) → u r ≡ true → q r ≡ true)
      → count p rs ≤ 1
      → find q rs ≡ some x
      → any u rs ≡ true
      → u x ≡ true
  any-find q p u [] x h k once e hit = cc
  any-find q p u (r ∷ rs) x h k once e hit = elim (Bool-cases (q r)) [
    | inl here ↦
        let at : r ≡ x = ground arith in
        let none_left : any u rs ≡ false =
          count_zero-any p u rs (λ y uy. h y (k y uy)) (ground (arith, h r)) in
        subst (λ y. u y ≡ true) at (ground arith)
    | inr other ↦
        let found : find q rs ≡ some x = ground arith in
        let not_here : u r ≡ false = elim (Bool-cases (u r)) [
          | inl bad ↦ absurd (ground (arith, k r))
          | inr fine ↦ fine
        ] in
        any-find q p u rs x h k (ground arith) found (ground arith)
  ]

  pub All-update_rows :
      (P R : A → Type 0) (u : A → Bool) (f : A → A) (rs : List A)
      → ((r : A) → P r → R (if u r then f r else r))
      → All P rs
      → All R (update_rows u f rs)
  All-update_rows P R u f [] h all = tt
  All-update_rows P R u f (r ∷ rs) h (first, others) =
      (h r first, All-update_rows P R u f rs h others)

  pub All-both : (P R : A → Type 0) (rs : List A) → All P rs → All R rs → All (λ r. P r × R r) rs
  All-both P R [] h k = tt
  All-both P R (r ∷ rs) (p, h) (q, k) = ((p, q), All-both P R rs h k)

  pub All-always : {P : A → Type 0} (rs : List A) → ((r : A) → P r) → All P rs
  All-always [] h = tt
  All-always (r ∷ rs) h = (h r, All-always rs h)

  pub All-weaken {ℓ κ} :
      (P : A → Type ℓ) (R : A → Type κ) (rs : List A) → ((r : A) → P r → R r) → All P rs → All R rs
  All-weaken P R [] h all = tt
  All-weaken P R (r ∷ rs) h (first, others) = (h r first, All-weaken P R rs h others)

  none_of-count :
      (p : A → Bool) (x : A) (rs : List A) → count p rs ≡ 0 → All (λ r. p r ≡ true → r ≡ x) rs
  none_of-count p x [] e = tt
  none_of-count p x (r ∷ rs) e = (λ h. absurd (ground arith), none_of-count p x rs (ground arith))

  find-count :
      (q p : A → Bool) (rs : List A) (x : A)
      → ((r : A) → q r ≡ true → p r ≡ true)
      → find q rs ≡ some x
      → 1 ≤ count p rs
  find-count q p [] x h e = cc
  find-count q p (r ∷ rs) x h e = ground (arith, h r, find-count q p rs x h)

  -- The row that a query finds is the only one with a property that one row at most has.
  pub find-only :
      (q p : A → Bool) (rs : List A) (x : A)
      → ((r : A) → q r ≡ true → p r ≡ true)
      → count p rs ≤ 1
      → find q rs ≡ some x
      → All (λ r. p r ≡ true → r ≡ x) rs
  find-only q p [] x h once e = tt
  find-only q p (r ∷ rs) x h once e = elim (Bool-cases (q r)) [
    | inl here ↦ (λ _. ground arith, none_of-count p x rs (ground (arith, h r)))
    | inr other ↦
        let found : find q rs ≡ some x = ground arith in
        let hit : p x ≡ true = h x (find-holds q rs x found) in
        (
          λ here. absurd (ground (arith, find-count q p rs x h found)),
          find-only q p rs x h (ground arith) found,
        )
  ]

  pub any-All-not : (q : A → Bool) (rs : List A) → any q rs ≡ false → All (λ r. q r ≡ false) rs
  any-All-not q [] h = tt
  any-All-not q (r ∷ rs) h = (ground arith, any-All-not q rs (ground arith))

  pub any-found :
      (q s : A → Bool) (rs : List A) (x : A) → find q rs ≡ some x → s x ≡ true → any s rs ≡ true
  any-found q s [] x e h = cc
  any-found q s (r ∷ rs) x e h = elim (Bool-cases (q r)) [
    | inl here ↦
        let at : r ≡ x = ground arith in
        let hit : s r ≡ true = subst (λ y. s y ≡ true) (sym at) h in ground arith
    | inr other ↦ ground (arith, any-found q s rs x)
  ]

  pub any-update_rows :
      (q s u : A → Bool) (f : A → A) (rs : List A)
      → All (λ r. q r ≡ true → s (if u r then f r else r) ≡ true) rs
      → any q rs ≡ true
      → any s (update_rows u f rs) ≡ true
  any-update_rows q s u f [] h e = cc
  any-update_rows q s u f (r ∷ rs) (first, others) e =
      ground (arith, first, any-update_rows q s u f rs others)

  pub any-among :
      (q s : A → Bool) (rs : List A)
      → All (λ r. q r ≡ true → s r ≡ true) rs
      → any q rs ≡ true
      → any s rs ≡ true
  any-among q s [] h e = cc
  any-among q s (r ∷ rs) (first, others) e = ground (arith, first, any-among q s rs others)

  pub any-push : (q : A → Bool) (rs : List A) (x : A) → any q rs ≡ true → any q (push rs x) ≡ true
  any-push q [] x e = cc
  any-push q (r ∷ rs) x e = ground (arith, any-push q rs x)

  pub count-push :
      (q : A → Bool) (rs : List A) (x : A)
      → count q (push rs x) ≡ count q rs + (if q x then 1 else 0)
  count-push q [] x = ground arith
  count-push q (r ∷ rs) x = ground (arith, count-push q rs x)

  pub any-count : (q : A → Bool) (rs : List A) → any q rs ≡ false → count q rs ≡ 0
  any-count q [] e = refl
  any-count q (r ∷ rs) e = ground (arith, any-count q rs)

  pub any-filter : (q s : A → Bool) (rs : List A) → any q (filter s rs) ≡ any (λ r. s r && q r) rs
  any-filter q s [] = refl
  any-filter q s (r ∷ rs) = ground (arith, any-filter q s rs)

  pub find-filter :
      (q s : A → Bool) (rs : List A) → find q (filter s rs) ≡ find (λ r. s r && q r) rs
  find-filter q s [] = refl
  find-filter q s (r ∷ rs) = ground (arith, find-filter q s rs)

  pub count-filter : (q s : A → Bool) (rs : List A) → count q (filter s rs) ≤ count q rs
  count-filter q s [] = ground arith
  count-filter q s (r ∷ rs) = ground (arith, count-filter q s rs)

  pub find-none-any : (q : A → Bool) (rs : List A) → find q rs ≡ none → any q rs ≡ false
  find-none-any q [] e = refl
  find-none-any q (r ∷ rs) e = ground (arith, find-none-any q rs)

  pub filter-empty : (q : A → Bool) (rs : List A) → any q rs ≡ false → filter q rs ≡ []
  filter-empty q [] e = refl
  filter-empty q (r ∷ rs) e = ground (arith, filter-empty q rs)

  pub All-find :
      (P : A → Type 0) (q : A → Bool) (rs : List A) (x : A) → All P rs → find q rs ≡ some x → P x
  All-find P q [] x h e = cc
  All-find P q (r ∷ rs) x (first, others) e = elim (Bool-cases (q r)) [
    | inl here ↦ let at : r ≡ x = ground arith in subst P at first
    | inr other ↦ All-find P q rs x others (ground arith)
  ]

  each_later :
      (rs all : List A) (r : A)
      → All (λ x. (P : A → Type 0) → All P all → P x) rs
      → All (λ x. (P : A → Type 0) → All P (r ∷ all) → P x) rs
  each_later [] all r h = tt
  each_later (x ∷ xs) all r (first, others) = ((λ P h. first P h.1), each_later xs all r others)

  -- What holds of all rows holds of each.
  pub All-self : (rs : List A) → All (λ r. (P : A → Type 0) → All P rs → P r) rs
  All-self [] = tt
  All-self (r ∷ rs) = ((λ P h. h.0), each_later rs rs r (All-self rs))

  pub All-filtered :
      (P : A → Type 0) (q : A → Bool) (rs : List A)
      → All P rs
      → All (λ r. (q r ≡ true) × P r) (filter q rs)
  All-filtered P q [] h = tt
  All-filtered P q (r ∷ rs) (p, h) = elim (Bool-cases (q r)) [
    | inl kept ↦ rw kept ((kept, p), All-filtered P q rs h)
    | inr gone ↦ rw gone (All-filtered P q rs h)
  ]

  pub any-has : (q : A → Bool) (rs : List A) → any q rs ≡ true → (x : A) × (find q rs ≡ some x)
  any-has q [] h = cc
  any-has q (r ∷ rs) h = elim (Bool-cases (q r)) [
    | inl here ↦ (r, ground arith)
    | inr other ↦ let (x, e) = any-has q rs (ground arith) in (x, ground arith)
  ]

  pub count-among :
      (p q : A → Bool) (rs : List A)
      → All (λ r. p r ≡ true → q r ≡ true) rs
      → count p rs ≤ count q rs
  count-among p q [] h = ground arith
  count-among p q (r ∷ rs) (first, others) = ground (arith, first, count-among p q rs others)

  -- A change after which a query finds no row that it did not find.
  pub count-update_rows_fewer :
      (q u : A → Bool) (f : A → A) (rs : List A)
      → ((r : A) → q (if u r then f r else r) ≡ true → q r ≡ true)
      → count q (update_rows u f rs) ≤ count q rs
  count-update_rows_fewer q u f [] h = ground arith
  count-update_rows_fewer q u f (r ∷ rs) h = ground (arith, h r, count-update_rows_fewer q u f rs h)

  pub filter-push_gone :
      (q : A → Bool) (rs : List A) (x : A) → q x ≡ false → filter q (push rs x) ≡ filter q rs
  filter-push_gone q [] x h = ground arith
  filter-push_gone q (r ∷ rs) x h = ground (arith, filter-push_gone q rs x h)

  pub filter-update_rows_among :
      (q u : A → Bool) (f : A → A) (rs : List A)
      → ((r : A) → q (f r) ≡ q r)
      → All (λ r. u r ≡ true → q r ≡ false) rs
      → filter q (update_rows u f rs) ≡ filter q rs
  filter-update_rows_among q u f [] k h = refl
  filter-update_rows_among q u f (r ∷ rs) k (first, others) =
      ground (arith, first, k r, filter-update_rows_among q u f rs k others)
