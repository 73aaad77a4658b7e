-- ===== src/Tests/Memory.antt =====
-- Tables in memory that meet the laws of `GoalStore`, to run the goals service on.
use monqom.Common.{
  ℕ, suc, ◌+◌, ◌≤◌, ◌<◌, ◌≡◌, ◌≢◌, refl, ◌⊎◌, inl, inr, Bool, true, false, ◌&&◌, Option, none, some,
  List, [], ◌∷◌, arith, max, ◌==◌, if◌then◌else◌, find, ltb, Bool-cases, ap, sym, ◌∙◌, subst,
  subst⁻¹,
}
use monqom.Goals.Store.{
  GoalOperation, Goal, Workspace, AuditEvent, total, others, is_at, is_of, GoalStore,
}

pub record Tables : Type 0 where
  pub workspaces : ℕ → Option Workspace
  pub goals : ℕ → ℕ → Option Goal
  pub operations : ℕ → Option GoalOperation
  pub bound : ℕ
  pub log : List AuditEvent

abbrev pick : Option GoalOperation → ℕ → ℕ → ℕ → List GoalOperation → List GoalOperation
pick none k w i rest = rest
pick (some o) k w i rest = if (o.id == k) && is_of o w i then o ∷ rest else rest

-- The rows of a goal with an identifier below a bound.
abbrev collect : (ℕ → Option GoalOperation) → ℕ → ℕ → ℕ → List GoalOperation
collect rows w i ℕ.zero = []
collect rows w i (suc k) = pick (rows k) k w i (collect rows w i k)

abbrev goal_above : Option GoalOperation → ℕ
goal_above none = 0
goal_above (some o) = suc o.goal_id

abbrev unused_goal : (ℕ → Option GoalOperation) → ℕ → ℕ
unused_goal rows ℕ.zero = 0
unused_goal rows (suc k) = max (goal_above (rows k)) (unused_goal rows k)

abbrev at_key : Option Goal → ℕ → ℕ → Option Goal
at_key none w i = none
at_key (some g) w i = if is_at g w i then some g else none

abbrev drop_if : (GoalOperation → Bool) → Option GoalOperation → Option GoalOperation
drop_if p none = none
drop_if p (some o) = if p o then none else some o

pub collect_fresh :
    (f : GoalOperation → ℕ) (rows : ℕ → Option GoalOperation) (w i n : ℕ)
    → unused_goal rows n ≤ i
    → total f (collect rows w i n) ≡ 0
collect_fresh f rows w i ℕ.zero h = refl
collect_fresh f rows w i (suc k) h =
    elim (rows k)
        as (λ r.
          max (goal_above r) (unused_goal rows k) ≤ i
          → total f (pick r k w i (collect rows w i k)) ≡ 0) [
            | none ↦ λ h. collect_fresh f rows w i k (ground arith)
            | some o ↦ λ h. ground (arith, collect_fresh f rows w i k)
          ]
      h

pub others_above :
    (f : GoalOperation → ℕ) (rows : ℕ → Option GoalOperation) (w i n id : ℕ)
    → n ≤ id
    → total f (others id (collect rows w i n)) ≡ total f (collect rows w i n)
others_above f rows w i ℕ.zero id h = refl
others_above f rows w i (suc k) id h =
    elim (rows k)
      as (λ r.
        total f (others id (pick r k w i (collect rows w i k)))
        ≡ total f (pick r k w i (collect rows w i k))) [
          | none ↦ others_above f rows w i k id (ground arith)
          | some o ↦ ground (arith, others_above f rows w i k id)
        ]

-- Dropping the rows of a test.
pub collect_drop :
    (f : GoalOperation → ℕ) (rows : ℕ → Option GoalOperation) (v j w i n : ℕ)
    → total f (collect (λ k. drop_if (λ o. is_of o v j) (rows k)) w i n)
      ≡ (if (w == v) && (i == j) then 0 else total f (collect rows w i n))
collect_drop f rows v j w i ℕ.zero = ground arith
collect_drop f rows v j w i (suc k) =
    elim (rows k)
      as (λ r.
        total f (
          pick (drop_if (λ o. is_of o v j) r) k w i
            (collect (λ k. drop_if (λ o. is_of o v j) (rows k)) w i k))
        ≡ (if (w == v) && (i == j) then 0 else total f (pick r k w i (collect rows w i k)))) [
          | none ↦ collect_drop f rows v j w i k
          | some o ↦ ground (arith, collect_drop f rows v j w i k)
        ]

abbrev without : ℕ → ℕ → (ℕ → Option GoalOperation) → ℕ → Option GoalOperation
without v id rows k = if k == id then drop_if (λ o. o.workspace_id == v) (rows k) else rows k

pub collect-without :
    (f : GoalOperation → ℕ) (rows : ℕ → Option GoalOperation) (v id w i n : ℕ)
    → total f (collect (without v id rows) w i n)
      ≡ (if w == v then total f (others id (collect rows w i n)) else total f (collect rows w i n))
collect-without f rows v id w i ℕ.zero = ground arith
collect-without f rows v id w i (suc k) =
    elim (rows k)
      as (λ r.
        total f (
          pick (if k == id then drop_if (λ o. o.workspace_id == v) r else r) k w i
            (collect (without v id rows) w i k))
        ≡ (if w == v
            then total f (others id (pick r k w i (collect rows w i k)))
            else total f (pick r k w i (collect rows w i k)))) [
              | none ↦ ground (arith, collect-without f rows v id w i k)
              | some o ↦ ground (arith, collect-without f rows v id w i k)
            ]

below_one :
    (rows : ℕ → Option GoalOperation) (w i k id : ℕ) (o : GoalOperation)
    → (id < k) × (rows id ≡ some o) × (is_of o w i ≡ true)
    → (id < suc k) × (rows id ≡ some o) × (is_of o w i ≡ true)
below_one rows w i k id o (a, b, c) = (ground arith, b, c)

found_at :
    (r : GoalOperation) (k w i id : ℕ) (o : GoalOperation) (rest : List GoalOperation)
    → find (λ p. p.id == id) (pick (some r) k w i rest) ≡ some o
    → ((r ≡ o) × (k ≡ id) × (is_of r w i ≡ true)) ⊎ (find (λ p. p.id == id) rest ≡ some o)
found_at r k w i id o rest h = elim (Bool-cases ((r.id == k) && is_of r w i)) [
  | inl both ↦ elim (Bool-cases (r.id == id)) [
    | inl hit ↦ inl (ground arith, ground arith, ground arith)
    | inr miss ↦ inr (ground arith)
  ]
  | inr other ↦ inr (ground arith)
]

-- A row is found in its own goal only.
find_below :
    (rows : ℕ → Option GoalOperation) (w i n id : ℕ) (o : GoalOperation)
    → find (λ p. p.id == id) (collect rows w i n) ≡ some o
    → (id < n) × (rows id ≡ some o) × (is_of o w i ≡ true)
find_below rows w i ℕ.zero id o h = ground arith
find_below rows w i (suc k) id o h =
    elim (rows k)
        as (λ r.
          rows k ≡ r
          → find (λ p. p.id == id) (pick r k w i (collect rows w i k)) ≡ some o
          → (id < suc k) × (rows id ≡ some o) × (is_of o w i ≡ true)) [
            | none ↦ λ e h. below_one rows w i k id o (find_below rows w i k id o h)
            | some r ↦ λ e h. elim (found_at r k w i id o (collect rows w i k) h) [
              | inl (same, at, of) ↦ (
                ground arith,
                ap rows (sym at) ∙ e ∙ ap some same,
                subst (λ q. is_of q w i ≡ true) same of,
              )
              | inr below ↦ below_one rows w i k id o (find_below rows w i k id o below)
            ]
          ]
      refl h

some-injective : {A : Type 0} (a b : A) → some a ≡ some b → a ≡ b
some-injective a b e = cc

no_such_step :
    (f : GoalOperation → ℕ) (r : GoalOperation) (k w i id : ℕ) (o : GoalOperation)
    (rest : List GoalOperation)
    → (k ≡ id → r ≡ o)
    → is_of o w i ≡ false
    → total f (others id rest) ≡ total f rest
    → total f (others id (pick (some r) k w i rest)) ≡ total f (pick (some r) k w i rest)
no_such_step f r k w i id o rest same out h = elim (Bool-cases (r.id == id)) [
  | inl hit ↦ elim (Bool-cases (r.id == k)) [
    | inl at ↦
        let e : r ≡ o = same (ground arith) in
        let out' : is_of r w i ≡ false = subst⁻¹ (λ q. is_of q w i ≡ false) e out in ground arith
    | inr miss ↦ ground arith
  ]
  | inr miss ↦ ground arith
]

no_such_row :
    (f : GoalOperation → ℕ) (rows : ℕ → Option GoalOperation) (w i n id : ℕ) (o : GoalOperation)
    → rows id ≡ some o
    → is_of o w i ≡ false
    → total f (others id (collect rows w i n)) ≡ total f (collect rows w i n)
no_such_row f rows w i ℕ.zero id o h out = refl
no_such_row f rows w i (suc k) id o h out =
    elim (rows k)
        as (λ r.
          rows k ≡ r
          → total f (others id (pick r k w i (collect rows w i k)))
            ≡ total f (pick r k w i (collect rows w i k))) [
              | none ↦ λ e. no_such_row f rows w i k id o h out
              | some r ↦ λ e.
                  no_such_step f r k w i id o _ (λ at. some-injective r o (sym e ∙ ap rows at ∙ h))
                    out (no_such_row f rows w i k id o h out)
            ]
      refl

abbrev put : GoalOperation → (ℕ → Option GoalOperation) → ℕ → Option GoalOperation
put o rows k = if k == o.id then some o else rows k

-- Above the written row nothing of its identifier follows.
collect-put :
    (f : GoalOperation → ℕ) (rows : ℕ → Option GoalOperation) (o : GoalOperation) (w i n : ℕ)
    → total f (collect (put o rows) w i n) ≡ (
        if (is_of o w i) && (ltb o.id n)
        then total f (others o.id (collect rows w i n)) + f o
        else total f (others o.id (collect rows w i n)))
collect-put f rows o w i ℕ.zero = ground arith
collect-put f rows o w i (suc k) =
    elim (rows k)
      as (λ r.
        total f (pick (if k == o.id then some o else r) k w i (collect (put o rows) w i k)) ≡ (
          if (is_of o w i) && (ltb o.id (suc k))
          then total f (others o.id (pick r k w i (collect rows w i k))) + f o
          else total f (others o.id (pick r k w i (collect rows w i k))))) [
            | none ↦ ground (arith, collect-put f rows o w i k)
            | some r ↦ ground (arith, collect-put f rows o w i k)
          ]

others_top :
    (f : GoalOperation → ℕ) (rows : ℕ → Option GoalOperation) (w i n : ℕ)
    → total f (others n (collect rows w i (suc n))) ≡ total f (others n (collect rows w i n))
others_top f rows w i n =
    elim (rows n)
      as (λ r.
        total f (others n (pick r n w i (collect rows w i n)))
        ≡ total f (others n (collect rows w i n))) [ none ↦ refl | some o ↦ ground arith ]

pub total-put :
    (f : GoalOperation → ℕ) (rows : ℕ → Option GoalOperation) (o : GoalOperation) (w i n : ℕ)
    → ((old : GoalOperation) × (find (λ p. p.id == o.id) (collect rows o.workspace_id o.goal_id n)
          ≡ some old))
      ⊎ (o.id ≡ n)
    → total f (collect (put o rows) w i (max n (suc o.id))) ≡ (
        if is_of o w i
        then total f (others o.id (collect rows w i n)) + f o
        else total f (collect rows w i n))
total-put f rows o w i n (inl (old, found)) =
    let (below, here, own) = find_below rows o.workspace_id o.goal_id n o.id old found in
    let top : max n (suc o.id) ≡ n = ground arith in
    let put_here = collect-put f rows o w i n in
    let foreign = no_such_row f rows w i n o.id old here in
    subst⁻¹
      (λ m. total f (collect (put o rows) w i m) ≡ (
        if is_of o w i
        then total f (others o.id (collect rows w i n)) + f o
        else total f (collect rows w i n)))
      top (ground arith)
total-put f rows o w i n (inr new) =
    let top : max o.id (suc o.id) ≡ suc o.id = ground arith in
    let put_here = collect-put f rows o w i (suc o.id) in
    let above = others_above f rows w i o.id o.id in
    let last = others_top f rows w i o.id in
    subst
      (λ m. total f (collect (put o rows) w i (max m (suc o.id))) ≡ (
        if is_of o w i
        then total f (others o.id (collect rows w i m)) + f o
        else total f (collect rows w i m)))
      new
      (subst⁻¹
        (λ m. total f (collect (put o rows) w i m) ≡ (
          if is_of o w i
          then total f (others o.id (collect rows w i o.id)) + f o
          else total f (collect rows w i o.id)))
        top (ground arith))

pub foreign_total :
    (f : GoalOperation → ℕ) (rows : ℕ → Option GoalOperation) (w i j n id : ℕ) (o : GoalOperation)
    → find (λ p. p.id == id) (collect rows w i n) ≡ some o
    → i ≢ j
    → total f (others id (collect rows w j n)) ≡ total f (collect rows w j n)
foreign_total f rows w i j n id o found apart =
    let (below, here, own) = find_below rows w i n id o found in
    no_such_row f rows w j n id o here (ground arith)

pub at_key-id :
    (g' : Option Goal) (w i : ℕ) (g : Goal)
    → at_key g' w i ≡ some g
    → (g.workspace_id ≡ w) × (g.id ≡ i)
at_key-id none w i g h = cc
at_key-id (some g') w i g h = ground arith

pub at_key-stored :
    (g : Goal) (old : Option Goal) (w i : ℕ)
    → at_key (if is_at g w i then some g else old) w i
      ≡ (if is_at g w i then some g else at_key old w i)
at_key-stored g old w i =
    elim (is_at g w i)
        as (λ b.
          is_at g w i ≡ b
          → at_key (if b then some g else old) w i ≡ (if b then some g else at_key old w i)) [
            | true ↦ λ e. rw e
            | false ↦ λ e. refl
          ]
      refl

pub at_key-gone :
    (b : Bool) (old : Option Goal) (w i : ℕ)
    → at_key (if b then none else old) w i ≡ (if b then none else at_key old w i)
at_key-gone true old w i = refl
at_key-gone false old w i = refl

abbrev pub memory : GoalStore
memory = record {
  Db = Tables;
  find_workspace = λ t w. t.workspaces w;
  find_goal = λ t w i. at_key (t.goals w i) w i;
  operations_of = λ t w i. collect t.operations w i t.bound;
  audit_log = λ t. t.log;
  new_goal_id = λ t. unused_goal t.operations t.bound;
  new_operation_id = λ t. t.bound;
  put_goal = λ g t. record t { goals = λ w i. if is_at g w i then some g else t.goals w i };
  delete_goal = λ w i t. record t {
    goals = λ v j. if (v == w) && (j == i) then none else t.goals v j;
    operations = λ k. drop_if (λ o. is_of o w i) (t.operations k);
  };
  put_operation =
      λ o t. record t { operations = put o t.operations; bound = max t.bound (suc o.id) };
  delete_operation_row = λ v id t. record t { operations = without v id t.operations };
  record_event = λ e t. record t { log = e ∷ t.log };
  find-put_goal = λ g t w i. at_key-stored g (t.goals w i) w i;
  find-delete_goal = λ w i t v j. at_key-gone ((v == w) && (j == i)) (t.goals v j) v j;
  find-put_operation = λ o t w i. refl;
  find-delete_operation = λ v j t w i. refl;
  find-record_event = λ e t w i. refl;
  find-id = λ t w i g. at_key-id (t.goals w i) w i g;
  total-new_goal = λ f t w. collect_fresh f t.operations w _ t.bound (ground arith);
  total-put_goal = λ f g t w i. refl;
  total-delete_goal = λ f w i t v j. collect_drop f t.operations w i v j t.bound;
  total-new_operation = λ f t w i. others_above f t.operations w i t.bound t.bound (ground arith);
  total-put_operation = λ f o t w i. total-put f t.operations o w i t.bound;
  total-delete_operation = λ f v j t w i. collect-without f t.operations v j w i t.bound;
  total-foreign =
      λ f t w i j id o found apart. foreign_total f t.operations w i j t.bound id o found apart;
  total-record_event = λ f e t w i. refl;
  log-put_goal = λ g t. refl;
  log-delete_goal = λ w i t. refl;
  log-put_operation = λ o t. refl;
  log-delete_operation = λ w i t. refl;
  log-record_event = λ e t. refl;
}
