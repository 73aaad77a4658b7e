-- ===== src/Budgets/Progress/Totals.antt =====
-- The cached recursion of `getTotalSpent` against sums over the tree of categories.
use monqom.Common.{
  ℕ, suc, ◌+◌, ◌<◌, ◌≡◌, refl, sym, ◌∙◌, Option, none, some, List, [], ◌∷◌, arith, All,
}
use monqom.Budgets.Progress.{Dict, set_entry, get_or, reduce_children, get_total_spent}

abbrev pub sum_of : (ℕ → ℕ) → List ℕ → ℕ
sum_of f [] = 0
sum_of f (id ∷ ids) = f id + sum_of f ids

-- What is spent in a category and in those below it: its own spending and that of its children.
abbrev pub IsTreeTotal : Dict ℕ → Dict (List ℕ) → (ℕ → ℕ) → Type 0
IsTreeTotal own children total =
    (id : ℕ) → total id ≡ get_or (own id) 0 + sum_of total (get_or (children id) [])

-- Each category stands above its children, by a measure that is below the fuel.
abbrev pub IsTree : Dict (List ℕ) → (ℕ → ℕ) → ℕ → Type 0
IsTree children height fuel =
    (id : ℕ) → (height id < fuel) × All (λ c. height c < height id) (get_or (children id) [])

module _ (total : ℕ → ℕ) where
  -- A cache that holds totals.
  abbrev pub IsSound : Dict ℕ → Type 0
  IsSound cache = (id v : ℕ) → cache id ≡ some v → v ≡ total id

  abbrev pub Gives : ℕ → ℕ × Dict ℕ → Type 0
  Gives spent (v, cache) = (v ≡ spent) × IsSound cache

  set_entry-IsSound :
      (cache : Dict ℕ) (id v : ℕ) → IsSound cache → v ≡ total id → IsSound (set_entry cache id v)
  set_entry-IsSound cache id v h e k u = ground (arith, h k u)

  cached-Gives :
      (id : ℕ) (cache : Dict ℕ) (r : ℕ × Dict ℕ) (o : Option ℕ)
      → cache id ≡ o
      → IsSound cache
      → r.0 ≡ total id
      → IsSound r.1
      → Gives
          (total id)
          (elim o [ some cached ↦ (cached, cache) | none ↦ (r.0, set_entry r.1 id r.0) ])
  cached-Gives id cache r none e h s sound = (s, set_entry-IsSound r.1 id r.0 sound s)
  cached-Gives id cache r (some v) e h s sound = (h id v e, h)

  reduce_children-Gives :
      (get : ℕ → Dict ℕ → ℕ × Dict ℕ) (P : ℕ → Type 0)
      → ((id : ℕ) (cache : Dict ℕ) → P id → IsSound cache → Gives (total id) (get id cache))
      → (ids : List ℕ) (sum : ℕ) (cache : Dict ℕ) → All P ids
      → IsSound cache
      → Gives (sum + sum_of total ids) (reduce_children get ids sum cache)
  reduce_children-Gives get P gives [] sum cache below h = (omega arith, h)
  reduce_children-Gives get P gives (id ∷ ids) sum cache (first, below) h =
      let (v, sound) = gives id cache first h in
      let (s, sound') =
        reduce_children-Gives get P gives ids (sum + (get id cache).0) (get id cache).1 below
          sound in
      (s ∙ omega arith, sound')

  module _ (own : Dict ℕ) (children : Dict (List ℕ)) (height : ℕ → ℕ) where
    pub get_total_spent-Gives :
        (bound : ℕ)
        → IsTreeTotal own children total
        → IsTree children height bound
        → (fuel id : ℕ) (cache : Dict ℕ) → height id < fuel
        → IsSound cache
        → Gives (total id) (get_total_spent fuel own children id cache)
    unfolding get_total_spent
    get_total_spent-Gives bound tree below ℕ.zero id cache h sound = ground arith
    get_total_spent-Gives bound tree below (suc fuel) id cache h sound =
        let (_, lower) = below id in
        let (s, sound') =
          reduce_children-Gives (get_total_spent fuel own children) (λ c. height c < height id)
            (λ c cache low known.
              get_total_spent-Gives bound tree below fuel c cache (omega arith) known)
            (get_or (children id) []) (get_or (own id) 0) cache lower sound in
        cached-Gives id cache _ (cache id) refl sound (s ∙ sym (tree id)) sound'
