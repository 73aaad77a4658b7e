-- ===== src/Integrations/Ledger/Laws.antt =====
-- How queries and updates of the table of transactions fit together.
use monqom.Common.{
  ℕ, ◌+◌, ◌≤◌, ◌<◌, ◌≡◌, refl, sym, ◌∙◌, Bool, true, Option, none, some, List, [], ◌∷◌, arith, ◌==◌,
  All,
}
use monqom.Common.Text.{Text, text_eq_iff}
use monqom.Common.Tables.{count, update_rows}
use monqom.Integrations.Ledger.{Row, Db, is_text, is_keyed}

-- At most one row has each identifier, and at most one each external id of an integration.
pub record IsTable (next_id : ℕ) (rows : List Row) : Type 0 where
  pub below : All (λ r. r.id < next_id) rows
  pub ids : (id : ℕ) → count (λ r. r.id == id) rows ≤ 1
  pub keys : (w i : ℕ) (external_id : Text) → count (is_keyed w i external_id) rows ≤ 1

abbrev pub IsConsistent : Db → Type 0
IsConsistent db = IsTable db.next_id db.transactions

pub below-update_rows :
    (n : ℕ) (p : Row → Bool) (f : Row → Row) (rs : List Row)
    → ((r : Row) → (f r).id ≡ r.id)
    → All (λ r. r.id < n) rs
    → All (λ r. r.id < n) (update_rows p f rs)
below-update_rows n p f [] h low = tt
below-update_rows n p f (r ∷ rs) h (first, low) =
    (ground (arith, h r), below-update_rows n p f rs h low)

pub below-weaken : (n : ℕ) (rs : List Row) → All (λ r. r.id < n) rs → All (λ r. r.id < n + 1) rs
below-weaken n [] h = tt
below-weaken n (r ∷ rs) (first, h) = (omega arith, below-weaken n rs h)

pub count-below : (n : ℕ) (rs : List Row) → All (λ r. r.id < n) rs → count (λ r. r.id == n) rs ≡ 0
count-below n [] h = refl
count-below n (r ∷ rs) (first, h) = ground (arith, count-below n rs h)

pub is_text-eq : (s t : Text) (o : Option Text) → is_text s o ≡ true → is_text t o ≡ true → s ≡ t
is_text-eq s t none h k = cc
is_text-eq s t (some u) h k = sym ((text_eq_iff u s).0 h) ∙ (text_eq_iff u t).0 k
