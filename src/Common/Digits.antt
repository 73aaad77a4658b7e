-- ===== src/Common/Digits.antt =====
-- Decimal numbers in text: `String(n)`, `padStart`, and the groups of digits of the date patterns.
use monqom.Common.{
  ℕ, zero, suc, ◌+◌, ◌-◌, ◌*◌, ◌/◌, ◌%◌, ◌≤◌, ◌<◌, ◌≡◌, refl, Option, none, some, [], ◌∷◌, ◌++◌,
  arith, ltb, le→ltb, lt→ltb, ◌==◌, if◌then◌else◌, length,
}
use native.Mathlib.Decide.{dec_lt}
use monqom.Common.Chain.{◌>>=◌, >>=-eq-some}
use monqom.Common.Text.{Text, is_digit}

-- `String(n)`, most significant digit first; a number has fewer digits than its value plus one
show_fuel : ℕ → ℕ → Text
show_fuel zero n = []
show_fuel (suc f) n =
    let rest = show_fuel f (n / 10) ++ (48 + n % 10) ∷ [] in
    if ltb n 10 then (48 + n) ∷ [] else rest

unfoldable pub show : ℕ → Text
unfolding show_fuel
show n = show_fuel (suc n) n

-- `padStart(width, "0")`
abbrev zeros : ℕ → Text → Text
zeros zero s = s
zeros (suc n) s = b'0' ∷ zeros n s

unfoldable pub pad_start : ℕ → Text → Text
pad_start width s = zeros (width - length s) s

-- `(\d{n})` of a pattern: its number, read by `parseInt`, and what follows
unfoldable pub digits_from : ℕ → ℕ → Text → Option (ℕ × Text)
digits_from zero acc s = some (acc, s)
digits_from (suc n) acc [] = none
digits_from (suc n) acc (c ∷ s) = if is_digit c then digits_from n (acc * 10 + (c - 48)) s else none

unfoldable pub digits : ℕ → Text → Option (ℕ × Text)
unfolding digits_from
digits n s = digits_from n 0 s

-- A character of a pattern that stands for itself.
unfoldable pub expect : ℕ → Text → Option Text
expect k [] = none
expect k (c ∷ s) = if c == k then some s else none

-- Two and four digits with leading zeros.
abbrev pub two : ℕ → Text
two n = (48 + n / 10) ∷ (48 + n % 10) ∷ []

abbrev pub four : ℕ → Text
four n = (48 + n / 1000) ∷ (48 + n / 100 % 10) ∷ (48 + n / 10 % 10) ∷ (48 + n % 10) ∷ []

-- Enough fuel is as good as more.
show_fuel_enough : (f g n : ℕ) → n < f → n < g → show_fuel f n ≡ show_fuel g n
unfolding show_fuel
show_fuel_enough zero g n h k = absurd (omega arith)
show_fuel_enough (suc f) zero n h k = absurd (omega arith)
show_fuel_enough (suc f) (suc g) n h k = elim (dec_lt n 10) [
  | yes p ↦ rw (lt→ltb n 10 p) refl
  | no p ↦
      rw (le→ltb n 10 (omega arith))
        (rw (show_fuel_enough f g (n / 10) (omega arith) (omega arith)) refl)
]

pub show_digit : (n : ℕ) → n < 10 → show n ≡ (48 + n) ∷ []
unfolding show
show_digit n h = rw (lt→ltb n 10 h) refl

pub show_step : (n : ℕ) → 10 ≤ n → show n ≡ show (n / 10) ++ (48 + n % 10) ∷ []
unfolding show
show_step n h =
    rw (le→ltb n 10 h)
      (rw (show_fuel_enough n (suc (n / 10)) (n / 10) (omega arith) (omega arith)) refl)

pub pad_start-two : (n : ℕ) → n < 100 → pad_start 2 (show n) ≡ two n
unfolding pad_start
pad_start-two n h = elim (dec_lt n 10) [
  | yes p ↦ rw (show_digit n p) (ground arith)
  | no p ↦ rw (show_step n (omega arith), show_digit (n / 10) (omega arith)) refl
]

show_three :
    (n : ℕ) → 100 ≤ n → n < 1000 → show n ≡ (48 + n / 100) ∷ (48 + n / 10 % 10) ∷ (48 + n % 10) ∷ []
show_three n h l =
    rw
      (
        show_step n (omega arith),
        show_step (n / 10) (omega arith),
        show_digit (n / 10 / 10) (omega arith),
      )
      (ground arith)

pub show-four : (n : ℕ) → 1000 ≤ n → n < 10000 → show n ≡ four n
show-four n l h =
    rw (show_step n (omega arith), show_three (n / 10) (omega arith) (omega arith)) (ground arith)

pub pad_start-four : (n : ℕ) → 100 ≤ n → n < 10000 → pad_start 4 (show n) ≡ four n
unfolding pad_start
pad_start-four n l h = elim (dec_lt n 1000) [
  | yes p ↦ rw (show_three n l p) (ground arith)
  | no p ↦ rw (show-four n (omega arith) h) refl
]

-- What a group of digits accepts.
pub digits_from-two :
    (acc n : ℕ) (s : Text) → n < 100 → digits_from 2 acc (two n ++ s) ≡ some (acc * 100 + n, s)
unfolding digits_from
digits_from-two acc n s h = ground arith

pub digits-four : (n : ℕ) (s : Text) → n < 10000 → digits 4 (four n ++ s) ≡ some (n, s)
unfolding digits
digits-four n s h = ground arith

pub digits-two : (n : ℕ) (s : Text) → n < 100 → digits 2 (two n ++ s) ≡ some (n, s)
unfolding digits
digits-two n s h = ground arith

pub digits-eq-some-two :
    (s r : Text) (n : ℕ) → digits 2 s ≡ some (n, r) → (n < 100) × (s ≡ two n ++ r)
unfolding digits
digits-eq-some-two (a ∷ b ∷ s) r n e = (ground arith, ground arith)
digits-eq-some-two s r n e = ground arith

digits_from-eq-some-two :
    (acc : ℕ) (s r : Text) (n : ℕ)
    → digits_from 2 acc s ≡ some (n, r)
    → (q : ℕ) × (q < 100) × (n ≡ acc * 100 + q) × (s ≡ two q ++ r)
unfolding digits_from
digits_from-eq-some-two acc (a ∷ b ∷ s) r n e =
    ((a - 48) * 10 + (b - 48), ground arith, ground arith, ground arith)
digits_from-eq-some-two acc (a ∷ []) r n e = absurd (ground arith)
digits_from-eq-some-two acc [] r n e = absurd (cc)

digits_from-suc-suc :
    (k acc : ℕ) (s : Text)
    → digits_from (suc (suc k)) acc s ≡ (digits_from 2 acc s >>= λ p. digits_from k p.0 p.1)
unfolding digits_from
digits_from-suc-suc k acc [] = refl
digits_from-suc-suc k acc (a ∷ []) = ground arith
digits_from-suc-suc k acc (a ∷ b ∷ s) = ground arith

pub digits-eq-some-four :
    (s r : Text) (n : ℕ) → digits 4 s ≡ some (n, r) → (n < 10000) × (s ≡ four n ++ r)
unfolding digits
digits-eq-some-four s r n e =
    let ((h, t), first, second) =
      >>=-eq-some (digits_from 2 0 s) (λ p. digits_from 2 p.0 p.1) (rw digits_from-suc-suc at e) in
    let (p, p_low, p_eq, p_text) = digits_from-eq-some-two 0 s t h first in
    let (q, q_low, q_eq, q_text) = digits_from-eq-some-two h t r n second in
    (omega arith, ground arith)

pub expect-eq-some : (k : ℕ) (s r : Text) → expect k s ≡ some r → s ≡ k ∷ r
unfolding expect
expect-eq-some k [] r e = cc
expect-eq-some k (c ∷ s) r e = ground arith
