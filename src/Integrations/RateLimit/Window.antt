-- ===== src/Integrations/RateLimit/Window.antt =====
-- Lists of times under a rolling window.
use monqom.Common.{
  ℕ, ◌+◌, ◌≤◌, ◌<◌, ◌≡◌, refl, Bool, true, false, ◌||◌, List, [], ◌∷◌, ◌++◌, arith, ◌==◌,
  if◌then◌else◌, length, push, filter, length-filter,
}
use monqom.Integrations.RateLimit.{is_recent, rolling_times, earliest}

-- How many of the times are recent at a moment.
abbrev pub count_recent : ℕ → ℕ → List ℕ → ℕ
count_recent window now times = length (filter (is_recent window now) times)

pub filter-append :
    {A : Type 0} (p : A → Bool) (xs ys : List A) → filter p (xs ++ ys) ≡ filter p xs ++ filter p ys
filter-append p [] ys = refl
filter-append p (x ∷ xs) ys = ground (arith, filter-append p xs ys)

pub count_recent-append :
    (w now : ℕ) (xs ys : List ℕ)
    → count_recent w now (xs ++ ys) ≡ count_recent w now xs + count_recent w now ys
count_recent-append w now [] ys = omega arith
count_recent-append w now (x ∷ xs) ys = ground (arith, count_recent-append w now xs ys)

-- What an earlier round dropped is not recent later.
pub count_recent-rolling :
    (w now later : ℕ) (xs : List ℕ)
    → now ≤ later
    → count_recent w later (rolling_times xs now w) ≡ count_recent w later xs
unfolding rolling_times
count_recent-rolling w now later [] h = refl
count_recent-rolling w now later (x ∷ xs) h = ground (arith, count_recent-rolling w now later xs h)

abbrev pub has : ℕ → List ℕ → Bool
has t [] = false
has t (x ∷ xs) = x == t || has t xs

pub has-push : (t x : ℕ) (xs : List ℕ) → has t (push xs x) ≡ (has t xs || (x == t))
has-push t x [] = ground arith
has-push t x (y ∷ ys) = ground (arith, has-push t x ys)

pub has-rolling :
    (w now t : ℕ) (xs : List ℕ)
    → has t xs ≡ true
    → is_recent w now t ≡ true
    → has t (rolling_times xs now w) ≡ true
unfolding rolling_times
has-rolling w now t [] h k = cc
has-rolling w now t (x ∷ xs) h k = ground (arith, has-rolling w now t xs)

-- A time that is no longer recent leaves a list shorter.
pub count_recent_lt :
    (w now t : ℕ) (xs : List ℕ) → has t xs ≡ true → t + w ≤ now → count_recent w now xs < length xs
count_recent_lt w now t [] h k = cc
count_recent_lt w now t (x ∷ xs) h k =
    ground (arith, count_recent_lt w now t xs, length-filter (is_recent w now) xs)

-- The earliest of some times is one of them.
pub has-earliest : (xs : List ℕ) → 0 < length xs → has (earliest xs) xs ≡ true
unfolding earliest
has-earliest [] h = absurd (omega arith)
has-earliest (x ∷ []) h = ground arith
has-earliest (x ∷ y ∷ ys) h = ground (arith, has-earliest (y ∷ ys))

pub length-rolling : (w now : ℕ) (xs : List ℕ) → length (rolling_times xs now w) ≤ length xs
unfolding rolling_times
length-rolling w now xs = length-filter (is_recent w now) xs

pub count_recent-push :
    (w now t : ℕ) (xs : List ℕ)
    → count_recent w now (push xs t) ≡ count_recent w now xs + (if is_recent w now t then 1 else 0)
count_recent-push w now t xs = ground (arith, count_recent-append w now xs (t ∷ []))

pub has_of_rolling :
    (w now t : ℕ) (xs : List ℕ)
    → has t (rolling_times xs now w) ≡ true
    → (has t xs ≡ true) × (is_recent w now t ≡ true)
unfolding rolling_times
has_of_rolling w now t [] h = cc
has_of_rolling w now t (x ∷ xs) h = ground (arith, has_of_rolling w now t xs)

pub length-rolling_lt :
    (w now t : ℕ) (xs : List ℕ)
    → has t xs ≡ true
    → t + w ≤ now
    → length (rolling_times xs now w) < length xs
unfolding rolling_times
length-rolling_lt w now t xs h k = count_recent_lt w now t xs h k
