-- ===== src/Calendar/DateOnly.antt =====
-- frontend/src/lib/date-only.ts, but for the functions that only format by `Intl`.
pub mod Laws
pub mod Months
use monqom.Common.{
  ℕ, suc, ◌+◌, ◌-◌, ◌*◌, ◌≡◌, Bool, ◌&&◌, Option, none, some, List, [], ◌∷◌, ◌++◌, foldl, leb, ◌==◌,
  if◌then◌else◌, take, slice,
}
use monqom.Common.Chain.{◌>>=◌}
use monqom.Common.Int.{ℤ, pos_part, neg_part}
use monqom.Common.Text.{Text, codes}
use monqom.Common.Digits.{show, pad_start}
use monqom.Calendar.{Date, month_index, full_year, date_of_index, date_utc}
use monqom.Calendar.Parse.{match_date_only, is_unrolled}
use monqom.Calendar.Parse as Backend

-- `Number(…)` of a text of decimal digits
unfoldable pub number : Text → ℕ
number = foldl (λ n c. n * 10 + (c - 48)) 0

unfoldable pub normalize_date_only : Text → Option Text
normalize_date_only value = do
  let candidate = take 10 value
  (year, month, day) ← match_date_only candidate
  if is_unrolled (date_utc year month day) year month day then some candidate else none

unfoldable pub parse_date_only_parts : Text → Option (ℕ × ℕ × ℕ)
unfolding number
parse_date_only_parts value = do
  normalized ← normalize_date_only value
  some
      (number (slice 0 4 normalized), number (slice 5 7 normalized), number (slice 8 10 normalized))

-- `YEAR_MONTH_PATTERN.test(value)`, then the two numbers by `slice`
unfoldable pub parse_year_month : Text → Option (ℕ × ℕ)
unfolding number
parse_year_month value = do
  _ ← Backend.parse_year_month value
  some (number (slice 0 4 value), number (slice 5 7 value))

-- `${year}-${month padded to 2}`
abbrev pub month_text : ℕ → ℕ → Text
month_text year month = show year ++ (b'-' ∷ pad_start 2 (show month))

-- The month index of `monthPart - 1 + delta` in a year; the parts are at least those of the year
-- 100, and a negative `delta` reaches back to the year 0 at most.
abbrev pub shifted : ℕ → ℕ → ℤ → ℕ
shifted year month delta = full_year year * 12 + month - 1 + pos_part delta - neg_part delta

unfoldable pub shift_month : Text → ℤ → Text
shift_month month delta = elim (parse_year_month month) [
  | none ↦ month
  | some (year, part) ↦
      let d = date_of_index (shifted year part delta) 1 in month_text d.year (d.month + 1)
]

-- `none` is the `RangeError`.
unfoldable pub get_month_date_range : Text → Option (Text × Text)
get_month_date_range month = do
  (year, part) ← parse_year_month month
  let last_day = (date_utc year (part + 1) 0).day
  some (month ++ codes "-01", month ++ (b'-' ∷ pad_start 2 (show last_day)))
