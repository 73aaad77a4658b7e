-- ===== src/Calendar/DateOnly/Laws.antt =====
-- The date helpers of the frontend against those of the backend.
use mathlib.Core.Option
use monqom.Common.{
  ℕ, ◌+◌, ◌<◌, ◌≡◌, refl, Option, none, some, arith, take, slice, inl, inr, Option-cases,
  if◌then◌else◌,
}
use monqom.Common.Chain.{◌>>=◌}
use monqom.Common.Text.{Text}
use monqom.Calendar.{Date, date_utc, IsCivil}
use monqom.Calendar.Parse.{
  match_date_only, match_date_only-eq-some, is_unrolled, parse_date_only, parse_date_only_iff,
  date_string, dashed, date_string-dashed,
}
use monqom.Calendar.DateOnly.{number, normalize_date_only, parse_date_only_parts}

abbrev pub parts : Date → ℕ × ℕ × ℕ
parts d = (d.year, d.month + 1, d.day)

abbrev read : Text → Option (ℕ × ℕ × ℕ)
read s = some (number (slice 0 4 s), number (slice 5 7 s), number (slice 8 10 s))

number-dashed :
    (y m d : ℕ)
    → (number (slice 0 4 (dashed y m d)) ≡ y)
      × (number (slice 5 7 (dashed y m d)) ≡ m)
      × (number (slice 8 10 (dashed y m d)) ≡ d)
unfolding number
number-dashed y m d = (omega arith, omega arith, omega arith)

-- The frontend reads the first ten characters of a text as a date exactly where the backend does,
-- with the same year, month and day.
pub parse_date_only_parts-eq :
    (value : Text)
    → parse_date_only_parts value ≡ Option.map parts (parse_date_only (take 10 value))
unfolding parse_date_only_parts parse_date_only normalize_date_only
parse_date_only_parts-eq value = elim (Option-cases (match_date_only (take 10 value))) [
  | inl missing ↦ rw missing refl
  | inr ((y, m, d), found) ↦
      let (_, _, _, text) = match_date_only-eq-some (take 10 value) (y, m, d) found in
      rw found (same (take 10 value) y m d text)
]
  where
    same :
        (candidate : Text) (y m d : ℕ)
        → candidate ≡ dashed y m d
        → ((if is_unrolled (date_utc y m d) y m d then some candidate else none) >>= read)
          ≡ Option.map parts
              (if is_unrolled (date_utc y m d) y m d then some (date_utc y m d) else none)
    same candidate y m d e = ground (arith, number-dashed y m d)

-- A date printed by the backend is read by the frontend.
pub parts_of_date_string :
    (d : Date) → IsCivil d → d.year < 10000 → parse_date_only_parts (date_string d) ≡ some (parts d)
parts_of_date_string d c h =
    rw (parse_date_only_parts-eq (date_string d))
      (rw (whole, (parse_date_only_iff (date_string d) d).1 (c, h, refl)) refl)
  where
    whole : take 10 (date_string d) ≡ date_string d
    whole = rw (date_string-dashed d c h) refl
