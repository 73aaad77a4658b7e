-- ===== src/Tests/Calendar.antt =====
-- Runs of the date functions, and instances of their theorems.
use monqom.Common.{◌+◌, ◌≤◌, ◌<◌, ◌≡◌, refl, ◌↔◌, none, some, arith, min}
use monqom.Common.Int.{pos, negsuc, ◌-ℤ◌}
use monqom.Common.Text.{Text, codes}
use monqom.Common.Digits.{show, pad_start, digits, expect}
use mathlib.Core.Option
use monqom.Calendar.{
  Date, date, is_leap, days_in_month, month_index, stamp, next_day, advance, date_of_index,
  date_utc, start_of_utc_month, add_utc_months_clamped, IsCivil,
}
use monqom.Calendar.Months.{add_utc_months_clamped-IsCivil, add_utc_months_clamped_mono}
use monqom.Calendar.Parse.{
  match_date_only, parse_date_only, parse_year_month, date_string, parse_date_only_iff,
  dashed_month,
}
use monqom.Calendar.DateOnly.{
  number, normalize_date_only, parse_date_only_parts, shift_month, get_month_date_range,
}
use monqom.Calendar.DateOnly.Laws.{parts, parse_date_only_parts-eq}
use monqom.Calendar.DateOnly.Months.{shift_month_back, get_month_date_range_lem}
use monqom.Calendar.DateOnly as DateOnly

run : Unit {0}
unfolding is_leap days_in_month next_day advance date_utc start_of_utc_month add_utc_months_clamped
    digits expect show pad_start match_date_only parse_date_only parse_year_month date_string
run = tt

parse_tests :
    (parse_date_only (codes "2024-02-29") ≡ some (date 2024 1 29))
    × (parse_date_only (codes "2023-02-29") ≡ none)
    × (parse_date_only (codes "2023-00-10") ≡ none)
    × (parse_date_only (codes "2023-11-31") ≡ none)
    × (parse_date_only (codes "2023-11-30 ") ≡ none)
    × (parse_date_only (codes "0050-01-01") ≡ none)
    × (parse_year_month (codes "2023-13") ≡ none)
    × (parse_year_month (codes "2023-12") ≡ some (2023, 12))
unfolding run
parse_tests = (refl, refl, refl, refl, refl, refl, refl, refl)

add_tests :
    (add_utc_months_clamped (date 2024 0 31) 1 ≡ date 2024 1 29)
    × (add_utc_months_clamped (date 2024 11 31) 2 ≡ date 2025 1 28)
    × (start_of_utc_month (date 2024 11 31) ≡ date 2024 11 1)
unfolding run
add_tests = (refl, refl, refl)

abbrev day : Date
day = date 2024 0 31

day-IsCivil : IsCivil day
unfolding run
day-IsCivil = omega arith

add_utc_months_clamped-IsCivil_example :
    IsCivil (add_utc_months_clamped day 1)
    × (month_index (add_utc_months_clamped day 1) ≡ month_index day + 1)
    × ((add_utc_months_clamped day 1).day
        ≡ min 31 (
            days_in_month (add_utc_months_clamped day 1).year (add_utc_months_clamped day 1).month))
add_utc_months_clamped-IsCivil_example = add_utc_months_clamped-IsCivil day 1 day-IsCivil

add_utc_months_clamped_mono_example :
    stamp (add_utc_months_clamped day 1) ≤ stamp (add_utc_months_clamped day 3)
add_utc_months_clamped_mono_example =
    add_utc_months_clamped_mono day day 1 3 day-IsCivil day-IsCivil (omega arith) (omega arith)

parse_date_only_iff_example :
    (parse_date_only (codes "2024-01-31") ≡ some day)
    ↔ (IsCivil day × (2024 < 10000) × (codes "2024-01-31" ≡ date_string day))
parse_date_only_iff_example = parse_date_only_iff (codes "2024-01-31") day

parse_date_only_parts-eq_example :
    parse_date_only_parts (codes "2024-01-31T10:00:00Z")
    ≡ Option.map parts (parse_date_only (codes "2024-01-31"))
parse_date_only_parts-eq_example = parse_date_only_parts-eq (codes "2024-01-31T10:00:00Z")

shift_month_back_example :
    shift_month (shift_month (dashed_month 2024 11) (pos 3)) (pos 0 -ℤ pos 3) ≡ dashed_month 2024 11
shift_month_back_example =
    shift_month_back 2024 11 3 (omega arith) (omega arith) (omega arith) (omega arith)

get_month_date_range_lem_example :
    (from : Text) × (to : Text) × (get_month_date_range (dashed_month 2024 2) ≡ some (from, to))
    × (parse_date_only from ≡ some (date 2024 1 1))
    × (parse_date_only to ≡ some (date 2024 1 (days_in_month 2024 1)))
get_month_date_range_lem_example =
    get_month_date_range_lem 2024 2 (omega arith) (omega arith) (omega arith) (omega arith)

frontend_tests :
    (shift_month (codes "2024-01") (negsuc 0) ≡ codes "2023-12")
    × (shift_month (codes "not a month") (pos 1) ≡ codes "not a month")
    × (get_month_date_range (codes "2024-02") ≡ some (codes "2024-02-01", codes "2024-02-29"))
    × (parse_date_only_parts (codes "2024-02-30") ≡ none)
unfolding run shift_month DateOnly.parse_year_month date_of_index get_month_date_range
    parse_date_only_parts normalize_date_only
frontend_tests = (refl, refl, refl, refl)

-- The year 10000 has a sign and six digits, of which the text keeps what ten characters hold.
five_digits : date_string (date 10000 0 31) ≡ codes "+010000-01"
unfolding run
five_digits = refl
