-- ===== src/Calendar/Parse.antt =====
-- Dates and months as text: `parseDateOnly` and `parseYearMonth` of
-- backend/src/shared/utils/validation.ts, and `dateString` of
-- backend/src/modules/goals/goals.service.ts.
use monqom.Common.{
  ℕ, zero, suc, ◌+◌, ◌-◌, ◌*◌, ◌/◌, ◌%◌, ◌≤◌, ◌<◌, ◌≡◌, refl, ◌↔◌, Bool, ◌&&◌, Option, none, some,
  List, [], ◌∷◌, ◌++◌, arith, ltb, leb, lt→ltb, ◌==◌, if◌then◌else◌, take,
}
use mathlib.Core.Path.{subst}
use mathlib.Core.Option.{some-injective}
use monqom.Common.Text.{Text}
use monqom.Common.Chain.{◌>>=◌, >>=-eq-some}
use monqom.Common.Digits.{
  show, pad_start, digits, expect, two, four, pad_start-two, pad_start-four, digits-two,
  digits-four, digits-eq-some-two, digits-eq-some-four, expect-eq-some,
}
use monqom.Calendar.{Date, date, days_in_month, full_year, date_utc, IsCivil}
use monqom.Calendar.Months.{
  advance-in_month, advance-leaves, date_utc_of_IsCivil, days_in_month_bounds,
}

-- `$` of a pattern
abbrev pub at_end : Text → Option (Unit {0})
at_end [] = some tt
at_end (_ ∷ _) = none

-- The groups of `ISO_DATE_ONLY_REGEX`, read by `Number.parseInt`.
unfoldable pub match_date_only : Text → Option (ℕ × ℕ × ℕ)
match_date_only s = do
  (year, s) ← digits 4 s
  s ← expect b'-' s
  (month, s) ← digits 2 s
  s ← expect b'-' s
  (day, s) ← digits 2 s
  _ ← at_end s
  some (year, month, day)

-- The test after `new Date(Date.UTC(year, month - 1, day))`: nothing has rolled over.
abbrev pub is_unrolled : Date → ℕ → ℕ → ℕ → Bool
is_unrolled d year month day = (d.year == year) && (d.month + 1 == month) && (d.day == day)

unfoldable pub parse_date_only : Text → Option Date
parse_date_only s = do
  (year, month, day) ← match_date_only s
  let d = date_utc year month day
  if is_unrolled d year month day then some d else none

-- `YEAR_MONTH_REGEX` has the months 01 to 12 only.
unfoldable pub parse_year_month : Text → Option (ℕ × ℕ)
parse_year_month s = do
  (year, s) ← digits 4 s
  s ← expect b'-' s
  (month, s) ← digits 2 s
  _ ← at_end s
  if leb 1 month && leb month 12 then some (year, month) else none

-- The year that `toISOString` prints: with four digits, and after 9999 with a sign and six digits.
abbrev iso_year : ℕ → Text
iso_year year = if ltb year 10000 then pad_start 4 (show year) else b'+' ∷ pad_start 6 (show year)

-- `date.toISOString().slice(0, 10)`; days are up to the year 275760, in which a `Date` ends.
unfoldable pub date_string : Date → Text
date_string d = take 10 (
    iso_year d.year
    ++ (b'-' ∷ (pad_start 2 (show (d.month + 1)) ++ (b'-' ∷ pad_start 2 (show d.day)))))

-- What `Date.UTC` makes of parts that do not roll over.
date_utc_unrolled :
    (y m d : ℕ)
    → (date_utc y m d).year ≡ y
    → (date_utc y m d).month + 1 ≡ m
    → (date_utc y m d).day ≡ d
    → IsCivil (date_utc y m d)
unfolding date_utc
date_utc_unrolled y m zero p q r =
    let i = full_year y * 12 + m - 1 - 1 in ground (arith, days_in_month_bounds (i / 12) (i % 12))
date_utc_unrolled y m (suc n) p q r =
    let i = full_year y * 12 + m - 1 in
    ground (
      arith,
      days_in_month_bounds (i / 12) (i % 12),
      advance-in_month n (i / 12) (i % 12) 1,
      advance-leaves n (i / 12) (i % 12) 1,
    )

-- The text of three numbers, as the pattern has it.
abbrev pub dashed : ℕ → ℕ → ℕ → Text
dashed y m d = four y ++ (b'-' ∷ (two m ++ (b'-' ∷ two d)))

pub match_date_only-dashed :
    (y m d : ℕ) → y < 10000 → m < 100 → d < 100 → match_date_only (dashed y m d) ≡ some (y, m, d)
unfolding match_date_only expect
match_date_only-dashed y m d p q r =
    rw (digits-four y (b'-' ∷ (two m ++ (b'-' ∷ two d))) p)
      (rw (digits-two m (b'-' ∷ two d) q) (rw (digits-two d [] r) refl))

at_end-eq-some : (s : Text) (u : Unit {0}) → at_end s ≡ some u → s ≡ []
at_end-eq-some [] u e = refl
at_end-eq-some (c ∷ s) u e = cc

-- The steps of a match, taken back from its end.
dashed_of_steps :
    (s s1 s2 s3 s4 s5 : Text) (y m d : ℕ)
    → digits 4 s ≡ some (y, s1)
    → expect b'-' s1 ≡ some s2
    → digits 2 s2 ≡ some (m, s3)
    → expect b'-' s3 ≡ some s4
    → digits 2 s4 ≡ some (d, s5)
    → at_end s5 ≡ some tt
    → (y < 10000) × (m < 100) × (d < 100) × (s ≡ dashed y m d)
dashed_of_steps s s1 s2 s3 s4 s5 y m d e1 e2 e3 e4 e5 e6 =
    let (ylt, ys) = digits-eq-some-four s s1 y e1 in
    let (mlt, ms) = digits-eq-some-two s2 s3 m e3 in
    let (dlt, ds) = digits-eq-some-two s4 s5 d e5 in
    (
      ylt,
      mlt,
      dlt,
      cc (
        ys,
        expect-eq-some b'-' s1 s2 e2,
        ms,
        expect-eq-some b'-' s3 s4 e4,
        ds,
        at_end-eq-some s5 tt e6,
      ),
    )

pub match_date_only-eq-some :
    (s : Text) (g : ℕ × ℕ × ℕ)
    → match_date_only s ≡ some g
    → (g.0 < 10000) × (g.1 < 100) × (g.2 < 100) × (s ≡ dashed g.0 g.1 g.2)
unfolding match_date_only
match_date_only-eq-some s g e =
    let (p1, e1, k1) = >>=-eq-some (digits 4 s) _ e in
    let (s2, e2, k2) = >>=-eq-some (expect b'-' p1.1) _ k1 in
    let (p3, e3, k3) = >>=-eq-some (digits 2 s2) _ k2 in
    let (s4, e4, k4) = >>=-eq-some (expect b'-' p3.1) _ k3 in
    let (p5, e5, k5) = >>=-eq-some (digits 2 s4) _ k4 in
    let (u, e6, k6) = >>=-eq-some (at_end p5.1) _ k5 in
    subst (λ (h : ℕ × ℕ × ℕ). (h.0 < 10000) × (h.1 < 100) × (h.2 < 100) × (s ≡ dashed h.0 h.1 h.2))
      (some-injective _ _ k6)
      (dashed_of_steps s p1.1 s2 p3.1 s4 p5.1 p1.0 p3.0 p5.0 e1 e2 e3 e4 e5 e6)

pub date_string-dashed :
    (d : Date) → IsCivil d → d.year < 10000 → date_string d ≡ dashed d.year (d.month + 1) d.day
unfolding date_string
date_string-dashed d c h =
    let bounds = days_in_month_bounds d.year d.month in
    rw (lt→ltb d.year 10000 h, pad_start-four d.year (omega arith) h)
      (rw (pad_start-two (d.month + 1) (omega arith)) (rw (pad_start-two d.day (omega arith)) refl))

pub parse-dashed :
    (y m d : ℕ)
    → y < 10000
    → m < 100
    → d < 100
    → parse_date_only (dashed y m d)
      ≡ (if is_unrolled (date_utc y m d) y m d then some (date_utc y m d) else none)
unfolding parse_date_only
parse-dashed y m d p q r = rw (match_date_only-dashed y m d p q r) refl

unrolled_of_some :
    (e d : Date) (year month day : ℕ)
    → (if is_unrolled e year month day then some e else none) ≡ some d
    → (e ≡ d) × (e.year ≡ year) × (e.month + 1 ≡ month) × (e.day ≡ day)
unrolled_of_some e d year month day h = ground arith

-- What is accepted did not roll over, so it is a day of the calendar.
parse_date_only_sound :
    (s : Text) (d : Date)
    → parse_date_only s ≡ some d
    → IsCivil d × (d.year < 10000) × (s ≡ date_string d)
unfolding parse_date_only
parse_date_only_sound s d h =
    let ((y, m, k), matched, tested) = >>=-eq-some (match_date_only s) _ h in
    let (low, _, _, text) = match_date_only-eq-some s (y, m, k) matched in
    let (same, p, q, r) = unrolled_of_some (date_utc y m k) d y m k tested in
    let civil : IsCivil d = subst IsCivil same (date_utc_unrolled y m k p q r) in
    let high : d.year < 10000 = rw (← same, p) low in
    (civil, high, cc (text, same, p, q, r, date_string-dashed d civil high))

-- `parseDateOnly` accepts exactly the days of the calendar from the year 100 to the year 9999 in
-- the form in which `dateString` prints them, and gives back the day that was printed.
pub parse_date_only_iff :
    (s : List ℕ) (d : Date)
    → (parse_date_only s ≡ some d) ↔ (IsCivil d × (d.year < 10000) × (s ≡ date_string d))
parse_date_only_iff s d = (parse_date_only_sound s d, complete)
  where
    complete : IsCivil d × (d.year < 10000) × (s ≡ date_string d) → parse_date_only s ≡ some d
    complete (c, h, e) =
        let bounds = days_in_month_bounds d.year d.month in
        rw (e, date_string-dashed d c h)
          (rw
            (
              parse-dashed d.year (d.month + 1) d.day h (omega arith) (omega arith),
              date_utc_of_IsCivil d c,
            )
            (ground arith))

-- A month as `YEAR_MONTH_REGEX` has it.
abbrev pub dashed_month : ℕ → ℕ → Text
dashed_month y m = four y ++ (b'-' ∷ two m)

pub parse_year_month-dashed :
    (y m : ℕ) → y < 10000 → 1 ≤ m → m ≤ 12 → parse_year_month (dashed_month y m) ≡ some (y, m)
unfolding parse_year_month expect
parse_year_month-dashed y m h l k =
    rw (digits-four y (b'-' ∷ two m) h) (rw (digits-two m [] (omega arith)) (ground arith))

-- The text of a day of the calendar is read as that day.
pub parse_date_only-dashed :
    (y m d : ℕ)
    → 100 ≤ y
    → y < 10000
    → 1 ≤ m
    → m ≤ 12
    → 1 ≤ d
    → d ≤ days_in_month y (m - 1)
    → parse_date_only (dashed y m d) ≡ some (date y (m - 1) d)
parse_date_only-dashed y m d l h k j p q =
    let back : m - 1 + 1 ≡ m = omega arith in
    let made : date_utc y m d ≡ date y (m - 1) d = rw back at (
      date_utc_of_IsCivil (date y (m - 1) d)
        (record { year_low = l; month_high = omega arith; day_low = p; day_high = q })) in
    let bounds = days_in_month_bounds y (m - 1) in
    rw (parse-dashed y m d h (omega arith) (omega arith), made) (ground arith)
