-- ===== src/Goals/Preview/Laws.antt =====
-- The previews of the frontend against the dates and plans of the backend.
use monqom.Common.{
  ℕ, ◌+◌, ◌-◌, ◌*◌, ◌/◌, ◌%◌, ◌≤◌, ◌<◌, min, max, ◌≡◌, refl, ◌∙◌, ap, ◌⊎◌, inl, inr, Bool, true,
  false, some, [], ◌∷◌, ◌++◌, arith, ltb, lt→ltb, le→ltb, ◌==◌, if◌then◌else◌,
}
use native.Mathlib.Decide.{dec_lt}
use monqom.Common.Int.{ℤ, pos, sub_ℕ, ◌+ℤ◌, pos_part, neg_part}
use monqom.Common.Text.{Text, text_lt}
use monqom.Common.Digits.{two, four, pad_start-two, pad_start-four}
use monqom.Calendar.{
  Date, advance, month_index, in_month, month_length, stamp, date_of_index, date_utc,
  add_utc_months_clamped, IsCivil,
}
use monqom.Calendar.Months.{
  days_in_month_bounds, date_utc_zero, add_utc_months_clamped-IsCivil, add_utc_months_clamped_mono,
  add_utc_months_clamped_lem,
}
use monqom.Calendar.Parse.{date_string, date_string-dashed}
use monqom.Calendar.DateOnly.{shifted}
use monqom.Calendar.DateOnly.Laws.{parts_of_date_string}
use monqom.Goals.Preview.{add_months_clamped, months_until_date, date_parts}

abbrev then_by : ℕ → ℕ → Bool → Bool
then_by a b rest = if ltb a b then true else if a == b then rest else false

text_lt-two :
    (a b : ℕ) (s t : Text)
    → a < 100
    → b < 100
    → text_lt (two a ++ s) (two b ++ t) ≡ then_by a b (text_lt s t)
unfolding text_lt
text_lt-two a b s t h k = ground arith

text_lt-four :
    (a b : ℕ) (s t : Text)
    → a < 10000
    → b < 10000
    → text_lt (four a ++ s) (four b ++ t) ≡ then_by a b (text_lt s t)
unfolding text_lt
text_lt-four a b s t h k = ground arith

text_lt-same : (c : ℕ) (s t : Text) → text_lt (c ∷ s) (c ∷ t) ≡ text_lt s t
unfolding text_lt
text_lt-same c s t = ground arith

text_lt-nil : text_lt [] [] ≡ false
unfolding text_lt
text_lt-nil = refl

-- Dates in the form of `dateString` are ordered as texts as the days are.
text_lt-date_string :
    (d e : Date)
    → IsCivil d
    → IsCivil e
    → d.year < 10000
    → e.year < 10000
    → text_lt (date_string d) (date_string e) ≡ ltb (stamp d) (stamp e)
text_lt-date_string d e c c' h k =
    let low = days_in_month_bounds d.year d.month in
    let low' = days_in_month_bounds e.year e.month in
    rw (date_string-dashed d c h, date_string-dashed e c' k)
      (rw
        (text_lt-four d.year e.year (b'-' ∷ (two (d.month + 1) ++ (b'-' ∷ two d.day)))
          (b'-' ∷ (two (e.month + 1) ++ (b'-' ∷ two e.day))) h k)
        (rw (text_lt-same b'-') (
          rw
            (text_lt-two (d.month + 1) (e.month + 1) (b'-' ∷ two d.day) (b'-' ∷ two e.day)
              (omega arith) (omega arith))
            (rw (text_lt-same b'-') (
              rw (text_lt-two d.day e.day [] [] (omega arith) (omega arith), text_lt-nil)
                (ground arith))))))

-- The date that `add_months_clamped` prints.
abbrev moved : Date → ℕ → Date
moved d index = in_month index (min d.day (month_length index))

-- A date as `dateParts` prints it, which is that of `dateString` up to the year 9999.
abbrev parts_text : Date → Text
parts_text d = date_parts d.year (d.month + 1) d.day

date_string-parts_text : (d : Date) → IsCivil d → d.year < 10000 → date_string d ≡ parts_text d
date_string-parts_text d c h =
    let bounds = days_in_month_bounds d.year d.month in
    rw (date_string-dashed d c h) (
      rw (pad_start-four d.year (omega arith) h) (
        rw (pad_start-two (d.month + 1) (omega arith))
          (rw (pad_start-two d.day (omega arith)) refl)))

-- The clamping of `addMonthsClamped`, from the month's index.
clamped_text :
    (i day : ℕ)
    → 1200 ≤ i
    → (let first = date_of_index i 1 in
        date_parts first.year
          (first.month + 1)
          (min day (date_utc first.year (first.month + 2) 0).day))
      ≡ parts_text (in_month i (min day (month_length i)))
unfolding date_of_index advance
clamped_text i day h =
    let again : i / 12 * 12 + i % 12 ≡ i = omega arith in
    rw (date_utc_zero (i / 12) (i % 12) (omega arith), again) refl

add_months_clamped_lem :
    (d : Date) (months : ℤ)
    → IsCivil d
    → d.year < 10000
    → 1200 ≤ month_index d + pos_part months - neg_part months
    → add_months_clamped (date_string d) months
      ≡ some (parts_text (moved d (month_index d + pos_part months - neg_part months)))
unfolding add_months_clamped
add_months_clamped_lem d months c h low =
    let reach : shifted d.year (d.month + 1) months
        ≡ month_index d + pos_part months - neg_part months =
      ground arith in
    rw (parts_of_date_string d c h, add_months_clamped)
      (rw (reach, clamped_text (month_index d + pos_part months - neg_part months) d.day low) refl)

-- The frontend moves a date of the calendar, of the years 100 to 9999, forward by months as the
-- backend does, if the day that is reached is before the year 10000 too.
pub add_months_clamped-eq :
    (d : Date) (n : ℕ)
    → IsCivil d
    → (add_utc_months_clamped d n).year < 10000
    → add_months_clamped (date_string d) (pos n) ≡ some (date_string (add_utc_months_clamped d n))
add_months_clamped-eq d n c h =
    let (civil, index, _) = add_utc_months_clamped-IsCivil d n c in
    let early : d.year < 10000 = omega arith in
    rw (date_string-parts_text (add_utc_months_clamped d n) civil h) (
      rw (add_months_clamped_lem d (pos n) c early (omega arith), add_utc_months_clamped_lem d n c)
        (ap (λ (i : ℕ). some (parts_text (moved d i))) (omega arith)))

months_until_date_lem :
    (t g : Date)
    → IsCivil t
    → IsCivil g
    → g.year < 10000
    → stamp t ≤ stamp g
    → months_until_date (date_string t) (date_string g)
      ≡ some (
          min 120 (
            max 1 (
              let k = month_index g - month_index t in
              if ltb (stamp (add_utc_months_clamped t k)) (stamp g) then k + 1 else k)))
unfolding months_until_date ◌+ℤ◌
months_until_date_lem t g c c' h le =
    let k = month_index g - month_index t in
    let low = days_in_month_bounds t.year t.month in
    let low' = days_in_month_bounds g.year g.month in
    let early : t.year < 10000 = omega arith in
    let (there, index, _) = add_utc_months_clamped-IsCivil t k c in
    let gap : sub_ℕ (g.year * 12 + (g.month + 1)) (t.year * 12 + (t.month + 1)) ≡ pos k =
      ground arith in
    rw (parts_of_date_string t c early, months_until_date)
      (rw (parts_of_date_string g c' h, gap)
        (rw (add_months_clamped-eq t k c (omega arith)) (
          rw (text_lt-date_string (add_utc_months_clamped t k) g there c' (omega arith) h)
            (ground arith))))

-- Where a month's dates lie.
stamp-add_bounds :
    (d : Date) (n : ℕ)
    → IsCivil d
    → ((month_index d + n) * 32 < stamp (add_utc_months_clamped d n))
      × (stamp (add_utc_months_clamped d n) < (month_index d + n + 1) * 32)
stamp-add_bounds d n c =
    let (civil, index, _) = add_utc_months_clamped-IsCivil d n c in
    let e = add_utc_months_clamped d n in omega (arith, days_in_month_bounds e.year e.month)

-- From a day to one that is not earlier and at most 120 months on, before the year 10000, `monthsUntilDate` gives the least number of
-- months, from 1 to 120, that reach the later day.
pub months_until_date_least :
    (today target : Date)
    → IsCivil today
    → IsCivil target
    → target.year < 10000
    → stamp today ≤ stamp target
    → stamp target ≤ stamp (add_utc_months_clamped today 120)
    → (months : ℕ) × (months_until_date (date_string today) (date_string target) ≡ some months)
      × (1 ≤ months)
      × (months ≤ 120)
      × (stamp target ≤ stamp (add_utc_months_clamped today months))
      × ((months ≡ 1) ⊎ (stamp (add_utc_months_clamped today (months - 1)) < stamp target))
months_until_date_least t g c c' h le far =
    let k = month_index g - month_index t in
    let exact = months_until_date_lem t g c c' h le in
    let last = days_in_month_bounds g.year g.month in
    let last' = days_in_month_bounds t.year t.month in
    let until = stamp-add_bounds t 120 c in
    let here = stamp-add_bounds t k c in
    let later = stamp-add_bounds t (k + 1) c in
    let earlier = stamp-add_bounds t (k - 1) c in
    elim (dec_lt (stamp (add_utc_months_clamped t k)) (stamp g)) [
      | yes short ↦
          let beyond : ¬ (120 ≤ k) = λ w.
            absurd (omega (arith, add_utc_months_clamped_mono t t 120 k c c (omega arith) w)) in
          let back : k + 1 - 1 ≡ k = omega arith in
          (
            k + 1,
            exact
                ∙ rw (lt→ltb (stamp (add_utc_months_clamped t k)) (stamp g) short)
                    (ap some (omega arith)),
            omega arith,
            omega arith,
            omega arith,
            inr (rw back short),
          )
      | no enough ↦ elim (dec_lt k 1) [
        | yes same ↦
            let grown = add_utc_months_clamped_mono t t k 1 c c (omega arith) (omega arith) in
            (
              1,
              exact
                  ∙ rw (le→ltb (stamp (add_utc_months_clamped t k)) (stamp g) (omega arith))
                      (ap some (omega arith)),
              omega arith,
              omega arith,
              omega arith,
              inl refl,
            )
        | no some_months ↦ (
          k,
          exact
              ∙ rw (le→ltb (stamp (add_utc_months_clamped t k)) (stamp g) (omega arith))
                  (ap some (omega arith)),
          omega arith,
          omega arith,
          omega arith,
          inr (omega arith),
        )
      ]
    ]
