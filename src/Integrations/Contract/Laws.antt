-- ===== src/Integrations/Contract/Laws.antt =====
-- Entity tags: what is printed for a version and what is read.
use monqom.Common.{
  ℕ, zero, suc, ◌+◌, ◌-◌, ◌*◌, ◌/◌, ◌%◌, ◌≤◌, ◌<◌, ◌≡◌, refl, sym, ap, ◌∙◌, subst, ◌↔◌, inl, inr,
  true, false, ◌&&◌, Option, none, some, [], ◌∷◌, ◌++◌, arith, leb, all, Bool-cases,
}
use native.Mathlib.Decide.{dec_lt}
use mathlib.Core.List.{append_assoc}
use monqom.Common.Digits.{show, show_digit, show_step}
use monqom.Common.Results.{ok, >>=-eq-ok, throw_if, throw_if-eq-ok, or_throw, or_throw-eq-ok}
use monqom.Common.Text.{Text, is_digit}
use monqom.Integrations.Contract.{
  bad_request, bad_if_match, max_int, strip_prefix, first_digit, read_version, etag_prefix,
  match_etag, parse_etag, etag,
}

-- The number that digits stand for, after those that are read.
value : ℕ → Text → ℕ
value acc [] = acc
value acc (c ∷ s) = value (acc * 10 + (c - 48)) s

-- A closing quote.
abbrev close : Text
close = b'"' ∷ []

value-push : (acc d : ℕ) (s : Text) → value acc (s ++ (d ∷ [])) ≡ value acc s * 10 + (d - 48)
unfolding value
value-push acc d [] = refl
value-push acc d (c ∷ s) = value-push (acc * 10 + (c - 48)) d s

all-push :
    (d : ℕ) (s : Text)
    → all is_digit s ≡ true
    → is_digit d ≡ true
    → all is_digit (s ++ (d ∷ [])) ≡ true
all-push d [] h k = ground arith
all-push d (c ∷ s) h k = ground (arith, all-push d s)

-- Digits and the quote are read to their number.
read_version-value :
    (acc : ℕ) (s : Text)
    → all is_digit s ≡ true
    → read_version acc (s ++ close) ≡ some (value acc s)
unfolding read_version value
read_version-value acc [] h = refl
read_version-value acc (c ∷ s) h = ground (arith, read_version-value (acc * 10 + (c - 48)) s)

-- What is read is digits and the quote.
read_version-eq-some :
    (acc : ℕ) (s : Text) (v : ℕ)
    → read_version acc s ≡ some v
    → (t : Text) × (s ≡ t ++ close) × (all is_digit t ≡ true) × (v ≡ value acc t)
unfolding read_version value
read_version-eq-some acc [] v h = cc
read_version-eq-some acc (c ∷ s) v h = elim (Bool-cases (is_digit c)) [
  | inl digit ↦
      let (t, text, digits, same) = read_version-eq-some (acc * 10 + (c - 48)) s v (ground arith) in
      (c ∷ t, ap (λ x. c ∷ x) text, ground arith, same)
  | inr other ↦ ([], quote_end c s v acc other h, refl, ground arith)
]
  where
    quote_end :
        (c : ℕ) (s : Text) (v acc : ℕ)
        → is_digit c ≡ false
        → read_version acc (c ∷ s) ≡ some v
        → c ∷ s ≡ close
    quote_end c [] v acc other h = ground arith
    quote_end c (d ∷ s) v acc other h = ground arith

-- A number is printed with digits, of which the first is not zero, and reads back.
abbrev Prints : ℕ → Text → Type 0
Prints n [] = ⊥
Prints n (c ∷ s) =
    (leb b'1' c && leb c b'9' ≡ true) × (all is_digit s ≡ true) × (value (c - 48) s ≡ n)

Prints-push : (n d : ℕ) (t : Text) → Prints (n / 10) t → d ≡ 48 + n % 10 → Prints n (t ++ (d ∷ []))
Prints-push n d [] h e = absurd h
Prints-push n d (c ∷ s) (first, digits, same) e =
    (first, all-push d s digits (ground arith), value-push (c - 48) d s ∙ omega arith)

show-Prints : (k n : ℕ) → n < k → 0 < n → Prints n (show n)
unfolding value
show-Prints zero n h pos = absurd (omega arith)
show-Prints (suc k) n h pos = elim (dec_lt n 10) [
  | yes small ↦ rw (show_digit n small) (ground arith, refl, omega arith)
  | no large ↦ rw (show_step n (omega arith)) (
      Prints-push n (48 + n % 10) (show (n / 10))
        (show-Prints k (n / 10) (omega arith) (omega arith)) refl)
]

append_nil : (s : Text) → s ++ [] ≡ s
append_nil [] = refl
append_nil (c ∷ s) = ap (λ t. c ∷ t) (append_nil s)

next : (acc c : ℕ) → 0 < acc → is_digit c ≡ true → show (acc * 10 + (c - 48)) ≡ show acc ++ (c ∷ [])
next acc c h k =
    let low : c ≤ 57 = ground arith in
    let high : 48 ≤ c = ground arith in
    let quotient : (acc * 10 + (c - 48)) / 10 ≡ acc = omega arith in
    let remainder : 48 + (acc * 10 + (c - 48)) % 10 ≡ c = omega arith in
    show_step (acc * 10 + (c - 48)) (omega arith)
    ∙ ap (λ n. show n ++ (48 + (acc * 10 + (c - 48)) % 10) ∷ []) quotient
    ∙ ap (λ n. show acc ++ (n ∷ [])) remainder

-- Digits after a number that is not zero continue its print.
show-value :
    (acc : ℕ) (s : Text) → 0 < acc → all is_digit s ≡ true → show (value acc s) ≡ show acc ++ s
unfolding value
show-value acc [] h k = sym (append_nil (show acc))
show-value acc (c ∷ s) h k =
    show-value (acc * 10 + (c - 48)) s (omega arith) (ground arith)
    ∙ ap (λ t. t ++ s) (next acc c h (ground arith))
    ∙ append_assoc (show acc) (c ∷ []) s

strip_prefix-append : (p s : Text) → strip_prefix p (p ++ s) ≡ some s
strip_prefix-append [] s = refl
strip_prefix-append (c ∷ p) s = ground (arith, strip_prefix-append p s)

strip_prefix-eq-some : (p s r : Text) → strip_prefix p s ≡ some r → s ≡ p ++ r
strip_prefix-eq-some [] s r h = ground arith
strip_prefix-eq-some (c ∷ p) [] r h = cc
strip_prefix-eq-some (c ∷ p) (d ∷ s) r h = ground (arith, strip_prefix-eq-some p s r)

first_digit-Prints : (v : ℕ) (t : Text) → Prints v t → first_digit (t ++ close) ≡ some v
first_digit-Prints v [] h = absurd h
first_digit-Prints v (c ∷ t) (first, digits, same) =
    ground (arith, read_version-value (c - 48) t digits)

shown_positive : (v : ℕ) (t : Text) (c : ℕ) → 49 ≤ c → show v ≡ c ∷ t → 0 < v
shown_positive zero t c low e =
    let printed : c ∷ t ≡ 48 ∷ [] = sym e ∙ show_digit 0 (omega arith) in absurd (ground arith)
shown_positive (suc v) t c low e = omega arith

first_digit-eq-some : (s : Text) (v : ℕ) → first_digit s ≡ some v → (0 < v) × (s ≡ show v ++ close)
first_digit-eq-some [] v h = cc
first_digit-eq-some (c ∷ s) v h =
    let digit : (leb b'1' c && leb c b'9') ≡ true = ground arith in
    let low : 49 ≤ c = ground arith in
    let high : c ≤ 57 = ground arith in
    let (t, text, digits, same) = read_version-eq-some (c - 48) s v (ground arith) in
    let printed : show v ≡ c ∷ t =
      ap show same
      ∙ show-value (c - 48) t (omega arith) digits
      ∙ ap (λ x. x ++ t) (show_digit (c - 48) (omega arith) ∙ ap (λ n. n ∷ []) (omega arith)) in
    (shown_positive v t c low printed, ap (λ x. c ∷ x) text ∙ ap (λ x. x ++ close) (sym printed))

match_parts :
    (text : Text) (v : ℕ)
    → match_etag text ≡ some v
    → (s : Text) × (strip_prefix etag_prefix text ≡ some s) × (first_digit s ≡ some v)
match_parts text v h =
    elim (strip_prefix etag_prefix text)
        as (λ o.
          (elim o [ none ↦ none | some s ↦ first_digit s ]) ≡ some v
          → (s : Text) × (o ≡ some s) × (first_digit s ≡ some v)) [
            | none ↦ λ h. cc
            | some s ↦ λ h. (s, refl, h)
          ]
      h

match-printed : (v : ℕ) → 0 < v → match_etag (etag_prefix ++ (show v ++ close)) ≡ some v
match-printed v positive =
    ap (λ o. elim o as (λ _. Option ℕ) [ none ↦ none | some s ↦ first_digit s ])
      (strip_prefix-append etag_prefix (show v ++ close))
    ∙ first_digit-Prints v (show v) (show-Prints (suc v) v (omega arith) positive)

-- `parseExternalTransactionEtag` accepts exactly the tags that the service gives the versions from 1
-- up to the largest but one of the column, and reads the version.
pub parse_etag_iff :
    (text : Text) (v : ℕ)
    → (parse_etag (some text) ≡ ok v) ↔ ((0 < v) × (v < max_int) × (text ≡ etag v))
unfolding parse_etag etag
parse_etag_iff text v = (
  λ h.
      let (version, found, h1) =
        >>=-eq-ok (or_throw (match_etag text) (bad_request bad_if_match)) _ h in
      let (u, low, h2) =
        >>=-eq-ok (throw_if (leb max_int version) (bad_request bad_if_match)) _ h1 in
      let matched = or_throw-eq-ok (match_etag text) (bad_request bad_if_match) version found in
      let below = throw_if-eq-ok _ (bad_request bad_if_match) u low in
      let same : version ≡ v = ground arith in
      let (s, stripped, read) = match_parts text version matched in
      let (positive, printed) = first_digit-eq-some s version read in
      subst (λ n. (0 < n) × (n < max_int) × (text ≡ etag_prefix ++ (show n ++ close))) same
        (
          positive,
          ground arith,
          strip_prefix-eq-some etag_prefix text s stripped ∙ ap (λ x. etag_prefix ++ x) printed,
        ),
  λ (positive, low, printed).
      let read : match_etag text ≡ some v = ap match_etag printed ∙ match-printed v positive in
      ground arith,
)
