-- ===== src/Tests/PaymentSources.antt =====
-- Runs of the requests for payment sources, and instances of their theorems.
use monqom.Common.{
  ℕ, ◌+◌, ◌≤◌, ◌≡◌, refl, subst, Option, none, some, List, [], ◌∷◌, arith, map, if◌then◌else◌,
  Bool-cases, inl, inr,
}
use monqom.Common.Results.{err}
use monqom.Common.Tables.{count}
use monqom.Common.Text.{Text, codes, is_upper, text_eq, text_eq_iff, trim}
use monqom.PaymentSources.Rows.{
  PaymentSource, PaymentSourceDb, has_id, edit_payment_source, mark_archived,
}
use monqom.PaymentSources.Service.{
  bad_request, payment_source_name_conflict, system_cash_protected, PaymentSourceCommand,
  normalize_required_value, validate_payment_source_input, list_payment_sources,
  create_payment_source, update_payment_source_in, update_payment_source, archive_payment_source_in,
  archive_payment_source,
}
use monqom.PaymentSources.Tidy.{is_called}
use monqom.PaymentSources.Requests.{
  PaymentSourceRequest, create_source, update_source, archive_source, answer_source, serve_sources,
}
use monqom.PaymentSources.Requests.Runs.{IsSettled, Stays, serve_sources-Stays}

run : Unit {0}
unfolding trim normalize_required_value validate_payment_source_input list_payment_sources
    create_payment_source update_payment_source_in update_payment_source archive_payment_source_in
    archive_payment_source edit_payment_source mark_archived answer_source
run = tt

-- ASCII letters in lower case
abbrev fold : Text → Text
fold = map (λ c. if is_upper c then c + 32 else c)

abbrev home : Text
home = codes "home"

abbrev cash : PaymentSource
cash = record {
  id = codes "c";
  workspace_id = codes "home";
  name = codes "Cash";
  type = codes "cash";
  system_key = some (codes "cash");
  deleted_at = none;
}

abbrev card : PaymentSource
card = record cash {
  id = codes "d";
  name = codes "Card";
  type = codes "debit_card";
  system_key = none;
}

abbrev rows : PaymentSourceDb
rows = record {
  payment_sources = cash ∷ card ∷ [];
  memberships =
      record {
        workspace_id = codes "home";
        user_id = codes "ann";
        last_payment_source_id = codes "d";
      }
      ∷ [];
  audit_log = [];
}

once : (id : Text) → count (has_id id) rows.payment_sources ≤ 1
once id = elim (Bool-cases (text_eq (codes "c") id)) [
  | inl here ↦
      subst (λ x. count (has_id x) rows.payment_sources ≤ 1) ((text_eq_iff (codes "c") id).0 here)
        (omega arith)
  | inr not_c ↦ rw not_c (ground arith)
]

once_called : (w key : Text) → count (is_called fold w key) rows.payment_sources ≤ 1
once_called w key = elim (Bool-cases (text_eq (codes "cash") key)) [
  | inl here ↦
      subst (λ x. count (is_called fold w x) rows.payment_sources ≤ 1)
        ((text_eq_iff (codes "cash") key).0 here)
        (elim (Bool-cases (text_eq (codes "home") w)) [
          | inl own ↦ rw own (omega arith)
          | inr other ↦ rw other (omega arith)
        ])
  | inr not_c ↦ elim (Bool-cases (text_eq (codes "home") w)) [
    | inl own ↦ rw own (rw not_c (ground arith))
    | inr other ↦ rw other (omega arith)
  ]
]

rows-IsSettled : IsSettled fold rows
rows-IsSettled = record {
  tidy = record { ids = once; names = once_called };
  preferences = (refl, tt);
}

abbrev command : PaymentSourceCommand
command = record { name = codes " Bank "; type = codes "bank" }

abbrev requests : List PaymentSourceRequest
requests =
    create_source command home (codes "ann") (codes "b")
    ∷ update_source (record command { name = codes "CARD" }) (codes "b") home (codes "ann")
    ∷ archive_source (codes "d") home (codes "ann") 9
    ∷ update_source (record command { name = codes "CARD" }) (codes "b") home (codes "ann")
    ∷ []

serve_sources-Stays_example : Stays fold rows (serve_sources fold requests rows)
serve_sources-Stays_example = serve_sources-Stays fold requests rows rows-IsSettled

-- The name of the card is free when the card is archived, and the preference for it is cash then.
after :
    map {B = Text × Text × Option ℕ}
      (λ s. (s.id, s.name, s.deleted_at))
      (serve_sources fold requests rows).payment_sources
    ≡ (codes "c", codes "Cash", none)
      ∷ (codes "d", codes "Card", some 9)
      ∷ (codes "b", codes "CARD", none)
      ∷ []
unfolding run
after = refl

preference_reset :
    map (λ m. m.last_payment_source_id) (serve_sources fold requests rows).memberships
    ≡ codes "c" ∷ []
unfolding run
preference_reset = refl

taken :
    answer_source fold
      (create_source (record command { name = codes "card" }) home (codes "ann") (codes "b"))
      rows
    ≡ err payment_source_name_conflict
unfolding run
taken = refl

cash_protected :
    answer_source fold (archive_source (codes "c") home (codes "ann") 9) rows
    ≡ err system_cash_protected
unfolding run
cash_protected = refl

both_invalid :
    answer_source fold
      (create_source
        (record { name = codes " "; type = codes "gold" })
        home
        (codes "ann")
        (codes "b"))
      rows
    ≡ err (bad_request (codes "Name is required" ∷ codes "Payment source type is invalid" ∷ []))
unfolding run
both_invalid = refl
