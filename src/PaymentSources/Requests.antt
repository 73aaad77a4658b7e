-- ===== src/PaymentSources/Requests.antt =====
-- Sequences of requests that change payment sources.
pub mod Runs
use monqom.Common.{ℕ, List, [], ◌∷◌}
use monqom.Common.Results.{Outcome, ok, err}
use monqom.Common.Text.{Text}
use monqom.PaymentSources.Rows.{PaymentSourceDb}
use monqom.PaymentSources.Service.{
  PaymentSourceError, PaymentSourceCommand, PaymentSourceResponse, create_payment_source,
  update_payment_source, archive_payment_source,
}

pub data PaymentSourceRequest : Type 0 where
  create_source : PaymentSourceCommand → Text → Text → Text → PaymentSourceRequest
  update_source : PaymentSourceCommand → Text → Text → Text → PaymentSourceRequest
  archive_source : Text → Text → Text → ℕ → PaymentSourceRequest

unfoldable pub answer_source :
    (Text → Text)
    → PaymentSourceRequest
    → PaymentSourceDb
    → Outcome PaymentSourceError (PaymentSourceResponse × PaymentSourceDb)
answer_source fold (create_source input w user_id new_id) db =
    create_payment_source fold input w user_id new_id db
answer_source fold (update_source input id w user_id) db =
    update_payment_source fold input id w user_id db
answer_source fold (archive_source id w user_id at) db = archive_payment_source id w user_id at db

-- The rows after a request, which an exception leaves.
abbrev pub rows_after :
    Outcome PaymentSourceError (PaymentSourceResponse × PaymentSourceDb)
    → PaymentSourceDb
    → PaymentSourceDb
rows_after (ok (_, db')) db = db'
rows_after (err _) db = db

abbrev pub serve_sources :
    (Text → Text) → List PaymentSourceRequest → PaymentSourceDb → PaymentSourceDb
serve_sources fold [] db = db
serve_sources fold (r ∷ rs) db = serve_sources fold rs (rows_after (answer_source fold r db) db)
