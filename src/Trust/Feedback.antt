-- ===== src/Trust/Feedback.antt =====
-- internal/modules/trust/service.go and repository.go: one verdict of the buyer on a closed order,
-- with its statement of store/queries.sql.go.
pub mod Verdicts
mod Tests
use binno_pta_2026_evaluatio.Prelude.{
  ℕ, ◌≡◌, Bool, true, false, not, ◌&&◌, ◌||◌, Option, none, some, List, [], ◌∷◌, ◌++◌, String,
  str_eq, leb, ◌==◌, if◌then◌else◌, count_rows, Result, ok, err, pure, gets, modify, or_throw,
  reject_if, map_err, ◌>>=◌, ◌>>◌,
}
use binno_pta_2026_evaluatio.Db.{Db, Driver, FeedbackRow, feedback_created}
use binno_pta_2026_evaluatio.Tx.{Tx, Ending, commit, rollback, run_tx}
use binno_pta_2026_evaluatio.Tx.Dedup.{DedupError, key_reuse, key_required, reserve_for}
use binno_pta_2026_evaluatio.Authz.{AuthError, unauthenticated, forbidden, require, ensure_self}
use binno_pta_2026_evaluatio.Orders.Status.{Status, closed, status_eq}
use binno_pta_2026_evaluatio.Orders.Errors.{Error}
use binno_pta_2026_evaluatio.Orders.Repository.{write_outbox}
use binno_pta_2026_evaluatio.Orders.Service.{Request, Summary, byte_length, summary}
use binno_pta_2026_evaluatio.Orders.Placement.{optional}

pub record FeedbackInput : Type 0 where
  pub order_id : String
  pub comment : String
  pub channel : String
  pub had_problem : Bool
  pub tags : List String

-- `Feedback`.
pub record Verdict : Type 0 where
  pub given : FeedbackInput
  pub store_id : String
  pub buyer_id : String

-- `ErrInvalid`, `ErrConflict`, `ErrNotFound`, a caller who is not signed in, and any other error.
pub data FeedbackError : Type 0 where
  invalid conflict not_found signed_out internal : FeedbackError

abbrev pub feedback_tags : List String
feedback_tags = "late" ∷ "qty_short" ∷ "quality" ∷ "price_mismatch" ∷ "no_response" ∷ []

abbrev pub feedback_channels : List String
feedback_channels = "push" ∷ "sms" ∷ "app" ∷ []

abbrev pub max_feedback_comment : ℕ
max_feedback_comment = 2000

-- `slices.Contains`, and the test of the map `seen`.
has_text : String → List String → Bool
has_text s [] = false
has_text s (x ∷ xs) = str_eq x s || has_text s xs

valid_tags : List String → List String → Bool
unfolding has_text
valid_tags seen [] = true
valid_tags seen (tag ∷ tags) =
    has_text tag feedback_tags && not (has_text tag seen) && valid_tags (tag ∷ seen) tags

-- `validate`, on the input with its comment trimmed.
unfoldable pub is_feedback : Request → FeedbackInput → Bool
unfolding valid_tags
is_feedback r i =
    valid_tags [] i.tags
    && r.texts.is_uuid i.order_id
    && leb (byte_length i.comment) max_feedback_comment
    && has_text i.channel feedback_channels

abbrev feedback_dedup_error : DedupError → FeedbackError
feedback_dedup_error key_reuse = conflict
feedback_dedup_error key_required = internal

abbrev pub feedback_row : ℕ → ℕ → Verdict → ℕ → FeedbackRow
feedback_row order store v at = record {
  order_id = order;
  store_id = store;
  had_problem = v.given.had_problem;
  tags = v.given.tags;
  comment = optional v.given.comment;
  channel = v.given.channel;
  created_at = at;
}

-- The references of a row; the order is the key of the table.
abbrev is_referable : ℕ → ℕ → Db → Bool
is_referable order store db =
    not (count_rows (λ o. o.id == order) db.orders == 0)
    && not (count_rows (λ s. s.store_id == store) db.stores == 0)

feedback_claimed : Driver → Verdict → ℕ → ℕ → ℕ → Bool → Tx FeedbackError (Ending (Unit {0}))
feedback_claimed d v order store at true = pure (rollback tt)
feedback_claimed d v order store at false = do
  given ← gets (λ db. count_rows (λ f. f.order_id == order) db.feedback)
  reject_if (not (given == 0)) conflict
  referable ← gets (is_referable order store)
  reject_if (not referable) internal
  modify (λ db. record db { feedback = db.feedback ++ feedback_row order store v at ∷ [] })
  map_err (λ e. internal)
      (write_outbox d v.given.order_id
        (feedback_created v.store_id v.buyer_id v.given.had_problem v.given.tags v.given.channel))
  pure (commit tt)

feedback_body : Driver → String → Verdict → ℕ → ℕ → ℕ → Tx FeedbackError (Ending (Unit {0}))
unfolding feedback_claimed
feedback_body d key v order store at = do
  replay ← map_err feedback_dedup_error (reserve_for key order at)
  feedback_claimed d v order store at replay

-- `CreateOrderFeedback` of the repository.
unfoldable pub store_feedback :
    Driver → String → Verdict → ℕ → Db → Result FeedbackError (Unit {0}) × Db
unfolding feedback_body
store_feedback d key v at db = elim (d.parse_uuid v.given.order_id) [
  | none ↦ (err invalid, db)
  | some order ↦ elim (d.parse_uuid v.store_id) [
    | none ↦ (err invalid, db)
    | some store ↦ run_tx (feedback_body d key v order store at) db
  ]
]

summary_error : Error → FeedbackError
summary_error Error.not_found = not_found
summary_error Error.invalid = not_found
summary_error Error.conflict = internal
summary_error Error.gone = internal
summary_error Error.unavailable = internal
summary_error Error.internal = internal

stranger_error : AuthError → FeedbackError
stranger_error forbidden = not_found
stranger_error unauthenticated = signed_out

-- The checks on the order, once it is found.
of_buyer : Request → FeedbackInput → Summary → Db → Result FeedbackError (Unit {0}) × Db
unfolding stranger_error
of_buyer r i found db = elim (ensure_self r.caller found.buyer_id) [
  | err e ↦ (err (stranger_error e), db)
  | ok _ ↦
      if status_eq found.status closed
      then store_feedback r.driver r.key
          (record { given = i; store_id = found.store_id; buyer_id = found.buyer_id }) r.at db
      else (err conflict, db)
]

on_order :
    Request → FeedbackInput → Result Error Summary → Db → Result FeedbackError (Unit {0}) × Db
unfolding of_buyer summary_error
on_order r i (err e) db = (err (summary_error e), db)
on_order r i (ok found) db = of_buyer r i found db

by_caller : Request → FeedbackInput → Db → Result FeedbackError (Unit {0}) × Db
unfolding on_order
by_caller r i db = elim (require r.caller) [
  | err _ ↦ (err signed_out, db)
  | ok _ ↦ on_order r i (summary r.driver i.order_id db) db
]

-- `CreateOrderFeedback` of the service.
unfoldable pub give_feedback : Request → FeedbackInput → Db → Result FeedbackError (Unit {0}) × Db
unfolding by_caller
give_feedback r i db =
    let t = record i { comment = r.texts.trim_space i.comment } in
    if is_feedback r t then by_caller r t db else (err invalid, db)
