-- ===== src/Billing/RefundSweep.antt =====
-- internal/modules/billing/refundsweep.go: refunds that are past their due date are marked overdue,
-- after their orders, with the statements of store/queries.sql.go; and `RefundOverdue` of
-- internal/modules/orders/module.go, which the composition passes to it.
pub mod Marking
pub mod Passing
mod Tests
use Prim.Native.String.{◌++◌ as concat}
use binno_pta_2026_evaluatio.Prelude.{
  ℕ, zero, suc, ◌/◌, Bool, true, false, ◌&&◌, Option, none, some, List, [], ◌∷◌, ◌++◌, String, ltb,
  leb, ◌==◌, if◌then◌else◌, select_rows, count_rows, update_rows, Result, ok, err, pure, gets,
  modify, map_err, ◌>>=◌, ◌>>◌,
}
use binno_pta_2026_evaluatio.Db.{
  Db, Driver, Refund, RefundStatus, requested, evidence_uploaded, refunded, overdue, became_overdue,
}
use binno_pta_2026_evaluatio.Tx.{Tx, Ending, commit, rollback, run_tx}
use binno_pta_2026_evaluatio.Tx.Dedup.{reserve_for}
use binno_pta_2026_evaluatio.Orders.Status.{Trigger}
use binno_pta_2026_evaluatio.Orders.Errors.{
  Error, invalid, conflict, not_found, gone, unavailable, internal, raw_dedup_error,
}
use binno_pta_2026_evaluatio.Orders.Repository.{apply, write_outbox}

-- `Unix` and the verbs of `Sprintf`; `decimal` prints a number.
abbrev refund_key : (ℕ → String) → String → String → ℕ → String
refund_key decimal prefix id due =
    concat prefix (concat id (concat ":" (decimal (due / 1000000000))))

tolerated : Result Error (Unit {0}) × Db → Result Error (Unit {0}) × Db
tolerated (ok u, db) = (ok u, db)
tolerated (err conflict, db) = (ok tt, db)
tolerated (err not_found, db) = (ok tt, db)
tolerated (err invalid, db) = (err invalid, db)
tolerated (err gone, db) = (err gone, db)
tolerated (err unavailable, db) = (err unavailable, db)
tolerated (err internal, db) = (err internal, db)

-- `RefundOverdue` of the orders module.
unfoldable pub refund_overdue :
    Driver → (ℕ → String) → ℕ → String → ℕ → Db → Result Error (Unit {0}) × Db
unfolding tolerated
refund_overdue d decimal now order_id due_at db = tolerated (
    apply d (refund_key decimal "orders:refund_overdue:" order_id due_at)
      (record {
        order_id = order_id;
        trigger = Trigger.refund_overdue;
        reason = "";
        receipt_url = "";
        pickup_code = "";
        pickup_signature_url = "";
        at = now;
      })
      db)

-- `status IN ('requested', 'evidence_uploaded')`.
abbrev pub is_awaited : RefundStatus → Bool
is_awaited requested = true
is_awaited evidence_uploaded = true
is_awaited refunded = false
is_awaited overdue = false

-- The condition of `MarkRefundOverdue`, and the row that it writes.
abbrev pub is_markable : ℕ → Refund → Bool
is_markable id r = (r.id == id) && is_awaited r.status

abbrev pub marked_refund : Refund → Refund
marked_refund r = record r { status = RefundStatus.overdue }

mark_changed : Driver → Refund → ℕ → Tx Error (Ending (Unit {0}))
mark_changed d refund zero = pure (rollback tt)
mark_changed d refund (suc n) = do
  modify
      (λ db. record db { refunds = update_rows (is_markable refund.id) marked_refund db.refunds })
  write_outbox d (d.uuid_text refund.order_id)
      (became_overdue (d.uuid_text refund.order_id) refund.amount refund.due_at)
  pure (commit tt)

mark_claimed : Driver → Refund → Bool → Tx Error (Ending (Unit {0}))
unfolding mark_changed
mark_claimed d refund true = pure (rollback tt)
mark_claimed d refund false = do
  changed ← gets (λ db. count_rows (is_markable refund.id) db.refunds)
  mark_changed d refund changed

mark_body : Driver → String → Refund → ℕ → Tx Error (Ending (Unit {0}))
unfolding mark_claimed
mark_body d key refund at = do
  replay ← map_err raw_dedup_error (reserve_for key refund.id at)
  mark_claimed d refund replay

abbrev pub overdue_key : Driver → (ℕ → String) → Refund → String
overdue_key d decimal refund =
    refund_key decimal "billing:refund_overdue:" (d.uuid_text refund.id) refund.due_at

-- `markOverdue`, with its key.
unfoldable pub mark_overdue : Driver → String → Refund → ℕ → Db → Result Error (Unit {0}) × Db
unfolding mark_body
mark_overdue d key refund at db = run_tx (mark_body d key refund at) db

-- `ORDER BY due_at LIMIT n`; which of two refunds with one instant goes first is open to the
-- database.
insert_refund : Refund → List Refund → List Refund
insert_refund x [] = x ∷ []
insert_refund x (y ∷ ys) = if leb x.due_at y.due_at then x ∷ y ∷ ys else y ∷ insert_refund x ys

sort_refunds : List Refund → List Refund
unfolding insert_refund
sort_refunds [] = []
sort_refunds (x ∷ xs) = insert_refund x (sort_refunds xs)

take_refunds : ℕ → List Refund → List Refund
take_refunds n [] = []
take_refunds zero (x ∷ xs) = []
take_refunds (suc n) (x ∷ xs) = x ∷ take_refunds n xs

-- `ListRefundsDue`.
unfoldable pub list_refunds_due : ℕ → ℕ → Db → List Refund
unfolding sort_refunds take_refunds
list_refunds_due deadline limit db =
    take_refunds limit
      (sort_refunds (select_rows (λ r. is_awaited r.status && leb r.due_at deadline) db.refunds))

-- A pass under way: the refunds marked, and the joined errors.
pub record RefundPass : Type 0 where
  pub db : Db
  pub overdue : ℕ
  pub failures : List Error

abbrev pub Callback : Type 0
Callback = String → ℕ → Db → Result Error (Unit {0}) × Db

-- `OnOverdue`, if there is one.
notify_order : Option Callback → String → ℕ → Db → Result Error (Unit {0}) × Db
notify_order none order_id due_at db = (ok tt, db)
notify_order (some on_overdue) order_id due_at db = on_overdue order_id due_at db

counted : RefundPass → Result Error (Unit {0}) × Db → RefundPass
counted s (ok _, db) = record s { db = db; overdue = suc s.overdue }
counted s (err e, db) = record s { db = db; failures = s.failures ++ (e ∷ []) }

unfoldable pub notified :
    Driver → (ℕ → String) → ℕ → Refund → RefundPass → Result Error (Unit {0}) × Db → RefundPass
unfolding counted
notified d decimal now refund s (err e, db) = record s {
  db = db;
  failures = s.failures ++ (e ∷ []);
}
notified d decimal now refund s (ok _, db) =
    counted s (mark_overdue d (overdue_key d decimal refund) refund now db)

-- The loop over the due refunds.
unfoldable pub sweep_refunds :
    Driver → (ℕ → String) → Option Callback → ℕ → List Refund → RefundPass → RefundPass
unfolding notified notify_order
sweep_refunds d decimal on_overdue now [] s = s
sweep_refunds d decimal on_overdue now (r ∷ rs) s =
    sweep_refunds d decimal on_overdue now rs
      (notified d decimal now r s (notify_order on_overdue (d.uuid_text r.order_id) r.due_at s.db))

-- The batch that `NewRefundSweeper` settles on.
abbrev pub sweep_batch : ℕ → ℕ
sweep_batch batch = if batch == 0 then 100 else batch

abbrev pub pass_start : Db → RefundPass
pass_start db = record { db = db; overdue = 0; failures = [] }

-- `RunOnce`. The listing does not fail.
unfoldable pub run_sweep : Driver → (ℕ → String) → Option Callback → ℕ → ℕ → Db → RefundPass
run_sweep d decimal on_overdue batch now db =
    sweep_refunds d decimal on_overdue now (list_refunds_due now (sweep_batch batch) db)
      (pass_start db)
