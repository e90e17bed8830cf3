-- ===== src/Billing/Settlement/Payments.antt =====
-- The live payment of an order under internal/modules/billing/settlement.go.
use binno_pta_2026_evaluatio.Prelude.{
  ℕ, ◌≤◌, ◌≡◌, Bool, List, [], ◌∷◌, String, arith, ok, count_rows, Option-cases, inl, inr,
}
use binno_pta_2026_evaluatio.Db.{Db, Driver, Payment, PaymentStatus}
use binno_pta_2026_evaluatio.Billing.Settlement.{
  ReceiptRequest, PaymentDecision, record_payment_receipt, settle_payment, settle_manual_payment,
  cancel_settlement, complete_refund, move_payments, is_live_payment,
}

-- ux_payments_order_live: an order has one live payment at most.
abbrev pub IsSingle : Db → Type 0
IsSingle db = (order : ℕ) → count_rows (is_live_payment order) db.payments ≤ 1

live_settled :
    (accepted : Bool) (at order j : ℕ) (ps : List Payment)
    → count_rows (is_live_payment j) (settle_manual_payment accepted at order ps)
      ≤ count_rows (is_live_payment j) ps
unfolding settle_manual_payment
live_settled accepted at order j [] = ground arith
live_settled accepted at order j (p ∷ ps) = ground (arith, live_settled accepted at order j ps)

live_cancelled :
    (order j : ℕ) (ps : List Payment)
    → count_rows
        (is_live_payment j)
        (move_payments order PaymentStatus.created PaymentStatus.failed ps)
      ≤ count_rows (is_live_payment j) ps
unfolding move_payments
live_cancelled order j [] = ground arith
live_cancelled order j (p ∷ ps) = ground (arith, live_cancelled order j ps)

live_reversed :
    (order j : ℕ) (ps : List Payment)
    → count_rows
        (is_live_payment j)
        (move_payments order PaymentStatus.paid PaymentStatus.reversed ps)
      ≤ count_rows (is_live_payment j) ps
unfolding move_payments
live_reversed order j [] = ground arith
live_reversed order j (p ∷ ps) = ground (arith, live_reversed order j ps)

receipt-IsSingle :
    (d : Driver) (request : ReceiptRequest) (db : Db) {db' : Db}
    → IsSingle db
    → record_payment_receipt d request db ≡ ok (tt, db')
    → IsSingle db'
unfolding record_payment_receipt
receipt-IsSingle d request db single h j = elim (Option-cases (d.parse_uuid request.order_id)) [
  | inl malformed ↦ absurd (ground (arith, malformed))
  | inr (order, parsed) ↦ ground (arith, parsed, single j, single order)
]

settle-IsSingle :
    (d : Driver) (decision : PaymentDecision) (db : Db) {db' : Db}
    → IsSingle db
    → settle_payment d decision db ≡ ok (tt, db')
    → IsSingle db'
unfolding settle_payment
settle-IsSingle d decision db single h j = elim (Option-cases (d.parse_uuid decision.order_id)) [
  | inl malformed ↦ absurd (ground (arith, malformed))
  | inr (order, parsed) ↦
      ground
        (arith, parsed, single j, live_settled decision.accepted decision.at order j db.payments)
]

cancel-IsSingle :
    (d : Driver) (order_id : String) (db : Db) {db' : Db}
    → IsSingle db
    → cancel_settlement d order_id db ≡ ok (tt, db')
    → IsSingle db'
unfolding cancel_settlement
cancel-IsSingle d order_id db single h j = elim (Option-cases (d.parse_uuid order_id)) [
  | inl malformed ↦ absurd (ground (arith, malformed))
  | inr (order, parsed) ↦ ground (arith, parsed, single j, live_cancelled order j db.payments)
]

refund-IsSingle :
    (d : Driver) (order_id : String) (at : ℕ) (db : Db) {db' : Db}
    → IsSingle db
    → complete_refund d order_id at db ≡ ok (tt, db')
    → IsSingle db'
unfolding complete_refund
refund-IsSingle d order_id at db single h j = elim (Option-cases (d.parse_uuid order_id)) [
  | inl malformed ↦ absurd (ground (arith, malformed))
  | inr (order, parsed) ↦ ground (arith, parsed, single j, live_reversed order j db.payments)
]

-- One call that changes payments and succeeds.
pub data PaymentStep (d : Driver) (db db' : Db) : Type 0 where
  receipt :
      (request : ReceiptRequest)
      → record_payment_receipt d request db ≡ ok (tt, db')
      → PaymentStep d db db'
  decision :
      (decision : PaymentDecision)
      → settle_payment d decision db ≡ ok (tt, db')
      → PaymentStep d db db'
  cancellation :
      (order_id : String) → cancel_settlement d order_id db ≡ ok (tt, db') → PaymentStep d db db'
  refund :
      (order_id : String) (at : ℕ)
      → complete_refund d order_id at db ≡ ok (tt, db')
      → PaymentStep d db db'

pub data PaymentSteps (d : Driver) : Db → Db → Type 0 where
  done : {db : Db} → PaymentSteps d db db
  next : {a b c : Db} → PaymentStep d a b → PaymentSteps d b c → PaymentSteps d a c

step-IsSingle : (d : Driver) (db db' : Db) → IsSingle db → PaymentStep d db db' → IsSingle db'
step-IsSingle d db db' single (receipt request h) = receipt-IsSingle d request db single h
step-IsSingle d db db' single (decision choice h) = settle-IsSingle d choice db single h
step-IsSingle d db db' single (cancellation order_id h) = cancel-IsSingle d order_id db single h
step-IsSingle d db db' single (refund order_id at h) = refund-IsSingle d order_id at db single h

-- If every order has one payment at most that is undecided or paid, this stays so through any
-- sequence of recorded receipts, decisions on a payment, cancellations and completed refunds.
pub steps-IsSingle : {d : Driver} {db db' : Db} → IsSingle db → PaymentSteps d db db' → IsSingle db'
steps-IsSingle single done = single
steps-IsSingle {d = d} single (next {a = a} {b = b} first rest) =
    steps-IsSingle (step-IsSingle d a b single first) rest
