-- ===== src/Billing/Settlement.antt =====
-- internal/modules/billing/settlement.go with the statements of store/queries.sql.go that it
-- runs, and the requests and refusals of internal/modules/orders/settlement.go. The JSON
-- snapshots of payee, payer and receipt, and the invoice's printed number, are left out.
pub mod Documents
pub mod Payments
pub mod Commission
mod Tests
use binno_pta_2026_evaluatio.Prelude.{
  ℕ, suc, ◌+◌, Bool, true, false, not, ◌&&◌, ◌||◌, Option, none, some, List, [], ◌∷◌, String,
  str_eq, ltb, leb, ◌==◌, if◌then◌else◌, pure, throw, gets, modify, or_throw, reject_if, ◌>>=◌,
  ◌>>◌, count_rows, update_rows, Result, ok, err,
}
use binno_pta_2026_evaluatio.Prelude.Int.{ℤ, pos, ◌+ℤ◌, ◌-ℤ◌, ltb_ℤ, leb_ℤ, eqb_ℤ, wrap64}
use binno_pta_2026_evaluatio.Db.{
  Db, Driver, Invoice, InvoiceStatus, Payment, PaymentStatus, Refund, RefundStatus, LedgerEntry,
}
use binno_pta_2026_evaluatio.Tx.{Tx}

-- `ErrSettlementConflict`, `ErrSettlementInvalid`, and any other error.
pub data SettlementError : Type 0 where
  settlement_conflict settlement_invalid internal : SettlementError

pub record InvoiceRequest : Type 0 where
  pub order_id : String
  pub total_amount : ℤ
  pub issued_at : ℕ
  pub expires_at : ℕ

pub record ReceiptRequest : Type 0 where
  pub order_id : String
  pub receipt_url : String
  pub goods_amount : ℤ
  pub delivery_fee : ℤ
  pub at : ℕ

pub record PaymentDecision : Type 0 where
  pub order_id : String
  pub accepted : Bool
  pub at : ℕ

pub record RefundRequest : Type 0 where
  pub order_id : String
  pub amount : ℤ
  pub reason : String
  pub at : ℕ
  pub due_at : ℕ

pub record CommissionRequest : Type 0 where
  pub order_id : String
  pub owner_id : String
  pub base_amount : ℤ
  pub accrued : ℤ
  pub rate_bps : ℤ
  pub at : ℕ

pub record CommissionAccrued : Type 0 where
  pub accrued : ℤ
  pub discount : ℤ
  pub payable : ℤ
  pub free_order : Bool
  pub sequence : ℕ

-- The rows of an order in one status.

abbrev invoice_rank : InvoiceStatus → ℕ
invoice_rank InvoiceStatus.issued = 0
invoice_rank InvoiceStatus.paid = 1
invoice_rank InvoiceStatus.refunded = 2
invoice_rank InvoiceStatus.voided = 3

abbrev pub is_invoice : ℕ → InvoiceStatus → Invoice → Bool
is_invoice order s i = (i.order_id == order) && (invoice_rank i.status == invoice_rank s)

abbrev payment_rank : PaymentStatus → ℕ
payment_rank PaymentStatus.created = 0
payment_rank PaymentStatus.paid = 1
payment_rank PaymentStatus.failed = 2
payment_rank PaymentStatus.reversed = 3

abbrev pub is_payment : ℕ → PaymentStatus → Payment → Bool
is_payment order s p = (p.order_id == order) && (payment_rank p.status == payment_rank s)

-- The rows that ux_payments_order_live holds to one for each order.
abbrev pub is_live_payment : ℕ → Payment → Bool
is_live_payment order p =
    is_payment order PaymentStatus.created p || is_payment order PaymentStatus.paid p

abbrev is_open : RefundStatus → Bool
is_open RefundStatus.requested = true
is_open RefundStatus.evidence_uploaded = true
is_open RefundStatus.overdue = true
is_open RefundStatus.refunded = false

abbrev pub is_open_refund : ℕ → Refund → Bool
is_open_refund order r = (r.order_id == order) && is_open r.status

-- `MarkInvoicePaid`, `MarkInvoiceRefunded` and `VoidCurrentInvoice`.
unfoldable pub move_invoices : ℕ → InvoiceStatus → InvoiceStatus → List Invoice → List Invoice
move_invoices order from to = update_rows (is_invoice order from) (λ i. record i { status = to })

-- `FailLivePayment` and `ReversePaidPayment`.
unfoldable pub move_payments : ℕ → PaymentStatus → PaymentStatus → List Payment → List Payment
move_payments order from to = update_rows (is_payment order from) (λ p. record p { status = to })

-- `coalesce(max(version), 0)` over the invoices of an order.
unfoldable pub max_version : ℕ → List Invoice → ℕ
max_version order [] = 0
max_version order (i ∷ is) =
    let rest = max_version order is in
    if (i.order_id == order) && ltb rest i.version then i.version else rest

-- `IssueInvoice`; the result is the version.
unfoldable pub issue_invoice : Driver → InvoiceRequest → Tx SettlementError ℕ
issue_invoice d request = do
  order ← or_throw (d.parse_uuid request.order_id) settlement_invalid
  reject_if (ltb_ℤ request.total_amount (pos 0)) settlement_invalid
  version ← gets (λ db. max_version order db.invoices + 1)
  modify (λ db. record db {
    invoices =
        (record {
          order_id = order;
          version = version;
          total_amount = request.total_amount;
          status = InvoiceStatus.issued;
          expires_at = request.expires_at;
          created_at = request.issued_at;
        })
        ∷ db.invoices;
  })
  pure version

-- `RecordPaymentReceipt`. The table refuses a second live payment, a unique violation, and a
-- negative sum, any other error.
unfoldable pub record_payment_receipt : Driver → ReceiptRequest → Tx SettlementError (Unit {0})
record_payment_receipt d request = do
  order ← or_throw (d.parse_uuid request.order_id) settlement_invalid
  reject_if
      (str_eq request.receipt_url ""
        || (ltb_ℤ request.goods_amount (pos 0) || ltb_ℤ request.delivery_fee (pos 0)))
      settlement_invalid
  let seller_amount = wrap64 (request.goods_amount +ℤ request.delivery_fee)
  reject_if (ltb_ℤ seller_amount (pos 0)) internal
  live ← gets (λ db. count_rows (is_live_payment order) db.payments)
  reject_if (ltb 0 live) settlement_conflict
  modify (λ db. record db {
    payments =
        (record {
          order_id = order;
          goods_amount = request.goods_amount;
          delivery_fee = request.delivery_fee;
          seller_amount = seller_amount;
          status = PaymentStatus.created;
          receipt_url = request.receipt_url;
          paid_at = none;
          created_at = request.at;
        })
        ∷ db.payments;
  })

-- `SettleManualPayment`.
unfoldable pub settle_manual_payment : Bool → ℕ → ℕ → List Payment → List Payment
settle_manual_payment accepted at order = update_rows (is_payment order PaymentStatus.created) (λ p.
    if accepted
    then record p { status = PaymentStatus.paid; paid_at = some at }
    else record p { status = PaymentStatus.failed })

-- `SettlePayment`.
unfoldable pub settle_payment : Driver → PaymentDecision → Tx SettlementError (Unit {0})
unfolding settle_manual_payment move_invoices
settle_payment d decision = do
  order ← or_throw (d.parse_uuid decision.order_id) settlement_invalid
  undecided ← gets (λ db. count_rows (is_payment order PaymentStatus.created) db.payments)
  reject_if (undecided == 0) settlement_conflict
  modify (λ db. record db {
    payments = settle_manual_payment decision.accepted decision.at order db.payments;
  })
  modify (λ db.
      if decision.accepted
      then record db {
        invoices = move_invoices order InvoiceStatus.issued InvoiceStatus.paid db.invoices;
      }
      else db)

-- `CancelSettlement`.
unfoldable pub cancel_settlement : Driver → String → Tx SettlementError (Unit {0})
unfolding move_invoices move_payments
cancel_settlement d order_id = do
  order ← or_throw (d.parse_uuid order_id) settlement_invalid
  modify (λ db. record db {
    invoices = move_invoices order InvoiceStatus.issued InvoiceStatus.voided db.invoices;
    payments = move_payments order PaymentStatus.created PaymentStatus.failed db.payments;
  })

-- `OpenRefund`.
unfoldable pub open_refund : Driver → RefundRequest → Tx SettlementError (Unit {0})
open_refund d request = do
  order ← or_throw (d.parse_uuid request.order_id) settlement_invalid
  reject_if (leb_ℤ request.amount (pos 0)) settlement_invalid
  modify (λ db. record db {
    refunds =
        (record {
          id = db.next_id;
          order_id = order;
          amount = request.amount;
          reason = if str_eq request.reason "" then none else some request.reason;
          status = RefundStatus.requested;
          due_at = request.due_at;
          buyer_confirmed_at = none;
          created_at = request.at;
        })
        ∷ db.refunds;
    next_id = suc db.next_id;
  })

-- The statement `CompleteRefund`.
unfoldable pub close_refunds : ℕ → ℕ → List Refund → List Refund
close_refunds at order =
    update_rows (is_open_refund order)
      (λ r. record r { status = RefundStatus.refunded; buyer_confirmed_at = some at })

-- `CompleteRefund`.
unfoldable pub complete_refund : Driver → String → ℕ → Tx SettlementError (Unit {0})
unfolding close_refunds move_payments move_invoices
complete_refund d order_id at = do
  order ← or_throw (d.parse_uuid order_id) settlement_invalid
  open_refunds ← gets (λ db. count_rows (is_open_refund order) db.refunds)
  reject_if (open_refunds == 0) settlement_conflict
  modify (λ db. record db {
    refunds = close_refunds at order db.refunds;
    payments = move_payments order PaymentStatus.paid PaymentStatus.reversed db.payments;
    invoices = move_invoices order InvoiceStatus.paid InvoiceStatus.refunded db.invoices;
  })

abbrev pub founding_free_orders : ℕ
founding_free_orders = 10

abbrev pub is_entry_of_owner : ℕ → LedgerEntry → Bool
is_entry_of_owner owner e = e.owner_id == owner

abbrev pub is_entry_of_order : ℕ → LedgerEntry → Bool
is_entry_of_order order e = e.order_id == order

-- `AccrueCommission`; a second entry for an order is a unique violation.
unfoldable pub accrue_commission : Driver → CommissionRequest → Tx SettlementError CommissionAccrued
unfolding ◌-ℤ◌
accrue_commission d request = do
  order ← or_throw (d.parse_uuid request.order_id) settlement_invalid
  owner ← or_throw (d.parse_uuid request.owner_id) settlement_invalid
  reject_if
      (ltb_ℤ request.base_amount (pos 0)
        || (ltb_ℤ request.accrued (pos 0) || ltb_ℤ request.rate_bps (pos 0)))
      settlement_invalid
  reject_if (ltb_ℤ request.base_amount request.accrued) settlement_invalid
  completed ← gets (λ db. count_rows (is_entry_of_owner owner) db.ledger)
  let sequence = completed + 1
  let discount = if leb sequence founding_free_orders then request.accrued else pos 0
  let payable = request.accrued -ℤ discount
  entries ← gets (λ db. count_rows (is_entry_of_order order) db.ledger)
  reject_if (ltb 0 entries) settlement_conflict
  modify (λ db. record db {
    ledger =
        (record {
          order_id = order;
          owner_id = owner;
          base_amount = request.base_amount;
          rate_bps = request.rate_bps;
          accrued = request.accrued;
          discount = discount;
          payable = payable;
          created_at = request.at;
        })
        ∷ db.ledger;
  })
  pure (record {
    accrued = request.accrued;
    discount = discount;
    payable = payable;
    free_order = eqb_ℤ discount request.accrued && ltb_ℤ (pos 0) request.accrued;
    sequence = sequence;
  })
