-- ===== src/Billing/Settlement/Tests.antt =====
-- Witnesses for the settlement of orders.
use binno_pta_2026_evaluatio.Prelude.{◌≡◌, refl, true, false, ok, err, Result, arith}
use binno_pta_2026_evaluatio.Prelude.Int.{pos, wrap64, ◌+ℤ◌, ◌-ℤ◌}
use binno_pta_2026_evaluatio.Db.{Db}
use binno_pta_2026_evaluatio.Db.Sample.{sample_driver, sample_db, row}
use binno_pta_2026_evaluatio.Billing.Settlement.{
  InvoiceRequest, ReceiptRequest, PaymentDecision, CommissionRequest, CommissionAccrued,
  SettlementError, issue_invoice, record_payment_receipt, settle_payment, accrue_commission,
  max_version,
}
use binno_pta_2026_evaluatio.Billing.Settlement.Payments.{
  steps-IsSingle, IsSingle, PaymentStep, PaymentSteps,
}
use binno_pta_2026_evaluatio.Billing.Settlement.Commission.{
  accrue_commission_lem, Accrued, IsLedger,
}

abbrev db_of : {A : Type 0} → Result SettlementError (A × Db) → Db
db_of (ok (_, db)) = db
db_of (err _) = sample_db

abbrev bill : InvoiceRequest
bill = record { order_id = row 6; total_amount = pos 200; issued_at = 1; expires_at = 2 }

abbrev paid_slip : ReceiptRequest
paid_slip = record {
  order_id = row 6;
  receipt_url = row 1;
  goods_amount = pos 200;
  delivery_fee = pos 0;
  at = 1;
}

abbrev verdict : PaymentDecision
verdict = record { order_id = row 6; accepted = true; at = 2 }

abbrev billed : Db
billed = db_of (issue_invoice sample_driver bill sample_db)

billed-ok : issue_invoice sample_driver bill sample_db ≡ ok (1, billed)
unfolding issue_invoice max_version
billed-ok = refl

abbrev received : Db
received = db_of (record_payment_receipt sample_driver paid_slip sample_db)

received-ok : record_payment_receipt sample_driver paid_slip sample_db ≡ ok (tt, received)
unfolding record_payment_receipt wrap64 ◌+ℤ◌
received-ok = refl

abbrev settled : Db
settled = db_of (settle_payment sample_driver verdict received)

settled-ok : settle_payment sample_driver verdict received ≡ ok (tt, settled)
unfolding settle_payment record_payment_receipt wrap64 ◌+ℤ◌
settled-ok = refl

sample_db-IsSingle : IsSingle sample_db
sample_db-IsSingle order = omega arith

steps-IsSingle_example : IsSingle settled
steps-IsSingle_example = steps-IsSingle sample_db-IsSingle (
    PaymentSteps.next (PaymentStep.receipt paid_slip received-ok)
      (PaymentSteps.next (PaymentStep.decision verdict settled-ok) PaymentSteps.done))

abbrev charge : CommissionRequest
charge = record {
  order_id = row 6;
  owner_id = row 5;
  base_amount = pos 200;
  accrued = pos 5;
  rate_bps = pos 250;
  at = 3;
}

abbrev answer_of : Result SettlementError (CommissionAccrued × Db) → CommissionAccrued
answer_of (ok (r, _)) = r
answer_of (err _) = record {
  accrued = pos 0;
  discount = pos 0;
  payable = pos 0;
  free_order = false;
  sequence = 0;
}

abbrev accrual : Result SettlementError (CommissionAccrued × Db)
accrual = accrue_commission sample_driver charge sample_db

accrual-ok :
    accrue_commission sample_driver charge sample_db ≡ ok (answer_of accrual, db_of accrual)
unfolding accrue_commission ◌-ℤ◌
accrual-ok = refl

empty-IsLedger : IsLedger sample_db
empty-IsLedger = record {
  balanced = tt;
  single = λ order. omega arith;
  founding = λ owner. omega arith;
}

accrue_commission_lem_example :
    Accrued sample_driver charge sample_db (answer_of accrual) (db_of accrual)
    × IsLedger (db_of accrual)
accrue_commission_lem_example =
    accrue_commission_lem sample_driver charge sample_db empty-IsLedger accrual-ok
