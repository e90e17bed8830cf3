-- ===== src/Billing/Settlement/Documents.antt =====
-- The invoices, payments and refunds of an order under internal/modules/billing/settlement.go.
use binno_pta_2026_evaluatio.Prelude.{
  ℕ, suc, ◌+◌, ◌≤◌, ◌≡◌, ◌≢◌, refl, Bool, true, some, List, [], ◌∷◌, String, arith, ◌==◌, ok, err,
  count_rows, select_rows, Option-cases, ==-cases, ◌⊎◌, inl, inr,
}
use binno_pta_2026_evaluatio.Db.{Db, Driver, Invoice, InvoiceStatus, Payment, PaymentStatus}
use binno_pta_2026_evaluatio.Billing.Settlement.{
  InvoiceRequest, PaymentDecision, settlement_conflict, issue_invoice, settle_payment,
  settle_manual_payment, cancel_settlement, move_invoices, move_payments, max_version, is_invoice,
  is_payment,
}

abbrev pub is_invoice_of : ℕ → Invoice → Bool
is_invoice_of order i = i.order_id == order

abbrev pub is_payment_of : ℕ → Payment → Bool
is_payment_of order p = p.order_id == order

invoices_left :
    (order : ℕ) (is : List Invoice)
    → count_rows
        (is_invoice order InvoiceStatus.issued)
        (move_invoices order InvoiceStatus.issued InvoiceStatus.voided is)
      ≡ 0
unfolding move_invoices
invoices_left order [] = refl
invoices_left order (i ∷ is) = ground (arith, invoices_left order is)

payments_left :
    (order : ℕ) (ps : List Payment)
    → count_rows
        (is_payment order PaymentStatus.created)
        (move_payments order PaymentStatus.created PaymentStatus.failed ps)
      ≡ 0
unfolding move_payments
payments_left order [] = refl
payments_left order (p ∷ ps) = ground (arith, payments_left order ps)

invoices_of_others :
    (order other : ℕ) (from to : InvoiceStatus) (is : List Invoice)
    → other ≢ order
    → select_rows (is_invoice_of other) (move_invoices order from to is)
      ≡ select_rows (is_invoice_of other) is
unfolding move_invoices
invoices_of_others order other from to [] h = refl
invoices_of_others order other from to (i ∷ is) h =
    ground (arith, h, invoices_of_others order other from to is h)

payments_of_others :
    (order other : ℕ) (from to : PaymentStatus) (ps : List Payment)
    → other ≢ order
    → select_rows (is_payment_of other) (move_payments order from to ps)
      ≡ select_rows (is_payment_of other) ps
unfolding move_payments
payments_of_others order other from to [] h = refl
payments_of_others order other from to (p ∷ ps) h =
    ground (arith, h, payments_of_others order other from to ps h)

-- `CancelSettlement` fails for a malformed order id alone; afterwards the order has no issued
-- invoice and no undecided payment, and the documents of every other order are as they were.
pub cancel_settlement_lem :
    (d : Driver) (order_id : String) (order other : ℕ) (db : Db)
    → d.parse_uuid order_id ≡ some order
    → other ≢ order
    → (db' : Db) × (cancel_settlement d order_id db ≡ ok (tt, db'))
      × (count_rows (is_invoice order InvoiceStatus.issued) db'.invoices ≡ 0)
      × (count_rows (is_payment order PaymentStatus.created) db'.payments ≡ 0)
      × (select_rows (is_invoice_of other) db'.invoices
          ≡ select_rows (is_invoice_of other) db.invoices)
      × (select_rows (is_payment_of other) db'.payments
          ≡ select_rows (is_payment_of other) db.payments)
unfolding cancel_settlement
cancel_settlement_lem d order_id order other db parsed ne = (
  record db {
    invoices = move_invoices order InvoiceStatus.issued InvoiceStatus.voided db.invoices;
    payments = move_payments order PaymentStatus.created PaymentStatus.failed db.payments;
  },
  ground (arith, parsed),
  invoices_left order db.invoices,
  payments_left order db.payments,
  invoices_of_others order other InvoiceStatus.issued InvoiceStatus.voided db.invoices ne,
  payments_of_others order other PaymentStatus.created PaymentStatus.failed db.payments ne,
)

undecided_left :
    (accepted : Bool) (at order : ℕ) (ps : List Payment)
    → count_rows
        (is_payment order PaymentStatus.created)
        (settle_manual_payment accepted at order ps)
      ≡ 0
unfolding settle_manual_payment
undecided_left accepted at order [] = refl
undecided_left accepted at order (p ∷ ps) = ground (arith, undecided_left accepted at order ps)

paid_after :
    (at order : ℕ) (ps : List Payment)
    → count_rows (is_payment order PaymentStatus.paid) (settle_manual_payment true at order ps)
      ≡ count_rows (is_payment order PaymentStatus.paid) ps
        + count_rows (is_payment order PaymentStatus.created) ps
unfolding settle_manual_payment
paid_after at order [] = refl
paid_after at order (p ∷ ps) = ground (arith, paid_after at order ps)

-- A payment is decided once: after `SettlePayment` succeeded, it is a conflict for the same order,
-- whatever the decision.
pub settle_payment_once :
    (d : Driver) (first second : PaymentDecision) (order : ℕ) (db : Db) {db' : Db}
    → d.parse_uuid first.order_id ≡ some order
    → d.parse_uuid second.order_id ≡ some order
    → settle_payment d first db ≡ ok (tt, db')
    → settle_payment d second db' ≡ err settlement_conflict
unfolding settle_payment
settle_payment_once d first second order db parsed parsed2 h =
    ground (arith, parsed, parsed2, undecided_left first.accepted first.at order db.payments)

-- Every invoice of the order has a version from 1 to n.
abbrev pub IsVersionedUpTo : ℕ → ℕ → List Invoice → Type 0
IsVersionedUpTo order n [] = Unit
IsVersionedUpTo order n (i ∷ is) =
    ((i.order_id ≢ order) ⊎ (i.version ≤ n)) × IsVersionedUpTo order n is

max_version-bounds :
    (order : ℕ) (is : List Invoice)
    → (n : ℕ) → max_version order is ≤ n
    → IsVersionedUpTo order n is
unfolding max_version
max_version-bounds order [] n h = tt
max_version-bounds order (i ∷ is) n h =
    (version_bound (==-cases i.order_id order), max_version-bounds order is n (ground (arith, h)))
  where
    version_bound :
        (i.order_id ≡ order) ⊎ (i.order_id ≢ order) → (i.order_id ≢ order) ⊎ (i.version ≤ n)
    version_bound (inl same) = inr (ground (arith, same, h))
    version_bound (inr differ) = inl differ

-- A new invoice takes a version that is above every version of its order, and the sum may not be
-- negative.
pub issue_invoice_lem :
    (d : Driver) (request : InvoiceRequest) (db : Db) {version : ℕ} {db' : Db}
    → issue_invoice d request db ≡ ok (version, db')
    → (order : ℕ) × (n : ℕ) × (d.parse_uuid request.order_id ≡ some order)
      × (version ≡ suc n)
      × IsVersionedUpTo order n db.invoices
      × (count_rows (is_invoice order InvoiceStatus.issued) db'.invoices
          ≡ suc (count_rows (is_invoice order InvoiceStatus.issued) db.invoices))
unfolding issue_invoice
issue_invoice_lem d request db h = elim (Option-cases (d.parse_uuid request.order_id)) [
  | inl malformed ↦ absurd (ground (arith, malformed))
  | inr (order, parsed) ↦ (
    order,
    max_version order db.invoices,
    parsed,
    ground (arith, parsed),
    max_version-bounds order db.invoices _ (ground arith),
    ground (arith, parsed),
  )
]
