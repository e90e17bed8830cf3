-- ===== src/Orders/Repository/Frame.antt =====
-- Which tables the parts of `transition` (internal/modules/orders/repository.go) leave alone.
use binno_pta_2026_evaluatio.Prelude.{
  ℕ, ◌≡◌, ◌+◌, List, inl, inr, Result-cases, if◌then◌else◌, pure, arith, ok, >>=-eq-ok,
}
use binno_pta_2026_evaluatio.Db.{Db, Driver, Order}
use binno_pta_2026_evaluatio.Catalog.LinePort.{
  ReleaseRequest, release_order_lines, consume_order_lines,
}
use binno_pta_2026_evaluatio.Catalog.LinePort.Frame.{
  with_offers, release_order_lines-frame, consume_order_lines-frame,
}
use binno_pta_2026_evaluatio.Billing.Settlement
use binno_pta_2026_evaluatio.Orders.Status.{
  Trigger, issue_invoice, submit_receipt, confirm_payment, reject_payment, close_order,
  buyer_cancel, operator_cancel, payment_expire, refund_request, confirm_refund, Transition,
}
use binno_pta_2026_evaluatio.Orders.Commission.{accrue_commission, order_items}
use binno_pta_2026_evaluatio.Orders.Repository.{
  TransitionCommand, settle, set_due, payment_window, release_stock, consume_stock, adjust_stock,
  order_lines,
}

release_stock-frame :
    (d : Driver) (order : Order) (db : Db) {db' : Db}
    → release_stock d order db ≡ ok (tt, db')
    → db' ≡ with_offers db db'.offers
unfolding release_stock
release_stock-frame d order db h =
    let request : ReleaseRequest = record {
      store_id = d.uuid_text order.store_id;
      lines = order_lines d (order_items order.id db);
    } in
    elim (Result-cases (release_order_lines d request db)) [
      | inl ((n, db1), e) ↦
          ground (arith, e, release_order_lines-frame d request db {n = n} {db' = db1} e)
      | inr (x, e) ↦ ground (arith, e)
    ]

consume_stock-frame :
    (d : Driver) (order : Order) (db : Db) {db' : Db}
    → consume_stock d order db ≡ ok (tt, db')
    → db' ≡ with_offers db db'.offers
unfolding consume_stock
consume_stock-frame d order db h =
    let request : ReleaseRequest = record {
      store_id = d.uuid_text order.store_id;
      lines = order_lines d (order_items order.id db);
    } in
    elim (Result-cases (consume_order_lines d request db)) [
      | inl ((n, db1), e) ↦
          ground (arith, e, consume_order_lines-frame d request db {n = n} {db' = db1} e)
      | inr (x, e) ↦ ground (arith, e)
    ]

-- The billing consequence writes to the tables of billing, and at most the due date of the order.
abbrev pub settled_orders : Trigger → ℕ → ℕ → List Order → List Order
settled_orders issue_invoice at id orders = set_due (at + payment_window) id orders
settled_orders _ at id orders = orders

pub record SettleFrame (id : ℕ) (trigger : Trigger) (at : ℕ) (db db' : Db) : Type 0 where
  pub orders : db'.orders ≡ settled_orders trigger at id db.orders
  pub items : db'.items ≡ db.items
  pub events : db'.events ≡ db.events
  pub tokens : db'.tokens ≡ db.tokens
  pub offers : db'.offers ≡ db.offers
  pub stores : db'.stores ≡ db.stores
  pub receipts : db'.receipts ≡ db.receipts
  pub outbox : db'.outbox ≡ db.outbox

pub settle-SettleFrame :
    (d : Driver) (order : Order) (trigger : Trigger) (cmd : TransitionCommand) (db : Db) {db' : Db}
    → settle d order trigger cmd db ≡ ok (tt, db')
    → SettleFrame order.id trigger cmd.at db db'
unfolding settle
settle-SettleFrame d order issue_invoice cmd db h = unfold Settlement.issue_invoice in ground arith
settle-SettleFrame d order submit_receipt cmd db h =
    unfold Settlement.record_payment_receipt in ground arith
settle-SettleFrame d order confirm_payment cmd db h =
    unfold Settlement.settle_payment in ground arith
settle-SettleFrame d order reject_payment cmd db h =
    unfold Settlement.settle_payment in ground arith
settle-SettleFrame d order close_order cmd db h =
    unfold accrue_commission Settlement.accrue_commission in ground arith
settle-SettleFrame d order buyer_cancel cmd db h =
    unfold Settlement.cancel_settlement in ground arith
settle-SettleFrame d order operator_cancel cmd db h =
    unfold Settlement.cancel_settlement in ground arith
settle-SettleFrame d order payment_expire cmd db h =
    unfold Settlement.cancel_settlement in ground arith
settle-SettleFrame d order refund_request cmd db h = unfold Settlement.open_refund in ground arith
settle-SettleFrame d order confirm_refund cmd db h =
    unfold Settlement.complete_refund in ground arith
settle-SettleFrame d order _ cmd db h = ground arith

-- The stock is in the offers alone.
pub adjust_stock-frame :
    (d : Driver) (order : Order) (t : Transition) (db : Db) {db' : Db}
    → adjust_stock d order t db ≡ ok (tt, db')
    → db' ≡ with_offers db db'.offers
unfolding adjust_stock
adjust_stock-frame d order t db {db' = db'} h =
    let (_, db1, released, consumed) =
      >>=-eq-ok (if t.releases_stock then release_stock d order else pure tt) _ db h in
    ground (
      arith,
      release_stock-frame d order db {db' = db1},
      consume_stock-frame d order db1 {db' = db'},
    )
