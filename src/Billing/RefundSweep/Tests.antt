-- ===== src/Billing/RefundSweep/Tests.antt =====
-- Witnesses for the refund sweep: the refund of a paid order is due at 1000.
use binno_pta_2026_evaluatio.Prelude.{◌+◌, ◌≡◌, refl, none, some, [], ◌∷◌, length}
use binno_pta_2026_evaluatio.Prelude.Int.{pos}
use binno_pta_2026_evaluatio.Db.{Db, Refund, requested, refunded}
use binno_pta_2026_evaluatio.Db.Sample.{sample_driver, sample_db, sample_order, row}
use binno_pta_2026_evaluatio.Tx.Dedup.{reserve_for}
use binno_pta_2026_evaluatio.Orders.Status.{Status, transition_for, permits}
use binno_pta_2026_evaluatio.Orders.Repository.{
  apply, run_transition, transition, transition_order, settle, write_outbox,
}
use binno_pta_2026_evaluatio.Billing.RefundSweep.{
  run_sweep, refund_overdue, list_refunds_due, sweep_batch, pass_start, sweep_refunds, mark_overdue,
  marked_refund,
}
use binno_pta_2026_evaluatio.Billing.RefundSweep.Passing.{
  Advance, IsOrderMoved, run_sweep_orders_first,
}

abbrev awaited : Refund
awaited = record {
  id = 9;
  order_id = 5;
  amount = pos 200;
  reason = none;
  status = requested;
  due_at = 1000;
  buyer_confirmed_at = none;
  created_at = 500;
}

abbrev settled : Refund
settled = record awaited { id = 8; order_id = 6; status = refunded }

abbrev before : Db
before = record sample_db {
  orders = (record sample_order { status = Status.refund_requested }) ∷ [];
  refunds = settled ∷ awaited ∷ [];
}

abbrev after : Db
after =
    (run_sweep sample_driver row (some (refund_overdue sample_driver row 2000)) 0 2000 before).db

after_refunds : after.refunds ≡ settled ∷ marked_refund awaited ∷ []
unfolding run_sweep refund_overdue list_refunds_due sweep_refunds mark_overdue apply run_transition
    transition transition_for permits transition_order settle write_outbox reserve_for
after_refunds = refl

run_sweep_orders_first_example :
    Advance
      (IsOrderMoved sample_driver row 2000
        (list_refunds_due 2000 (sweep_batch 0) before)
        (pass_start before))
      (settled ∷ awaited ∷ [])
      after.refunds
    × ((run_sweep sample_driver row
            (some (refund_overdue sample_driver row 2000))
            0
            2000
            before).overdue
          + length
              (run_sweep sample_driver row
                (some (refund_overdue sample_driver row 2000))
                0
                2000
                before).failures
        ≡ length (list_refunds_due 2000 (sweep_batch 0) before))
run_sweep_orders_first_example = run_sweep_orders_first sample_driver row 0 2000 before
