-- ===== src/Orders/Status/Tests.antt =====
-- Witnesses for the table of transitions.
use binno_pta_2026_evaluatio.Prelude.{
  ◌≡◌, ◌≢◌, refl, ◌⊎◌, true, false, not, Option, some, none, arith,
}
use binno_pta_2026_evaluatio.Orders.Status.{
  Status, Transition, created, buyer_decision_pending, awaiting_payment, closed, paid,
  cancelled_by_buyer_sla, supplier_confirm, supplier_decline, buyer_cancel, confirm_delivery,
  issue_invoice, transition_for, permits,
}
use binno_pta_2026_evaluatio.Orders.Status.Paths.{
  next_status, IsPassing, IsTerminal, Leads, resting-ends,
}
use binno_pta_2026_evaluatio.Orders.Status.Stock.{
  holds_stock, ends_hold, gives_back, ends_hold-exact, declined-released_twice,
}

abbrev transition_or : Option Transition → Transition → Transition
transition_or none d = d
transition_or (some t) d = t

created-declined : next_status supplier_decline created ≡ some buyer_decision_pending
unfolding next_status transition_for permits
created-declined = refl

delivery-closed : next_status confirm_delivery paid ≡ some closed
unfolding next_status transition_for permits
delivery-closed = refl

cancel-cancelled : next_status buyer_cancel buyer_decision_pending ≡ some cancelled_by_buyer_sla
unfolding next_status transition_for permits
cancel-cancelled = refl

confirm-row :
    (t : Transition) × (transition_for supplier_confirm ≡ some t)
    × (t.follow_on ≡ some issue_invoice)
unfolding transition_for
confirm-row = (_, refl, refl)

not-IsPassing : ¬ IsPassing awaiting_payment
not-IsPassing p = ground arith

resting-ends_example : (u : Status) × IsTerminal u × Leads awaiting_payment u
resting-ends_example = resting-ends awaiting_payment not-IsPassing

not_pending : paid ≢ buyer_decision_pending
not_pending = ground arith

ends_hold-exact_example :
    (holds_stock paid ≡ true) × (ends_hold confirm_delivery ≡ not (holds_stock closed))
    ⊎ (holds_stock paid ≡ false)
      × (ends_hold confirm_delivery ≡ false)
      × (holds_stock closed ≡ false)
ends_hold-exact_example = ends_hold-exact confirm_delivery paid not_pending delivery-closed

declined-released_twice_example :
    (gives_back supplier_decline ≡ true) × (gives_back buyer_cancel ≡ true)
declined-released_twice_example =
    declined-released_twice supplier_decline buyer_cancel created cancelled_by_buyer_sla
      created-declined cancel-cancelled
