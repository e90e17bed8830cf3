-- ===== src/Orders/Status.antt =====
-- internal/modules/orders/status.go: the order lifecycle as a table of transitions. The source's
-- string constants are constructors; `Trigger.other` is any text that is no trigger.
pub mod Paths
pub mod Stock
mod Tests
use binno_pta_2026_evaluatio.Prelude.{
  ℕ, Bool, true, false, Option, none, some, List, [], ◌∷◌, String, ◌==◌, ◌||◌,
}
use binno_pta_2026_evaluatio.EventCatalog.{EventName}

pub data Status : Type 0 where
  created declined expired buyer_decision_pending accepted awaiting_payment paid : Status
  payment_review preparing ready delivered picked_up_by_buyer closed : Status
  cancelled_by_buyer_sla cancelled_by_operator : Status
  refund_requested refunded refund_overdue : Status

-- `AllStatuses`.
abbrev pub all_statuses : List Status
all_statuses =
    created ∷ declined ∷ expired ∷ buyer_decision_pending ∷ accepted ∷ awaiting_payment ∷ paid
    ∷ payment_review ∷ preparing ∷ ready ∷ delivered ∷ picked_up_by_buyer ∷ closed
    ∷ cancelled_by_buyer_sla ∷ cancelled_by_operator ∷ refund_requested ∷ refunded ∷ refund_overdue
    ∷ []

-- The place of a status in `all_statuses`: two statuses are the same text if it is the same.
abbrev pub rank : Status → ℕ
rank created = 0
rank declined = 1
rank expired = 2
rank buyer_decision_pending = 3
rank accepted = 4
rank awaiting_payment = 5
rank paid = 6
rank payment_review = 7
rank preparing = 8
rank ready = 9
rank delivered = 10
rank picked_up_by_buyer = 11
rank closed = 12
rank cancelled_by_buyer_sla = 13
rank cancelled_by_operator = 14
rank refund_requested = 15
rank refunded = 16
rank refund_overdue = 17

unfoldable pub status_eq : Status → Status → Bool
status_eq a b = rank a == rank b

pub data Actor : Type 0 where
  buyer seller operator system : Actor

pub data Source : Type 0 where
  app sms_token phone_call webhook cron : Source

pub data Trigger : Type 0 where
  supplier_confirm token_confirm supplier_decline buyer_cancel operator_cancel expire : Trigger
  issue_invoice submit_receipt confirm_payment reject_payment : Trigger
  start_preparing mark_ready confirm_pickup confirm_delivery close_order : Trigger
  payment_expire refund_request refund_overdue confirm_refund : Trigger
  other : String → Trigger

-- One edge of the state machine. An empty `Event` or `Then` of the source is `none`.
pub record Transition : Type 0 where
  pub from : List Status
  pub to : Status
  pub actor : Actor
  pub source : Source
  pub event : Option EventName
  pub follow_on : Option Trigger
  pub releases_stock : Bool
  pub consumes_stock : Bool

-- The fields that most rows of the table leave at their zero value.
abbrev edge : List Status → Status → Actor → Source → EventName → Transition
edge from to actor source event = record {
  from = from;
  to = to;
  actor = actor;
  source = source;
  event = some event;
  follow_on = none;
  releases_stock = false;
  consumes_stock = false;
}

-- `TransitionFor` over `transitionTable`.
unfoldable pub transition_for : Trigger → Option Transition
transition_for supplier_confirm =
    some (record (edge (created ∷ []) accepted seller app EventName.order_accepted) {
      follow_on = some issue_invoice;
    })
transition_for token_confirm =
    some (record (edge (created ∷ []) accepted seller sms_token EventName.order_accepted) {
      follow_on = some issue_invoice;
    })
transition_for supplier_decline =
    some (record (edge (created ∷ []) buyer_decision_pending seller app EventName.order_declined) {
      releases_stock = true;
    })
transition_for buyer_cancel =
    some
      (record (edge (created ∷ buyer_decision_pending ∷ awaiting_payment ∷ [])
        cancelled_by_buyer_sla buyer app EventName.order_cancelled) { releases_stock = true })
transition_for operator_cancel =
    some
      (record (edge (created ∷ buyer_decision_pending ∷ awaiting_payment ∷ payment_review ∷ [])
        cancelled_by_operator operator app EventName.order_cancelled) { releases_stock = true })
transition_for issue_invoice =
    some (edge (accepted ∷ []) awaiting_payment system app EventName.order_awaiting_payment)
transition_for submit_receipt =
    some (edge (awaiting_payment ∷ []) payment_review buyer app EventName.payment_review_started)
transition_for confirm_payment =
    some (edge (payment_review ∷ []) paid seller app EventName.order_paid)
transition_for reject_payment =
    some (edge (payment_review ∷ []) awaiting_payment seller app EventName.order_awaiting_payment)
transition_for start_preparing =
    some (edge (paid ∷ []) preparing seller app EventName.order_preparing)
transition_for mark_ready = some (edge (preparing ∷ []) ready seller app EventName.order_ready)
transition_for confirm_pickup =
    some
      (record (edge (ready ∷ paid ∷ []) picked_up_by_buyer buyer app
        EventName.order_pickup_confirmed) { follow_on = some close_order })
transition_for confirm_delivery =
    some (record (edge (ready ∷ paid ∷ []) delivered seller app EventName.order_delivered) {
      follow_on = some close_order;
    })
transition_for close_order =
    some
      (record (edge (picked_up_by_buyer ∷ delivered ∷ []) closed system app
        EventName.order_closed) { consumes_stock = true })
transition_for expire =
    some (record (edge (created ∷ []) expired system cron EventName.order_expired) {
      releases_stock = true;
    })
transition_for payment_expire =
    some (record (edge (awaiting_payment ∷ []) expired system cron EventName.order_expired) {
      releases_stock = true;
    })
transition_for refund_request =
    some
      (record (edge (paid ∷ preparing ∷ ready ∷ []) Status.refund_requested operator app
        EventName.refund_requested) { releases_stock = true })
transition_for Trigger.refund_overdue =
    some
      (record (edge (Status.refund_requested ∷ []) Status.refund_overdue system cron
        EventName.order_refunded) { event = none })
transition_for confirm_refund = some (
    edge (Status.refund_requested ∷ Status.refund_overdue ∷ []) refunded buyer app
      EventName.order_refunded)
transition_for (other name) = none

abbrev contains : List Status → Status → Bool
contains [] s = false
contains (x ∷ xs) s = status_eq x s || contains xs s

-- `Permits`.
unfoldable pub permits : Transition → Status → Bool
unfolding status_eq
permits t s = contains t.from s
