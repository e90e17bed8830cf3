-- ===== src/EventCatalog.antt =====
-- The event taxonomy of internal/eventcatalog/catalog.go.

-- The reviewed names; the text behind each constant is its constructor with a dot.
pub data EventName : Type 0 where
  order_created order_accepted order_declined order_expired : EventName
  order_awaiting_payment order_paid order_preparing order_ready : EventName
  order_delivered order_closed order_cancelled order_pickup_confirmed : EventName
  order_sla_escalated order_confirmation_chase_requested : EventName
  payment_review_started order_refunded refund_requested refund_became_overdue : EventName
  catalog_requested catalog_request_resolved offer_created offer_updated : EventName
  feedback_created operator_queue_item_resolved : EventName
