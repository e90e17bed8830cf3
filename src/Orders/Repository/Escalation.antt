-- ===== src/Orders/Repository/Escalation.antt =====
-- `RecordEscalation` of internal/modules/orders/repository.go: one queue item for each key.
use text.Mathlib.TextPositions.{eq_refl}
use binno_pta_2026_evaluatio.Prelude.{
  Option-cases, inl, inr, ℕ, ◌≡◌, true, false, none, some, [], ◌∷◌, ◌++◌, String, arith, ok,
  find_row,
}
use binno_pta_2026_evaluatio.Db.{Db, Driver}
use binno_pta_2026_evaluatio.Tx.Dedup.{is_bad_key, has_key, add_receipt, reserve_for_lem}
use binno_pta_2026_evaluatio.Orders.Repository.{
  DueOrder, record_escalation, escalate_body, escalate_claimed, escalation, write_outbox,
}

-- The database after an escalation under a free key.
abbrev pub escalated : String → DueOrder → ℕ → ℕ → Db → Db
escalated key order id at db = record (add_receipt key id at db) {
  outbox =
      db.outbox ++ ((record { aggregate_id = order.order_id; payload = escalation order }) ∷ []);
}

escalation-first :
    (d : Driver) (key : String) (order : DueOrder) (at id : ℕ) (db : Db)
    → is_bad_key key ≡ false
    → d.parse_uuid order.order_id ≡ some id
    → find_row (has_key key) db.receipts ≡ none
    → record_escalation d key order at db ≡ (ok true, escalated key order id at db)
unfolding record_escalation escalate_body escalate_claimed write_outbox
escalation-first d key order at id db filled parsed free =
    ground (arith, filled, parsed, free, reserve_for_lem key id at db)

escalation-again :
    (d : Driver) (key : String) (order : DueOrder) (first later id : ℕ) (db : Db)
    → is_bad_key key ≡ false
    → d.parse_uuid order.order_id ≡ some id
    → record_escalation d key order later (escalated key order id first db)
      ≡ (ok false, escalated key order id first db)
unfolding record_escalation escalate_body escalate_claimed
escalation-again d key order first later id db filled parsed = ground (
  arith,
  filled,
  parsed,
  eq_refl key,
  reserve_for_lem key id later (escalated key order id first db),
)

-- Under a free key an escalation of a well-formed order opens one item in the operator's queue, and
-- a second one under the same key reports that it opened none and changes no table.
pub record_escalation_once :
    (d : Driver) (key : String) (order : DueOrder) (first later id : ℕ) (db : Db)
    → is_bad_key key ≡ false
    → d.parse_uuid order.order_id ≡ some id
    → find_row (has_key key) db.receipts ≡ none
    → (record_escalation d key order first db ≡ (ok true, escalated key order id first db))
      × (record_escalation d key order later (escalated key order id first db)
          ≡ (ok false, escalated key order id first db))
record_escalation_once d key order first later id db filled parsed free = (
  escalation-first d key order first id db filled parsed free,
  escalation-again d key order first later id db filled parsed,
)

-- An escalation, however it ends, leaves the orders and their log alone.
pub escalation-frame :
    (d : Driver) (key : String) (order : DueOrder) (at : ℕ) (db : Db)
    → ((record_escalation d key order at db).1.orders ≡ db.orders)
      × ((record_escalation d key order at db).1.events ≡ db.events)
unfolding record_escalation escalate_body escalate_claimed write_outbox
escalation-frame d key order at db = elim (Option-cases (d.parse_uuid order.order_id)) [
  | inl malformed ↦ (ground (arith, malformed), ground (arith, malformed))
  | inr (id, parsed) ↦ (
    ground (arith, parsed, reserve_for_lem key id at db),
    ground (arith, parsed, reserve_for_lem key id at db),
  )
]
