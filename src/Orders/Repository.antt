-- ===== src/Orders/Repository.antt =====
-- internal/modules/orders/repository.go: the transactions that move an order, with the statements
-- of store/statemachine.sql.go and store/queries.sql.go that they run.
mod Statements
mod Frame
pub mod Rows
pub mod Moves
pub mod Runs
pub mod Replay
pub mod Once
pub mod Audit
pub mod Tokens
pub mod Escalation
mod Tests
unfoldable pub use Statements.*
use binno_pta_2026_evaluatio.Prelude.{
  ℕ, ◌+◌, ◌*◌, Bool, true, false, not, ◌++◌, Option, none, some, List, [], ◌∷◌, map, String, str_eq,
  ◌==◌, if◌then◌else◌, pure, throw, gets, modify, or_throw, map_err, reject_if, ◌>>=◌, ◌>>◌, Result,
  ok, err, M,
}
use binno_pta_2026_evaluatio.Prelude.Int.{ℤ}
use binno_pta_2026_evaluatio.Db.{
  Db, Driver, Order, OrderItem, Payload, order_status_changed, sla_escalated, hour,
}
use binno_pta_2026_evaluatio.Tx.{Tx, Ending, commit, rollback, run_tx}
use binno_pta_2026_evaluatio.Tx.Dedup.{reserve_for}
use binno_pta_2026_evaluatio.Catalog.LinePort.{
  RequestedLine, release_order_lines, consume_order_lines,
}
use binno_pta_2026_evaluatio.Location.{LocationError, resolve_seller}
use binno_pta_2026_evaluatio.Billing.Settlement
use binno_pta_2026_evaluatio.Orders.Status.{
  Status, Trigger, issue_invoice, submit_receipt, confirm_payment, reject_payment, close_order,
  buyer_cancel, operator_cancel, payment_expire, refund_request, confirm_refund, token_confirm,
  Transition, transition_for, permits,
}
use binno_pta_2026_evaluatio.Orders.Errors.{
  Error, invalid, conflict, not_found, gone, internal, map_error, map_dedup_error, wrap_stock_error,
  map_location_error, map_settlement_error,
}
use binno_pta_2026_evaluatio.Orders.Commission.{order_items, accrue_commission, fail_with}

-- `defaultPaymentWindow` and `defaultRefundWindow`.
abbrev pub payment_window : ℕ
payment_window = 72 * hour

abbrev pub refund_window : ℕ
refund_window = 72 * hour

-- `DueOrder` of sweeper.go: an order past a deadline.
pub record DueOrder : Type 0 where
  pub order_id : String
  pub store_id : String
  pub buyer_id : String
  pub due_at : ℕ

-- `TransitionCommand`.
pub record TransitionCommand : Type 0 where
  pub order_id : String
  pub trigger : Trigger
  pub reason : String
  pub receipt_url : String
  pub pickup_code : String
  pub pickup_signature_url : String
  pub at : ℕ

text_field : String → String → List (String × String)
text_field name value = if str_eq value "" then [] else (name, value) ∷ []

-- `eventPayload`: the fields that are not empty, in the order in which JSON prints a map. No
-- field at all is a null payload.
unfoldable pub event_payload : TransitionCommand → List (String × String)
unfolding text_field
event_payload cmd =
    text_field "pickup_code" cmd.pickup_code
    ++ (text_field "pickup_signature_url" cmd.pickup_signature_url
        ++ (text_field "reason" cmd.reason ++ text_field "receipt_url" cmd.receipt_url))

-- `orderLines`.
abbrev pub order_lines : Driver → List OrderItem → List RequestedLine
order_lines d =
    map (λ i. record { product_id = d.uuid_text i.product_id; qty = d.numeric_text i.qty })

-- `releaseStock`. With no lines the source skips the call, which would do nothing.
release_stock : Driver → Order → Tx Error (Unit {0})
release_stock d order = do
  items ← gets (order_items order.id)
  _ ← map_err wrap_stock_error (
      release_order_lines d
        (record { store_id = d.uuid_text order.store_id; lines = order_lines d items }))
  pure tt

-- `consumeStock`.
consume_stock : Driver → Order → Tx Error (Unit {0})
consume_stock d order = do
  items ← gets (order_items order.id)
  _ ← map_err wrap_stock_error (
      consume_order_lines d
        (record { store_id = d.uuid_text order.store_id; lines = order_lines d items }))
  pure tt

refused : Option LocationError → Option Error
refused none = none
refused (some e) = some (map_location_error e)

-- `issueInvoice`.
issue_order_invoice : Driver → Order → ℕ → Tx Error (Unit {0})
unfolding refused
issue_order_invoice d order at = do
  (seller, refusal) ← gets (λ db. resolve_seller d db.stores (d.uuid_text order.store_id))
  fail_with (refused refusal)
  _ ← map_err map_settlement_error (
      Settlement.issue_invoice d (record {
        order_id = d.uuid_text order.id;
        total_amount = order.total_amount;
        issued_at = at;
        expires_at = at + payment_window;
      }))
  modify (set_order_payment_due (at + payment_window) order.id)

-- `settle`: the billing consequence of a transition.
unfoldable pub settle : Driver → Order → Trigger → TransitionCommand → Tx Error (Unit {0})
unfolding issue_order_invoice
settle d order issue_invoice cmd = issue_order_invoice d order cmd.at
settle d order submit_receipt cmd = map_err map_settlement_error (
    Settlement.record_payment_receipt d (record {
      order_id = d.uuid_text order.id;
      receipt_url = cmd.receipt_url;
      goods_amount = order.goods_amount;
      delivery_fee = order.delivery_fee;
      at = cmd.at;
    }))
settle d order confirm_payment cmd = map_err map_settlement_error (
    Settlement.settle_payment d
      (record { order_id = d.uuid_text order.id; accepted = true; at = cmd.at }))
settle d order reject_payment cmd = map_err map_settlement_error (
    Settlement.settle_payment d
      (record { order_id = d.uuid_text order.id; accepted = false; at = cmd.at }))
settle d order close_order cmd = accrue_commission d order cmd.at
settle d order buyer_cancel cmd =
    map_err map_settlement_error (Settlement.cancel_settlement d (d.uuid_text order.id))
settle d order operator_cancel cmd =
    map_err map_settlement_error (Settlement.cancel_settlement d (d.uuid_text order.id))
settle d order payment_expire cmd =
    map_err map_settlement_error (Settlement.cancel_settlement d (d.uuid_text order.id))
settle d order refund_request cmd = map_err map_settlement_error (
    Settlement.open_refund d (record {
      order_id = d.uuid_text order.id;
      amount = order.total_amount;
      reason = cmd.reason;
      at = cmd.at;
      due_at = cmd.at + refund_window;
    }))
settle d order confirm_refund cmd =
    map_err map_settlement_error (Settlement.complete_refund d (d.uuid_text order.id) cmd.at)
settle d order _ cmd = pure tt

-- The domain event of a transition, if it has one.
unfoldable pub publish : Driver → Order → Transition → TransitionCommand → Tx Error (Unit {0})
publish d order t cmd = elim t.event [
  | none ↦ pure tt
  | some name ↦ write_outbox d (d.uuid_text order.id) (
      order_status_changed name (d.uuid_text order.store_id) (d.uuid_text order.buyer_id)
        order.status t.to t.actor t.source cmd.reason)
]

-- What a transition does to the stock.
unfoldable pub adjust_stock : Driver → Order → Transition → Tx Error (Unit {0})
unfolding release_stock consume_stock
adjust_stock d order t = do
  (if t.releases_stock then release_stock d order else pure tt)
  (if t.consumes_stock then consume_stock d order else pure tt)

-- `transition`.
unfoldable pub transition :
    Driver → Order → Trigger → Transition → TransitionCommand → Tx Error Order
unfolding adjust_stock publish
transition d order trigger t cmd = do
  updated ← map_err move_error (transition_order t.to cmd.at order.id order.status)
  modify (
      append_order_event (record {
        order_id = order.id;
        from_status = some order.status;
        to_status = t.to;
        actor = t.actor;
        source = t.source;
        payload = event_payload cmd;
        created_at = cmd.at;
      }))
  adjust_stock d order t
  settle d updated trigger cmd
  publish d order t cmd
  pure updated

is_declared : Option Trigger → Bool
is_declared none = false
is_declared (some _) = true

-- The follow-on of a transition, with the checks that `runTransition` makes before it.
unfoldable pub follow : Driver → Order → Option Trigger → TransitionCommand → Tx Error (Unit {0})
unfolding is_declared
follow d updated none cmd = pure tt
follow d updated (some next) cmd = do
  t ← or_throw (transition_for next) internal
  reject_if (is_declared t.follow_on) internal
  reject_if (not (permits t updated.status)) conflict
  _ ← transition d updated next t cmd
  pure tt

-- `runTransition`.
unfoldable pub run_transition : Driver → Order → Trigger → TransitionCommand → Tx Error (Unit {0})
unfolding follow
run_transition d order trigger cmd = do
  t ← or_throw (transition_for trigger) internal
  reject_if (not (permits t order.status)) conflict
  updated ← transition d order trigger t cmd
  follow d updated t.follow_on cmd

-- The body of `Apply` once the key is claimed.
apply_claimed : Driver → ℕ → TransitionCommand → Bool → Tx Error (Ending (Unit {0}))
apply_claimed d id cmd true = pure (rollback tt)
apply_claimed d id cmd false = do
  found ← gets (get_order id)
  order ← or_throw found not_found
  run_transition d order cmd.trigger cmd
  pure (commit tt)

apply_body : Driver → String → ℕ → TransitionCommand → Tx Error (Ending (Unit {0}))
unfolding apply_claimed
apply_body d key id cmd = do
  replay ← map_err map_dedup_error (reserve_for key id cmd.at)
  apply_claimed d id cmd replay

-- `Apply`, under the operation key of the request.
unfoldable pub apply : Driver → String → TransitionCommand → Db → Result Error (Unit {0}) × Db
unfolding apply_body
apply d key cmd db = elim (transition_for cmd.trigger) [
  | none ↦ (err internal, db)
  | some _ ↦ elim (d.parse_uuid cmd.order_id) [
    | none ↦ (err invalid, db)
    | some id ↦ run_tx (apply_body d key id cmd) db
  ]
]

-- What an escalation publishes.
abbrev pub escalation : DueOrder → Payload
escalation order =
    sla_escalated order.store_id order.buyer_id "supplier confirmation overdue" order.due_at

escalate_claimed : Driver → DueOrder → Bool → Tx Error (Ending Bool)
escalate_claimed d order true = pure (rollback false)
escalate_claimed d order false = do
  write_outbox d order.order_id (escalation order)
  pure (commit true)

escalate_body : Driver → String → DueOrder → ℕ → ℕ → Tx Error (Ending Bool)
unfolding escalate_claimed
escalate_body d key order at id = do
  replay ← map_err map_dedup_error (reserve_for key id at)
  escalate_claimed d order replay

-- `RecordEscalation`: whether this call opened the queue item.
unfoldable pub record_escalation : Driver → String → DueOrder → ℕ → Db → Result Error Bool × Db
unfolding escalate_body
record_escalation d key order at db = elim (d.parse_uuid order.order_id) [
  | none ↦ (err invalid, db)
  | some id ↦ run_tx (escalate_body d key order at id) db
]

-- The command that `ConfirmToken` runs.
abbrev pub token_command : String → ℕ → TransitionCommand
token_command id at = record {
  order_id = id;
  trigger = token_confirm;
  reason = "";
  receipt_url = "";
  pickup_code = "";
  pickup_signature_url = "";
  at = at;
}

confirm_claimed :
    Driver → (String → String) → (id token : String) → ℕ → Bool → Tx Error (Ending (Unit {0}))
confirm_claimed d digest id token at true = pure (rollback tt)
confirm_claimed d digest id token at false = do
  consumed ← map_err token_error (consume_confirm_token at (digest token))
  reject_if (not (str_eq (d.uuid_text consumed.order_id) id)) conflict
  found ← gets (get_order consumed.order_id)
  order ← or_throw found not_found
  run_transition d order token_confirm (token_command id at)
  pure (commit tt)

confirm_body :
    Driver
    → (String → String)
    → (key id token : String) → (order at : ℕ) → Tx Error (Ending (Unit {0}))
unfolding confirm_claimed
confirm_body d digest key id token order at = do
  replay ← map_err map_dedup_error (reserve_for key order at)
  confirm_claimed d digest id token at replay

-- `ConfirmToken`; `digest` is the printed SHA-256 of a token.
unfoldable pub confirm_token :
    Driver → (String → String) → (key id token : String) → ℕ → Db → Result Error (Unit {0}) × Db
unfolding confirm_body
confirm_token d digest key id token at db = elim (transition_for token_confirm) [
  | none ↦ (err internal, db)
  | some _ ↦ elim (d.parse_uuid id) [
    | none ↦ (err invalid, db)
    | some order ↦ run_tx (confirm_body d digest key id token order at) db
  ]
]
