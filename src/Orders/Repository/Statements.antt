-- ===== src/Orders/Repository/Statements.antt =====
-- The statements of the orders store: internal/modules/orders/store/statemachine.sql.go and
-- queries.sql.go, and the writer of internal/platform/messaging/outbox/outbox.go.
use binno_pta_2026_evaluatio.Prelude.{
  ℕ, Bool, true, false, ◌&&◌, Option, none, some, List, [], ◌∷◌, ◌++◌, String, str_eq, ltb, ◌==◌,
  if◌then◌else◌, modify, or_throw, ◌>>=◌, find_row, update_rows, ok, err,
}
use binno_pta_2026_evaluatio.Db.{Db, Driver, Order, OrderEvent, ConfirmToken, Payload}
use binno_pta_2026_evaluatio.Tx.{Tx}
use binno_pta_2026_evaluatio.Orders.Status.{Status, closed, status_eq}
use binno_pta_2026_evaluatio.Orders.Errors.{
  Error, conflict, gone, internal, QueryError, no_rows, constraint_violation, other_failure,
}

abbrev pub has_id : ℕ → Order → Bool
has_id id o = o.id == id

-- `GetOrder` and `GetOrderForUpdate`.
abbrev pub get_order : ℕ → Db → Option Order
get_order id db = find_row (has_id id) db.orders

abbrev pub is_order_in : ℕ → Status → Order → Bool
is_order_in id from o = (o.id == id) && status_eq o.status from

-- The row that `TransitionOrder` writes.
abbrev pub moved_order : Status → ℕ → Order → Order
moved_order to at o = record o {
  status = to;
  closed_at = if status_eq to closed then some at else o.closed_at;
}

moved_row : Status → ℕ → ℕ → Status → Option Order → Tx QueryError Order
moved_row to at id from none db = err no_rows
moved_row to at id from (some o) db = ok (
    (
      moved_order to at o,
      record db { orders = update_rows (is_order_in id from) (moved_order to at) db.orders },
    ))

-- `TransitionOrder`: a compare-and-set on the status.
unfoldable pub transition_order : Status → ℕ → ℕ → Status → Tx QueryError Order
unfolding moved_row
transition_order to at id from db =
    moved_row to at id from (find_row (is_order_in id from) db.orders) db

-- The translation of its error: no row is a conflict.
abbrev pub move_error : QueryError → Error
move_error no_rows = conflict
move_error constraint_violation = conflict
move_error other_failure = internal

-- `AppendOrderEvent`.
abbrev pub append_order_event : OrderEvent → Db → Db
append_order_event e db = record db { events = db.events ++ (e ∷ []) }

-- `SetOrderPaymentDue`.
abbrev pub set_due : ℕ → ℕ → List Order → List Order
set_due due id = update_rows (has_id id) (λ o. record o { payment_due_at = some due })

abbrev pub set_order_payment_due : ℕ → ℕ → Db → Db
set_order_payment_due due id db = record db { orders = set_due due id db.orders }

abbrev is_unused : Option ℕ → Bool
is_unused none = true
is_unused (some _) = false

abbrev pub is_live_token : ℕ → String → ConfirmToken → Bool
is_live_token at hash t = str_eq t.token_hash hash && (is_unused t.used_at && ltb at t.expires_at)

used_row : ℕ → String → Option ConfirmToken → Tx QueryError ConfirmToken
used_row at hash none db = err no_rows
used_row at hash (some t) db = ok (
    (
      record t { used_at = some at },
      record db {
        tokens =
            update_rows (is_live_token at hash) (λ t. record t { used_at = some at }) db.tokens;
      },
    ))

-- `ConsumeConfirmToken`.
unfoldable pub consume_confirm_token : ℕ → String → Tx QueryError ConfirmToken
unfolding used_row
consume_confirm_token at hash db = used_row at hash (find_row (is_live_token at hash) db.tokens) db

abbrev pub token_error : QueryError → Error
token_error no_rows = gone
token_error constraint_violation = conflict
token_error other_failure = internal

-- `Writer.Write`: every name of the taxonomy is registered, so that only the aggregate's id can be
-- refused.
unfoldable pub write_outbox : Driver → String → Payload → Tx Error (Unit {0})
write_outbox d aggregate_id payload = do
  _ ← or_throw (d.parse_uuid aggregate_id) internal
  modify (λ db. record db {
    outbox = db.outbox ++ ((record { aggregate_id = aggregate_id; payload = payload }) ∷ []);
  })
