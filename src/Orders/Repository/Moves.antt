-- ===== src/Orders/Repository/Moves.antt =====
-- What one transition of internal/modules/orders/repository.go does to the tables.
use binno_pta_2026_evaluatio.Prelude.{
  ℕ, ◌≡◌, some, [], ◌∷◌, ◌++◌, arith, ok, >>=-eq-ok, map_err, find_row, update_rows, Option-cases,
  inl, inr, sym, ok-injective,
}
use binno_pta_2026_evaluatio.Db.{Db, Driver, Order, OrderEvent}
use binno_pta_2026_evaluatio.Catalog.LinePort.Frame.{with_offers}
use binno_pta_2026_evaluatio.Orders.Status.{Status, Trigger, Transition}
use binno_pta_2026_evaluatio.Orders.Repository.{
  TransitionCommand, event_payload, settle, adjust_stock, publish, transition, is_order_in,
  moved_order, transition_order, move_error, append_order_event, write_outbox,
}
use binno_pta_2026_evaluatio.Orders.Repository.Frame.{
  SettleFrame, settled_orders, settle-SettleFrame, adjust_stock-frame,
}

-- The audit row of a transition.
abbrev pub event_of : ℕ → Status → Transition → TransitionCommand → OrderEvent
event_of id from t cmd = record {
  order_id = id;
  from_status = some from;
  to_status = t.to;
  actor = t.actor;
  source = t.source;
  payload = event_payload cmd;
  created_at = cmd.at;
}

-- The tables after a transition of `order`, whose row was `row`.
pub record Moved (order : Order) (trigger : Trigger) (t : Transition) (cmd : TransitionCommand)
    (db : Db) (updated : Order) (db' : Db) : Type 0 where
  pub row : Order
  pub found : find_row (is_order_in order.id order.status) db.orders ≡ some row
  pub updated_row : updated ≡ moved_order t.to cmd.at row
  pub orders :
      db'.orders
      ≡ settled_orders trigger cmd.at row.id
          (update_rows (is_order_in order.id order.status) (moved_order t.to cmd.at) db.orders)
  pub events : db'.events ≡ db.events ++ (event_of order.id order.status t cmd ∷ [])
  pub items : db'.items ≡ db.items
  pub tokens : db'.tokens ≡ db.tokens
  pub stores : db'.stores ≡ db.stores
  pub receipts : db'.receipts ≡ db.receipts

publish-frame :
    (d : Driver) (order : Order) (t : Transition) (cmd : TransitionCommand) (db : Db) {db' : Db}
    → publish d order t cmd db ≡ ok (tt, db')
    → db' ≡ record db { outbox = db'.outbox }
unfolding publish write_outbox
publish-frame d order t cmd db h = ground arith

transition_order_lem :
    (to : Status) (at id : ℕ) (from : Status) (db : Db) {u : Order} {db' : Db}
    → map_err move_error (transition_order to at id from) db ≡ ok (u, db')
    → (row : Order) × (find_row (is_order_in id from) db.orders ≡ some row)
      × (u ≡ moved_order to at row)
      × (db'
          ≡ record db { orders = update_rows (is_order_in id from) (moved_order to at) db.orders })
unfolding transition_order
transition_order_lem to at id from db h =
    elim (Option-cases (find_row (is_order_in id from) db.orders)) [
      | inl missing ↦ absurd (ground (arith, missing))
      | inr (row, found) ↦ (row, found, ground (arith, found), ground (arith, found))
    ]

Moved-of_parts :
    (order : Order) (trigger : Trigger) (t : Transition) (cmd : TransitionCommand)
    (db db1 db3 db4 db5 db' : Db) (u updated row : Order)
    → find_row (is_order_in order.id order.status) db.orders ≡ some row
    → u ≡ moved_order t.to cmd.at row
    → db1 ≡ record db {
      orders = update_rows (is_order_in order.id order.status) (moved_order t.to cmd.at) db.orders;
    }
    → db3 ≡ with_offers (append_order_event (event_of order.id order.status t cmd) db1) db3.offers
    → SettleFrame u.id trigger cmd.at db3 db4
    → db5 ≡ record db4 { outbox = db5.outbox }
    → updated ≡ u
    → db' ≡ db5
    → Moved order trigger t cmd db updated db'
Moved-of_parts order trigger t cmd db db1 db3 db4 db5 db' u updated row found same written stock
      frame published result final =
    record {
      row = row;
      found = found;
      updated_row = cc;
      orders = cc (frame.orders);
      events = cc (frame.events);
      items = cc (frame.items);
      tokens = cc (frame.tokens);
      stores = cc (frame.stores);
      receipts = cc (frame.receipts);
    }

-- A successful transition found the order in its status, moved it, and wrote the audit row.
pub transition-Moved :
    (d : Driver) (order : Order) (trigger : Trigger) (t : Transition) (cmd : TransitionCommand)
    (db : Db) {updated : Order} {db' : Db}
    → transition d order trigger t cmd db ≡ ok (updated, db')
    → Moved order trigger t cmd db updated db'
unfolding transition
transition-Moved d order trigger t cmd db {updated = updated} {db' = db'} h =
    let (u, db1, moved, h1) =
      >>=-eq-ok (map_err move_error (transition_order t.to cmd.at order.id order.status)) _ db h in
    let (row, found, same, written) =
      transition_order_lem t.to cmd.at order.id order.status db {u = u} {db' = db1} moved in
    let db2 : Db = append_order_event (event_of order.id order.status t cmd) db1 in
    let (_, db3, stock, h3) = >>=-eq-ok (adjust_stock d order t) _ db2 h1 in
    let (_, db4, settled, h4) = >>=-eq-ok (settle d u trigger cmd) _ db3 h3 in
    let (_, db5, published, h5) = >>=-eq-ok (publish d order t cmd) _ db4 h4 in
    let (result, final) = ok-injective h5 in
    Moved-of_parts order trigger t cmd db db1 db3 db4 db5 db' u updated row found same written
      (adjust_stock-frame d order t db2 {db' = db3} stock)
      (settle-SettleFrame d u trigger cmd db3 {db' = db4} settled)
      (publish-frame d order t cmd db4 {db' = db5} published) (sym result) (sym final)
