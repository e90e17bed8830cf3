-- ===== src/Orders/Placement/Writing.antt =====
-- What the writes of `Create` (internal/modules/orders/repository.go) leave, if they go through.
use binno_pta_2026_evaluatio.Prelude.{
  ℕ, ◌≡◌, refl, true, some, List, [], ◌∷◌, ◌++◌, String, ◌==◌, count_rows, arith, ok, >>=-eq-ok,
  map_err-eq-ok, or_throw, or_throw-eq-ok, map_err, &&-eq-true, ==_iff, str_eq, ◌||◌,
}
use binno_pta_2026_evaluatio.Prelude.Int.{◌+ℤ◌, eqb_ℤ, leb_ℤ, pos}
use binno_pta_2026_evaluatio.Db.{Db, Driver, Order, OrderItem}
use binno_pta_2026_evaluatio.Tx.{Ending, commit}
use binno_pta_2026_evaluatio.Catalog.LinePort.{Quote}
use binno_pta_2026_evaluatio.Orders.Errors.{internal, map_error}
use binno_pta_2026_evaluatio.Orders.Placement.Rows.{
  IsItemised, create_items_lem, outbox_row, with_notice, record_notice_lem,
}
use binno_pta_2026_evaluatio.Orders.Placement.{
  CreateCommand, Drawn, Placed, create_order, create_items, order_row, created_event,
  confirm_token_row, placed, record_order, fits_order, has_store, has_district,
}

create_order_lem :
    (o : Order) (db : Db) {db' : Db}
    → create_order o db ≡ ok (tt, db')
    → (db' ≡ record db { orders = db.orders ++ (o ∷ []) }) × (fits_order o db ≡ true)
unfolding create_order
create_order_lem o db h = ground arith

-- What the constraints say of the totals and of the key.
fits_order-facts :
    (o : Order) (db : Db)
    → fits_order o db ≡ true
    → (eqb_ℤ o.total_amount (o.goods_amount +ℤ o.delivery_fee) ≡ true)
      × (count_rows (λ r. r.id == o.id) db.orders ≡ 0)
unfolding fits_order
fits_order-facts o db h =
    let (balanced, h1) = &&-eq-true (eqb_ℤ o.total_amount (o.goods_amount +ℤ o.delivery_fee)) _ h in
    let (_, h2) = &&-eq-true (leb_ℤ (pos 0) o.goods_amount) _ h1 in
    let (_, h3) = &&-eq-true (leb_ℤ (pos 0) o.delivery_fee) _ h2 in
    let (_, h4) = &&-eq-true (leb_ℤ (pos 0) o.total_amount) _ h3 in
    let (_, h5) =
      &&-eq-true (str_eq o.buyer_type "individual" || str_eq o.buyer_type "legal_entity") _ h4 in
    let (_, h6) =
      &&-eq-true (str_eq o.fulfillment "delivery" || str_eq o.fulfillment "pickup") _ h5 in
    let (_, h7) = &&-eq-true (has_store o.store_id db.stores) _ h6 in
    let (_, h8) = &&-eq-true (has_district o.district_id db.districts) _ h7 in
    (balanced, (==_iff (count_rows (λ r. r.id == o.id) db.orders) 0).0 h8)

-- The rows that are added: the order, its items, the first event of its log, the token of the SMS
-- link and the event for the outbox.
abbrev pub with_order :
    Driver
    → (String → String)
    → Drawn
    → CreateCommand
    → Quote
    → (buyer store : ℕ) → (token : String) → (items : List OrderItem) → Db
    → Db
with_order d digest drawn cmd quote buyer store token items db = record db {
  orders = db.orders ++ (order_row drawn.order_id buyer store cmd quote ∷ []);
  items = db.items ++ items;
  events = db.events ++ (created_event drawn.order_id cmd.at ∷ []);
  tokens =
      db.tokens
      ++ (confirm_token_row digest drawn.order_id store token quote.confirmation_deadline ∷ []);
  outbox = db.outbox ++ (outbox_row d drawn cmd quote ∷ []);
}

-- The order was new, its total is the sum of its parts, and its rows are added.
pub record Recorded (d : Driver) (digest : String → String) (drawn : Drawn) (cmd : CreateCommand)
    (quote : Quote) (before after : Db) (p : Placed) : Type 0 where
  pub buyer : ℕ
  pub store : ℕ
  pub token : String
  pub items : List OrderItem
  pub buyer_parsed : d.parse_uuid cmd.buyer_id ≡ some buyer
  pub store_parsed : d.parse_uuid cmd.input.store_id ≡ some store
  pub token_drawn : drawn.token ≡ some token
  pub itemised : IsItemised d drawn.order_id quote.lines items
  pub balanced : eqb_ℤ quote.total_amount (quote.goods_amount +ℤ quote.delivery_fee) ≡ true
  pub absent : count_rows (λ r. r.id == drawn.order_id) before.orders ≡ 0
  pub written : after ≡ with_order d digest drawn cmd quote buyer store token items before
  pub answer : p ≡ placed d drawn.order_id token quote

Recorded-of_parts :
    (d : Driver) (digest : String → String) (drawn : Drawn) (cmd : CreateCommand) (quote : Quote)
    (db db1 db2 db3 db4 db' : Db) (p : Placed) (buyer store : ℕ) (token : String)
    (items : List OrderItem)
    → (d.parse_uuid cmd.buyer_id ≡ some buyer) × (db1 ≡ db)
    → (d.parse_uuid cmd.input.store_id ≡ some store) × (db2 ≡ db1)
    → (db3 ≡ record db2 {
      orders = db2.orders ++ (order_row drawn.order_id buyer store cmd quote ∷ []);
    })
      × (fits_order (order_row drawn.order_id buyer store cmd quote) db2 ≡ true)
    → IsItemised d drawn.order_id quote.lines items
    → db4 ≡ record db3 { items = db3.items ++ items }
    → drawn.token ≡ some token
    → db' ≡ with_notice d digest drawn cmd quote store token db4
    → p ≡ placed d drawn.order_id token quote
    → Recorded d digest drawn cmd quote db db' p
Recorded-of_parts d digest drawn cmd quote db db1 db2 db3 db4 db' p buyer store token items
      (buyer_parsed, e1) (store_parsed, e2) (e3, fits) itemised e4 token_drawn e5 answer =
    let (balanced, absent) =
      fits_order-facts (order_row drawn.order_id buyer store cmd quote) db
        (rw (← e1) (rw (← e2) fits)) in
    record {
      buyer = buyer;
      store = store;
      token = token;
      items = items;
      buyer_parsed = buyer_parsed;
      store_parsed = store_parsed;
      token_drawn = token_drawn;
      itemised = itemised;
      balanced = balanced;
      absent = absent;
      written = rw e5 (rw e4 (rw e3 (rw e2 (rw e1 refl))));
      answer = answer;
    }

pub record_order-Recorded :
    (d : Driver) (digest : String → String) (drawn : Drawn) (cmd : CreateCommand) (quote : Quote)
    (db : Db) {e : Ending Placed} {db' : Db}
    → record_order d digest drawn cmd quote db ≡ ok (e, db')
    → (p : Placed) × (e ≡ commit p) × Recorded d digest drawn cmd quote db db' p
unfolding record_order
record_order-Recorded d digest drawn cmd quote db {e = e} {db' = db'} h =
    let id = drawn.order_id in
    let (buyer, db1, m1, h1) = >>=-eq-ok (or_throw (d.parse_uuid cmd.buyer_id) internal) _ db h in
    let (store, db2, m2, h2) =
      >>=-eq-ok (or_throw (d.parse_uuid cmd.input.store_id) internal) _ db1 h1 in
    let (_, db3, m3, h3) =
      >>=-eq-ok (map_err map_error (create_order (order_row id buyer store cmd quote))) _ db2 h2 in
    let (_, db4, m4, h4) = >>=-eq-ok (create_items d id quote.lines) _ db3 h3 in
    let made =
      create_order_lem (order_row id buyer store cmd quote) db2 {db' = db3}
        (map_err-eq-ok map_error (create_order (order_row id buyer store cmd quote)) db2 m3) in
    let (items, itemised, e4) = create_items_lem d id quote.lines db3 {db' = db4} m4 in
    let (token, t, e5, answer) =
      record_notice_lem d digest drawn cmd quote store db4 {e = e} {db' = db'} h4 in
    (
      placed d id token quote,
      answer,
      Recorded-of_parts d digest drawn cmd quote db db1 db2 db3 db4 db' (placed d id token quote)
          buyer store token items (or_throw-eq-ok (d.parse_uuid cmd.buyer_id) internal db m1)
          (or_throw-eq-ok (d.parse_uuid cmd.input.store_id) internal db1 m2) made itemised e4 t e5
          refl,
    )
