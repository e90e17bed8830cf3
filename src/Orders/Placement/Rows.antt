-- ===== src/Orders/Placement/Rows.antt =====
-- What the writes of `Create` (internal/modules/orders/repository.go) leave but that of the order.
use mathlib.Core.List.{append-nil, append_assoc}
use binno_pta_2026_evaluatio.Prelude.{
  ℕ, ◌≡◌, refl, sym, ◌∙◌, ap, some, List, [], ◌∷◌, ◌++◌, String, length, arith, ok, >>=-eq-ok,
  map_err-eq-ok, or_throw, or_throw-eq-ok, ok-injective, map_err,
}
use binno_pta_2026_evaluatio.Db.{
  Db, Driver, OrderItem, ConfirmToken, OutboxRow, Payload, order_created,
}
use binno_pta_2026_evaluatio.Tx.{Ending, commit}
use binno_pta_2026_evaluatio.Catalog.LinePort.{QuotedLine, Quote}
use binno_pta_2026_evaluatio.Orders.Errors.{invalid, internal, map_error}
use binno_pta_2026_evaluatio.Orders.Repository.{append_order_event, write_outbox}
use binno_pta_2026_evaluatio.Orders.Placement.{
  CreateCommand, Drawn, Placed, create_order_item, create_items, create_confirm_token,
  created_event, confirm_token_row, placed, record_notice,
}

-- The items that stand for the quoted lines.
pub data IsItemised (d : Driver) (id : ℕ) : List QuotedLine → List OrderItem → Type 0 where
  none_left : IsItemised d id [] []
  one_more :
      {line : QuotedLine} {lines : List QuotedLine} {i : OrderItem} {items : List OrderItem}
      → d.parse_numeric line.qty ≡ some i.qty
      → d.parse_uuid line.product_id ≡ some i.product_id
      → i.order_id ≡ id
      → i.unit_price ≡ line.unit_price
      → i.line_amount ≡ line.line_amount
      → i.commission_bps ≡ line.commission_bps
      → IsItemised d id lines items
      → IsItemised d id (line ∷ lines) (i ∷ items)

create_order_item_lem :
    (i : OrderItem) (db : Db) {db' : Db}
    → create_order_item i db ≡ ok (tt, db')
    → db' ≡ record db { items = db.items ++ (i ∷ []) }
unfolding create_order_item
create_order_item_lem i db h = ground arith

create_confirm_token_lem :
    (t : ConfirmToken) (db : Db) {db' : Db}
    → create_confirm_token t db ≡ ok (tt, db')
    → db' ≡ record db { tokens = db.tokens ++ (t ∷ []) }
unfolding create_confirm_token
create_confirm_token_lem t db h = ground arith

write_outbox_lem :
    (d : Driver) (aggregate : String) (p : Payload) (db : Db) {db' : Db}
    → write_outbox d aggregate p db ≡ ok (tt, db')
    → db' ≡ record db {
      outbox = db.outbox ++ ((record { aggregate_id = aggregate; payload = p }) ∷ []);
    }
unfolding write_outbox
write_outbox_lem d aggregate p db h = ground arith

items-join :
    (db db1 db2 db3 db' : Db) (i : OrderItem) (items : List OrderItem)
    → db1 ≡ db
    → db2 ≡ db1
    → db3 ≡ record db2 { items = db2.items ++ (i ∷ []) }
    → db' ≡ record db3 { items = db3.items ++ items }
    → db' ≡ record db { items = db.items ++ (i ∷ items) }
items-join db db1 db2 db3 db' i items p q r s = rw s (
    rw r (
      rw q (
        rw p (
          ap (λ (l : List OrderItem). record db { items = l })
            (append_assoc db.items (i ∷ []) items)))))

pub create_items_lem :
    (d : Driver) (id : ℕ) (lines : List QuotedLine) (db : Db) {db' : Db}
    → create_items d id lines db ≡ ok (tt, db')
    → (items : List OrderItem) × IsItemised d id lines items
      × (db' ≡ record db { items = db.items ++ items })
unfolding create_items
create_items_lem d id [] db h =
    let (_, same) = ok-injective h in
    ([], none_left, sym same ∙ ap (λ l. record db { items = l }) (sym (append-nil db.items)))
create_items_lem d id (line ∷ lines) db {db' = db'} h =
    let (q, db1, counted, h1) = >>=-eq-ok (or_throw (d.parse_numeric line.qty) invalid) _ db h in
    let (product, db2, known, h2) =
      >>=-eq-ok (or_throw (d.parse_uuid line.product_id) internal) _ db1 h1 in
    let (_, db3, inserted, rest) = >>=-eq-ok (map_err map_error (create_order_item _)) _ db2 h2 in
    let (q_is, same1) = or_throw-eq-ok (d.parse_numeric line.qty) invalid db counted in
    let (product_is, same2) = or_throw-eq-ok (d.parse_uuid line.product_id) internal db1 known in
    let written =
      create_order_item_lem _ db2 {db' = db3}
        (map_err-eq-ok map_error (create_order_item _) db2 inserted) in
    let (items, itemised, final) = create_items_lem d id lines db3 {db' = db'} rest in
    (
      _ ∷ items,
      one_more q_is product_is refl refl refl refl itemised,
      items-join db db1 db2 db3 db' _ items same1 same2 written final,
    )

-- The event for the outbox.
abbrev pub outbox_row : Driver → Drawn → CreateCommand → Quote → OutboxRow
outbox_row d drawn cmd quote = record {
  aggregate_id = d.uuid_text drawn.order_id;
  payload =
      order_created cmd.input.store_id cmd.buyer_id quote.goods_amount quote.delivery_fee
        quote.total_amount (length quote.lines) cmd.input.urgent quote.confirmation_deadline;
}

-- The rows of the log, the token and the outbox.
abbrev pub with_notice :
    Driver → (String → String) → Drawn → CreateCommand → Quote → ℕ → String → Db → Db
with_notice d digest drawn cmd quote store token db = record db {
  events = db.events ++ (created_event drawn.order_id cmd.at ∷ []);
  tokens =
      db.tokens
      ++ (confirm_token_row digest drawn.order_id store token quote.confirmation_deadline ∷ []);
  outbox = db.outbox ++ (outbox_row d drawn cmd quote ∷ []);
}

notice-written :
    (d : Driver) (digest : String → String) (drawn : Drawn) (cmd : CreateCommand) (quote : Quote)
    (store : ℕ) (token : String) (db db1 db2 db3 : Db)
    → db1 ≡ append_order_event (created_event drawn.order_id cmd.at) db
    → db2 ≡ record db1 {
      tokens =
          db1.tokens
          ++ (confirm_token_row digest drawn.order_id store token quote.confirmation_deadline ∷ []);
    }
    → db3 ≡ record db2 { outbox = db2.outbox ++ (outbox_row d drawn cmd quote ∷ []) }
    → db3 ≡ with_notice d digest drawn cmd quote store token db
notice-written d digest drawn cmd quote store token db db1 db2 db3 p q r = rw r (rw q (rw p refl))

pub record_notice_lem :
    (d : Driver) (digest : String → String) (drawn : Drawn) (cmd : CreateCommand) (quote : Quote)
    (store : ℕ) (db : Db) {e : Ending Placed} {db' : Db}
    → record_notice d digest drawn cmd quote store db ≡ ok (e, db')
    → (token : String) × (drawn.token ≡ some token)
      × (db' ≡ with_notice d digest drawn cmd quote store token db)
      × (e ≡ commit (placed d drawn.order_id token quote))
unfolding record_notice
record_notice_lem d digest drawn cmd quote store db {e = e} {db' = db'} h =
    let logged = append_order_event (created_event drawn.order_id cmd.at) db in
    let (token, db1, m1, h1) = >>=-eq-ok (or_throw drawn.token internal) _ logged h in
    let (_, db2, m2, h2) = >>=-eq-ok (map_err map_error (create_confirm_token _)) _ db1 h1 in
    let (_, db3, m3, h3) = >>=-eq-ok (write_outbox d (d.uuid_text drawn.order_id) _) _ db2 h2 in
    let (t, e1) = or_throw-eq-ok drawn.token internal logged m1 in
    let e2 =
      create_confirm_token_lem _ db1 {db' = db2}
        (map_err-eq-ok map_error (create_confirm_token _) db1 m2) in
    let e3 = write_outbox_lem d (d.uuid_text drawn.order_id) _ db2 {db' = db3} m3 in
    let (answer, final) = ok-injective h3 in
    (
      token,
      t,
      sym final ∙ notice-written d digest drawn cmd quote store token db db1 db2 db3 e1 e2 e3,
      sym answer,
    )
