-- ===== src/Orders/Placement.antt =====
-- Placing an order: `CreateOrder` of internal/modules/orders/service.go, `Create` of
-- repository.go, and the statements of store/queries.sql.go that they run. The ids and the token
-- that the code draws at random are arguments.
pub mod Rows
pub mod Writing
pub mod Placing
pub mod Once
pub mod Auditing
pub mod Items
pub mod Validity
mod Tests
use binno_pta_2026_evaluatio.Prelude.{
  ℕ, suc, Bool, true, false, not, ◌&&◌, ◌||◌, Option, none, some, List, [], ◌∷◌, ◌++◌, map, String,
  str_eq, ltb, leb, ◌==◌, if◌then◌else◌, length, count_rows, pure, throw, gets, modify, or_throw,
  map_err, reject_if, ◌>>=◌, ◌>>◌, Result, ok, err, M,
}
use binno_pta_2026_evaluatio.Prelude.Int.{ℤ, pos, ◌+ℤ◌, ltb_ℤ, leb_ℤ, eqb_ℤ, is_int64}
use binno_pta_2026_evaluatio.Db.{
  Db, Driver, Point, Order, OrderItem, OrderEvent, ConfirmToken, StoreState, order_created,
}
use binno_pta_2026_evaluatio.Tx.{Tx, Ending, commit, rollback, run_tx}
use binno_pta_2026_evaluatio.Tx.Dedup.{reserve_new}
use binno_pta_2026_evaluatio.Money.{is_digit, is_positive_decimal}
use binno_pta_2026_evaluatio.Authz.{Principal, AuthError, Role, require_role}
use binno_pta_2026_evaluatio.Catalog.LinePort.{
  RequestedLine, ReserveRequest, QuotedLine, Quote, reserve_order_lines, codes,
}
use binno_pta_2026_evaluatio.Location.{LocationError, resolve_seller}
use binno_pta_2026_evaluatio.Orders.Status.{Status, Actor, Source, created}
use binno_pta_2026_evaluatio.Orders.Errors.{
  Error, invalid, not_found, internal, QueryError, constraint_violation, other_failure, map_error,
  raw_dedup_error, map_catalog_error, map_location_error,
}
use binno_pta_2026_evaluatio.Orders.Commission.{fail_with}
use binno_pta_2026_evaluatio.Orders.Repository.{get_order, append_order_event, write_outbox}
use binno_pta_2026_evaluatio.Orders.Service.{
  Texts, Request, ServiceError, denied, failed, byte_length,
}

pub record ItemInput : Type 0 where
  pub product_id : String
  pub qty : String

pub record CreateInput : Type 0 where
  pub store_id : String
  pub buyer_type : String
  pub buyer_tin : String
  pub fulfillment : String
  pub dropoff_address : String
  pub district_id : ℤ
  pub items : List ItemInput
  pub dropoff : Option Point
  pub urgent : Bool

pub record CreateCommand : Type 0 where
  pub input : CreateInput
  pub buyer_id : String
  pub at : ℕ

pub record Created : Type 0 where
  pub order_id : String
  pub status : Status
  pub goods_amount : ℤ
  pub delivery_fee : ℤ
  pub total_amount : ℤ
  pub supplier_confirmation_deadline : ℕ

-- `ConfirmationNotice`, without the store's phone.
pub record ConfirmationNotice : Type 0 where
  pub order_id : String
  pub token : String
  pub expires_at : ℕ

-- What a call answers, and the notice that it sends once it has committed.
pub record Placed : Type 0 where
  pub created : Created
  pub notice : Option ConfirmationNotice

-- What `newID` and `newConfirmToken` draw; the randomness for the token may fail.
pub record Drawn : Type 0 where
  pub order_id : ℕ
  pub token : Option String

abbrev pub max_order_items : ℕ
max_order_items = 100

abbrev pub legal_entity_tin_len : ℕ
legal_entity_tin_len = 9

-- `isDigits`.
abbrev pub is_digits : List ℕ → Bool
is_digits [] = true
is_digits (c ∷ cs) = is_digit c && is_digits cs

abbrev is_empty : List ItemInput → Bool
is_empty [] = true
is_empty (_ ∷ _) = false

-- `seen[item.ProductID]`.
abbrev pub is_seen : String → List String → Bool
is_seen id [] = false
is_seen id (s ∷ ss) = str_eq s id || is_seen id ss

-- The loop of `validateCreate`, on the ids that it has seen.
unfoldable pub valid_items : Texts → List String → List ItemInput → Bool
valid_items t seen [] = true
valid_items t seen (item ∷ items) =
    not (
      not (t.is_uuid item.product_id)
      || (not (is_positive_decimal (codes item.qty)) || is_seen item.product_id seen))
    && valid_items t (item.product_id ∷ seen) items

valid_dropoff : Texts → (Point → Bool) → CreateInput → Option Point → Bool
valid_dropoff t valid_point i none = false
valid_dropoff t valid_point i (some p) =
    valid_point p && not (str_eq (t.trim_space i.dropoff_address) "")

-- `validateCreate`; `valid_point` is `Point.Valid` of internal/platform/geo, a test on floats.
unfoldable pub validate_create : Texts → (Point → Bool) → CreateInput → Bool
unfolding valid_dropoff
validate_create t valid_point i =
    if not (t.is_uuid i.store_id)
      || (leb_ℤ i.district_id (pos 0)
          || ((is_empty i.items || ltb max_order_items (length i.items))
              || (not (str_eq i.buyer_type "individual" || str_eq i.buyer_type "legal_entity")
                  || not (str_eq i.fulfillment "delivery" || str_eq i.fulfillment "pickup"))))
    then false
    else if str_eq i.fulfillment "delivery" && not (valid_dropoff t valid_point i i.dropoff)
    then false
    else if str_eq i.buyer_type "legal_entity"
        && (not (byte_length i.buyer_tin == legal_entity_tin_len)
            || not (is_digits (codes i.buyer_tin)))
    then false
    else valid_items t [] i.items

-- `requestedLines`.
abbrev pub requested_lines : List ItemInput → List RequestedLine
requested_lines = map (λ i. record { product_id = i.product_id; qty = i.qty })

-- `optional`.
abbrev pub optional : String → Option String
optional value = if str_eq value "" then none else some value

-- The constraints of orders.orders. The check of the total adds two BIGINTs, and PostgreSQL fails
-- where the sum is none; it comes after the check of the TIN and before the others.
is_tin : Option String → Bool
is_tin none = false
is_tin (some tin) = (length (codes tin) == 9) && is_digits (codes tin)

has_store : ℕ → List StoreState → Bool
has_store id [] = false
has_store id (s ∷ ss) = (s.store_id == id) || has_store id ss

has_district : Option ℤ → List ℤ → Bool
has_district none ds = true
has_district (some id) [] = false
has_district (some id) (d ∷ ds) = eqb_ℤ d id || has_district (some id) ds

fits_order : Order → Db → Bool
unfolding has_store has_district
fits_order o db =
    eqb_ℤ o.total_amount (o.goods_amount +ℤ o.delivery_fee)
    && (leb_ℤ (pos 0) o.goods_amount
        && (leb_ℤ (pos 0) o.delivery_fee
            && (leb_ℤ (pos 0) o.total_amount
                && ((str_eq o.buyer_type "individual" || str_eq o.buyer_type "legal_entity")
                    && ((str_eq o.fulfillment "delivery" || str_eq o.fulfillment "pickup")
                        && (has_store o.store_id db.stores
                            && (has_district o.district_id db.districts
                                && (count_rows (λ r. r.id == o.id) db.orders == 0))))))))

-- `CreateOrder` of the store.
unfoldable pub create_order : Order → Tx QueryError (Unit {0})
unfolding is_tin fits_order
create_order o = do
  reject_if (str_eq o.buyer_type "legal_entity" && not (is_tin o.buyer_tin)) constraint_violation
  reject_if (not (is_int64 (o.goods_amount +ℤ o.delivery_fee))) other_failure
  fits ← gets (fits_order o)
  reject_if (not fits) constraint_violation
  modify (λ db. record db { orders = db.orders ++ (o ∷ []) })

-- The constraints of orders.order_items, whose order was inserted just before.
fits_item : OrderItem → Db → Bool
fits_item i db =
    ltb 0 i.qty
    && (ltb_ℤ (pos 0) i.unit_price
        && (ltb_ℤ (pos 0) i.line_amount
            && ((leb_ℤ (pos 0) i.commission_bps && leb_ℤ i.commission_bps (pos 10000))
                && ((count_rows (λ r. (r.order_id == i.order_id) && (r.product_id == i.product_id))
                        db.items
                      == 0)
                    && not (count_rows (λ p. p.id == i.product_id) db.products == 0)))))

-- `CreateOrderItem`.
unfoldable pub create_order_item : OrderItem → Tx QueryError (Unit {0})
unfolding fits_item
create_order_item i = do
  fits ← gets (fits_item i)
  reject_if (not fits) constraint_violation
  modify (λ db. record db { items = db.items ++ (i ∷ []) })

-- `CreateConfirmToken`: the hash is the key.
unfoldable pub create_confirm_token : ConfirmToken → Tx QueryError (Unit {0})
create_confirm_token t = do
  taken ← gets (λ db. not (count_rows (λ r. str_eq r.token_hash t.token_hash) db.tokens == 0))
  reject_if taken constraint_violation
  modify (λ db. record db { tokens = db.tokens ++ (t ∷ []) })

-- The loop over the quoted lines.
unfoldable pub create_items : Driver → ℕ → List QuotedLine → Tx Error (Unit {0})
create_items d id [] = pure tt
create_items d id (line ∷ lines) = do
  q ← or_throw (d.parse_numeric line.qty) invalid
  product ← or_throw (d.parse_uuid line.product_id) internal
  map_err map_error (
      create_order_item (record {
        order_id = id;
        product_id = product;
        qty = q;
        unit_price = line.unit_price;
        line_amount = line.line_amount;
        commission_bps = line.commission_bps;
      }))
  create_items d id lines

-- `replayCreated`: the order of the first attempt, as it is now.
replayed : Driver → ℕ → Option Order → Tx Error (Ending Placed)
replayed d id none db = err not_found
replayed d id (some o) db = ok (
    (
      rollback (record {
        created = record {
          order_id = d.uuid_text id;
          status = o.status;
          goods_amount = o.goods_amount;
          delivery_fee = o.delivery_fee;
          total_amount = o.total_amount;
          supplier_confirmation_deadline = o.confirmation_deadline;
        };
        notice = none;
      }),
      db,
    ))

refused : Option LocationError → Option Error
refused none = none
refused (some e) = some (map_location_error e)

abbrev pub reserve_request : CreateCommand → ReserveRequest
reserve_request cmd = record {
  store_id = cmd.input.store_id;
  district_id = cmd.input.district_id;
  delivery = str_eq cmd.input.fulfillment "delivery";
  lines = requested_lines cmd.input.items;
  at = cmd.at;
}

-- The row of the order.
abbrev pub order_row : ℕ → ℕ → ℕ → CreateCommand → Quote → Order
order_row id buyer store cmd quote = record {
  id = id;
  buyer_id = buyer;
  store_id = store;
  status = created;
  buyer_type = cmd.input.buyer_type;
  buyer_tin = optional cmd.input.buyer_tin;
  fulfillment = cmd.input.fulfillment;
  is_urgent = cmd.input.urgent;
  goods_amount = quote.goods_amount;
  delivery_fee = quote.delivery_fee;
  total_amount = quote.total_amount;
  dropoff = cmd.input.dropoff;
  dropoff_address = optional cmd.input.dropoff_address;
  district_id = some cmd.input.district_id;
  confirmation_deadline = quote.confirmation_deadline;
  payment_due_at = none;
  created_at = cmd.at;
  closed_at = none;
}

abbrev pub created_event : ℕ → ℕ → OrderEvent
created_event id at = record {
  order_id = id;
  from_status = none;
  to_status = created;
  actor = Actor.buyer;
  source = Source.app;
  payload = [];
  created_at = at;
}

abbrev pub confirm_token_row : (String → String) → ℕ → ℕ → String → ℕ → ConfirmToken
confirm_token_row digest id store token expires_at = record {
  token_hash = digest token;
  order_id = id;
  store_id = store;
  expires_at = expires_at;
  used_at = none;
}

abbrev pub placed : Driver → ℕ → String → Quote → Placed
placed d id token quote = record {
  created = record {
    order_id = d.uuid_text id;
    status = created;
    goods_amount = quote.goods_amount;
    delivery_fee = quote.delivery_fee;
    total_amount = quote.total_amount;
    supplier_confirmation_deadline = quote.confirmation_deadline;
  };
  notice = some (record {
    order_id = d.uuid_text id;
    token = token;
    expires_at = quote.confirmation_deadline;
  });
}

-- The writes of `Create` after those of the order and its items.
unfoldable pub record_notice :
    Driver → (String → String) → Drawn → CreateCommand → Quote → ℕ → Tx Error (Ending Placed)
record_notice d digest drawn cmd quote store = do
  let id = drawn.order_id
  modify (append_order_event (created_event id cmd.at))
  token ← or_throw drawn.token internal
  map_err map_error
      (create_confirm_token (confirm_token_row digest id store token quote.confirmation_deadline))
  write_outbox d (d.uuid_text id) (
      order_created cmd.input.store_id cmd.buyer_id quote.goods_amount quote.delivery_fee
        quote.total_amount (length quote.lines) cmd.input.urgent quote.confirmation_deadline)
  pure (commit (placed d id token quote))

-- The writes of `Create` once the stock is held.
unfoldable pub record_order :
    Driver → (String → String) → Drawn → CreateCommand → Quote → Tx Error (Ending Placed)
record_order d digest drawn cmd quote = do
  buyer ← or_throw (d.parse_uuid cmd.buyer_id) internal
  store ← or_throw (d.parse_uuid cmd.input.store_id) internal
  map_err map_error (create_order (order_row drawn.order_id buyer store cmd quote))
  create_items d drawn.order_id quote.lines
  record_notice d digest drawn cmd quote store

-- `Create` behind the operation key.
unfoldable pub create_claimed :
    Driver → (String → String) → Drawn → CreateCommand → Bool → ℕ → Tx Error (Ending Placed)
unfolding replayed refused
create_claimed d digest drawn cmd true existing = do
  found ← gets (get_order existing)
  replayed d existing found
create_claimed d digest drawn cmd false _ = do
  (seller, refusal) ← gets (λ db. resolve_seller d db.stores cmd.input.store_id)
  fail_with (refused refusal)
  quote ← map_err map_catalog_error (reserve_order_lines d (reserve_request cmd))
  record_order d digest drawn cmd quote

create_body : Driver → (String → String) → String → Drawn → CreateCommand → Tx Error (Ending Placed)
create_body d digest key drawn cmd = do
  (replay, existing) ← map_err raw_dedup_error (reserve_new key drawn.order_id cmd.at)
  create_claimed d digest drawn cmd replay existing

-- `Create`.
unfoldable pub create :
    Driver → (String → String) → String → Drawn → CreateCommand → Db → Result Error Placed × Db
unfolding create_body
create d digest key drawn cmd db = run_tx (create_body d digest key drawn cmd) db

wrap_placed : Result Error Placed × Db → Result ServiceError Placed × Db
wrap_placed (ok p, db) = (ok p, db)
wrap_placed (err e, db) = (err (failed e), db)

-- `CreateOrder`.
unfoldable pub place :
    Request → (Point → Bool) → Drawn → CreateInput → Db → Result ServiceError Placed × Db
unfolding wrap_placed
place r valid_point drawn input db = elim (require_role r.caller Role.buyer) [
  | err e ↦ (err (denied e), db)
  | ok principal ↦
      if not (validate_create r.texts valid_point input)
      then (err (failed invalid), db)
      else wrap_placed (
          create r.driver r.texts.digest r.key drawn
            (record { input = input; buyer_id = principal.user_id; at = r.at }) db)
]
