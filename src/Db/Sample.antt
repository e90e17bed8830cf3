-- ===== src/Db/Sample.antt =====
-- A driver that the witnesses run on: a number is printed as a row of that many characters and one more,
-- and read back by counting them. It stands in for google/uuid and pgtype.Numeric.
use Prim.Native.Char.{nul}
use binno_pta_2026_evaluatio.Prelude.{
  ℕ, zero, suc, ◌≡◌, refl, ap, Option, none, some, [], ◌∷◌, String, true, false,
}
use binno_pta_2026_evaluatio.Prelude.Int.{pos}
use binno_pta_2026_evaluatio.Orders.Status.{created}
use binno_pta_2026_evaluatio.Db.{Db, Driver, Order, OrderItem, Offer, published}

abbrev pub row : ℕ → String
row zero = String.[]
row (suc n) = String.◌∷◌ nul (row n)

abbrev pub count : String → ℕ
count String.[] = zero
count (String.◌∷◌ c s) = suc (count s)

abbrev pub read : String → Option ℕ
read String.[] = none
read (String.◌∷◌ c s) = some (count s)

pub count-row : (n : ℕ) → count (row n) ≡ n
count-row zero = refl
count-row (suc n) = ap suc (count-row n)

pub read-row : (n : ℕ) → read (row (suc n)) ≡ some n
read-row n = ap some (count-row n)

abbrev pub sample_driver : Driver
sample_driver = record {
  parse_uuid = read;
  uuid_text = λ n. row (suc n);
  parse_uuid-uuid_text = read-row;
  parse_numeric = read;
  numeric_text = λ n. row (suc n);
  parse_numeric-numeric_text = read-row;
}

-- One order for two pieces of one offer, which it holds; store 1 is on sale.
abbrev pub sample_order : Order
sample_order = record {
  id = 5;
  buyer_id = 2;
  store_id = 1;
  status = created;
  buyer_type = "individual";
  buyer_tin = none;
  fulfillment = "pickup";
  is_urgent = false;
  goods_amount = pos 200;
  delivery_fee = pos 0;
  total_amount = pos 200;
  dropoff = none;
  dropoff_address = none;
  district_id = none;
  confirmation_deadline = 1000;
  payment_due_at = none;
  created_at = 0;
  closed_at = none;
}

abbrev pub sample_offer : Offer
sample_offer = record {
  id = 7;
  store_id = 1;
  product_id = 3;
  price = pos 100;
  declared_qty = 10;
  reserved_qty = 2;
  freshness_at = 0;
  status = published;
  product_is_active = true;
  category_is_active = true;
  confirm_window_minutes = 30;
  commission_bps = pos 250;
}

abbrev pub sample_item : OrderItem
sample_item = record {
  order_id = 5;
  product_id = 3;
  qty = 2;
  unit_price = pos 100;
  line_amount = pos 200;
  commission_bps = pos 250;
}

abbrev pub sample_db : Db
sample_db = record {
  orders = sample_order ∷ [];
  items = sample_item ∷ [];
  events = [];
  tokens = [];
  offers = sample_offer ∷ [];
  products =
      (record {
        id = 3;
        is_active = true;
        category_is_active = true;
        confirm_window_minutes = 30;
        commission_bps = pos 250;
      })
      ∷ (record {
        id = 4;
        is_active = true;
        category_is_active = true;
        confirm_window_minutes = 30;
        commission_bps = pos 250;
      })
      ∷ [];
  requests = [];
  feedback = [];
  tariffs = [];
  stores =
      (record { store_id = 1; owner_id = 4; store_is_active = true; owner_is_active = true }) ∷ [];
  districts = pos 1 ∷ [];
  invoices = [];
  payments = [];
  refunds = [];
  ledger = [];
  receipts = [];
  outbox = [];
  next_id = 1;
}
