-- ===== src/Catalog/LinePort.antt =====
-- internal/modules/catalog/lineport.go, port.go and the statements of store/queries.sql.go that
-- it runs: orders price, hold, give back and use up the stock of offers.
pub mod Frame
pub mod Stock
pub mod Reserving
pub mod Holding
mod Tests
use Prim.Native.Char.{code}
use Prim.Native.String.{compare}
use Prim.Native.Nat.{Ordering}
use binno_pta_2026_evaluatio.Prelude.{
  ℕ, ◌+◌, ◌-◌, ◌*◌, Bool, true, false, ◌&&◌, Option, none, some, List, [], ◌∷◌, ◌++◌, String, leb,
  ltb, ◌==◌, if◌then◌else◌, pure, throw, gets, modify, or_throw, reject_if, ◌>>=◌, ◌>>◌, find_row,
  count_rows, update_rows, Result, ok, err,
}
use binno_pta_2026_evaluatio.Prelude.Int.{ℤ, pos, ◌+ℤ◌, eqb_ℤ, wrap64}
use binno_pta_2026_evaluatio.Money.{multiply}
use binno_pta_2026_evaluatio.Db.{
  Db, Driver, Offer, OfferStatus, published, hidden, archived, Tariff,
}
use binno_pta_2026_evaluatio.Tx.{Tx}

-- `ErrOfferUnavailable`, `ErrTariffUnavailable`, `ErrInvalid`, and any other error.
pub data CatalogError : Type 0 where
  offer_unavailable tariff_unavailable invalid internal : CatalogError

pub record RequestedLine : Type 0 where
  pub product_id : String
  pub qty : String

pub record ReserveRequest : Type 0 where
  pub store_id : String
  pub district_id : ℤ
  pub delivery : Bool
  pub lines : List RequestedLine
  pub at : ℕ

pub record QuotedLine : Type 0 where
  pub product_id : String
  pub qty : String
  pub unit_price : ℤ
  pub line_amount : ℤ
  pub commission_bps : ℤ

pub record Quote : Type 0 where
  pub lines : List QuotedLine
  pub goods_amount : ℤ
  pub delivery_fee : ℤ
  pub total_amount : ℤ
  pub confirmation_deadline : ℕ

pub record ReleaseRequest : Type 0 where
  pub store_id : String
  pub lines : List RequestedLine

abbrev pub is_published : OfferStatus → Bool
is_published published = true
is_published hidden = false
is_published archived = false

-- The statements.

abbrev pub is_offer_of : ℕ → ℕ → Offer → Bool
is_offer_of store product o = (o.store_id == store) && (o.product_id == product)

unfoldable pub get_offer_for_order : ℕ → ℕ → List Offer → Option Offer
get_offer_for_order store product = find_row (λ o.
    is_offer_of store product o
    && (is_published o.status && (o.product_is_active && o.category_is_active)))

abbrev pub can_reserve : ℕ → ℕ → Offer → Bool
can_reserve q id o =
    (o.id == id) && (is_published o.status && leb (q + o.reserved_qty) o.declared_qty)

-- `ReserveOfferQuantity`; `declared - reserved >= qty` is written without a subtraction.
unfoldable pub reserve_offer_quantity : ℕ → ℕ → List Offer → List Offer
reserve_offer_quantity q id =
    update_rows (can_reserve q id) (λ o. record o { reserved_qty = o.reserved_qty + q })

abbrev pub holds_quantity : ℕ → ℕ → ℕ → Offer → Bool
holds_quantity store product q o = is_offer_of store product o && leb q o.reserved_qty

unfoldable pub release_offer_quantity : ℕ → ℕ → ℕ → List Offer → List Offer
release_offer_quantity store product q =
    update_rows (holds_quantity store product q)
      (λ o. record o { reserved_qty = o.reserved_qty - q })

unfoldable pub consume_offer_quantity : ℕ → ℕ → ℕ → List Offer → List Offer
consume_offer_quantity store product q =
    update_rows (holds_quantity store product q)
      (λ o. record o { declared_qty = o.declared_qty - q; reserved_qty = o.reserved_qty - q })

unfoldable pub get_delivery_tariff : ℕ → ℤ → List Tariff → Option Tariff
get_delivery_tariff store district =
    find_row (λ t. (t.store_id == store) && eqb_ℤ t.district_id district)

-- `adjustOrderLines` for one line of the order's own snapshot. The result counts the lines that
-- matched no row, which the source only logs.
adjust_line : Driver → (ℕ → ℕ → ℕ → List Offer → List Offer) → ℕ → RequestedLine → Tx CatalogError ℕ
adjust_line d adjust store line = do
  product ← or_throw (d.parse_uuid line.product_id) internal
  q ← or_throw (d.parse_numeric line.qty) internal
  rows ← gets (λ db. count_rows (holds_quantity store product q) db.offers)
  modify (λ db. record db { offers = adjust store product q db.offers })
  pure (if rows == 0 then 1 else 0)

adjust_lines :
    Driver → (ℕ → ℕ → ℕ → List Offer → List Offer) → ℕ → List RequestedLine → Tx CatalogError ℕ
unfolding adjust_line
adjust_lines d adjust store [] = pure 0
adjust_lines d adjust store (line ∷ lines) = do
  missed ← adjust_line d adjust store line
  rest ← adjust_lines d adjust store lines
  pure (missed + rest)

adjust_order_lines :
    Driver → (ℕ → ℕ → ℕ → List Offer → List Offer) → ReleaseRequest → Tx CatalogError ℕ
unfolding adjust_lines
adjust_order_lines d adjust request = do
  store ← or_throw (d.parse_uuid request.store_id) internal
  adjust_lines d adjust store request.lines

-- `ReleaseOrderLines`.
unfoldable pub release_order_lines : Driver → ReleaseRequest → Tx CatalogError ℕ
unfolding adjust_order_lines release_offer_quantity
release_order_lines d = adjust_order_lines d release_offer_quantity

-- `ConsumeOrderLines`.
unfoldable pub consume_order_lines : Driver → ReleaseRequest → Tx CatalogError ℕ
unfolding adjust_order_lines consume_offer_quantity
consume_order_lines d = adjust_order_lines d consume_offer_quantity

-- `slices.SortFunc` by product id: lines with equal ids are the same line to `strings.Compare`.
insert_line : RequestedLine → List RequestedLine → List RequestedLine
insert_line line [] = line ∷ []
insert_line line (l ∷ ls) = elim (compare line.product_id l.product_id) [
  | Ordering.gt ↦ l ∷ insert_line line ls
  | _ ↦ line ∷ l ∷ ls
]

unfoldable pub sort_lines : List RequestedLine → List RequestedLine
unfolding insert_line
sort_lines [] = []
sort_lines (l ∷ ls) = insert_line l (sort_lines ls)

abbrev pub codes : String → List ℕ
codes String.[] = []
codes (String.◌∷◌ c s) = code c ∷ codes s

abbrev pub minute : ℕ
minute = 60 * 1000000000

-- One round of the loop of `ReserveOrderLines`.
unfoldable pub reserve_line : Driver → ℕ → ℕ → Quote → RequestedLine → Tx CatalogError Quote
unfolding get_offer_for_order reserve_offer_quantity
reserve_line d store at quote line = do
  product ← or_throw (d.parse_uuid line.product_id) offer_unavailable
  q ← or_throw (d.parse_numeric line.qty) offer_unavailable
  found ← gets (λ db. get_offer_for_order store product db.offers)
  offer ← or_throw found offer_unavailable
  rows ← gets (λ db. count_rows (can_reserve q offer.id) db.offers)
  reject_if (rows == 0) offer_unavailable
  modify (λ db. record db { offers = reserve_offer_quantity q offer.id db.offers })
  line_amount ← or_throw (multiply (codes line.qty) offer.price) offer_unavailable
  let deadline = at + offer.confirm_window_minutes * minute
  pure (record quote {
    goods_amount = wrap64 (quote.goods_amount +ℤ line_amount);
    lines =
        quote.lines
        ++ ((record {
          product_id = line.product_id;
          qty = line.qty;
          unit_price = offer.price;
          line_amount = line_amount;
          commission_bps = offer.commission_bps;
        })
            ∷ []);
    confirmation_deadline =
        if ltb quote.confirmation_deadline deadline then deadline else quote.confirmation_deadline;
  })

unfoldable pub reserve_lines : Driver → ℕ → ℕ → Quote → List RequestedLine → Tx CatalogError Quote
reserve_lines d store at quote [] = pure quote
reserve_lines d store at quote (line ∷ lines) = do
  quote' ← reserve_line d store at quote line
  reserve_lines d store at quote' lines

abbrev is_empty : List RequestedLine → Bool
is_empty [] = true
is_empty (_ ∷ _) = false

-- The delivery fee: nothing for a pickup.
delivery_fee : ℕ → ReserveRequest → Tx CatalogError ℤ
unfolding get_delivery_tariff
delivery_fee store request = elim request.delivery [
  | true ↦ do
    found ← gets (λ db. get_delivery_tariff store request.district_id db.tariffs)
    tariff ← or_throw found tariff_unavailable
    pure tariff.price
  | false ↦ pure (pos 0)
]

-- `ReserveOrderLines`.
unfoldable pub reserve_order_lines : Driver → ReserveRequest → Tx CatalogError Quote
unfolding reserve_lines delivery_fee sort_lines
reserve_order_lines d request = do
  reject_if (is_empty request.lines) offer_unavailable
  store ← or_throw (d.parse_uuid request.store_id) offer_unavailable
  quote ←
      reserve_lines d store request.at
        (record {
          lines = [];
          goods_amount = pos 0;
          delivery_fee = pos 0;
          total_amount = pos 0;
          confirmation_deadline = request.at;
        })
        (sort_lines request.lines)
  fee ← delivery_fee store request
  pure (record quote { delivery_fee = fee; total_amount = wrap64 (quote.goods_amount +ℤ fee) })
