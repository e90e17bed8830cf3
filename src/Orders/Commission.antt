-- ===== src/Orders/Commission.antt =====
-- The commission of a closed order: `accrueCommission`, `rateForLines` and `effectiveRateBps` of
-- internal/modules/orders/repository.go.
pub mod Bounds
mod Tests
use binno_pta_2026_evaluatio.Prelude.{
  ℕ, ◌+◌, ◌*◌, ◌/◌, Bool, true, false, ◌&&◌, Option, none, some, List, [], ◌∷◌, String, str_eq,
  if◌then◌else◌, pure, throw, gets, or_throw, map_err, reject_if, ◌>>=◌, ◌>>◌, select_rows, ◌==◌,
  ok, err,
}
use binno_pta_2026_evaluatio.Prelude.Int.{
  ℤ, pos, negsuc, pos_part, neg_part, sub_ℕ, ◌+ℤ◌, ◌*ℤ◌, leb_ℤ, eqb_ℤ, wrap64, wrap32,
}
use binno_pta_2026_evaluatio.Money.{apply_basis_points}
use binno_pta_2026_evaluatio.Db.{Db, Driver, Order, OrderItem}
use binno_pta_2026_evaluatio.Tx.{Tx}
use binno_pta_2026_evaluatio.Location.{LocationError, resolve_seller}
use binno_pta_2026_evaluatio.Billing.Settlement
use binno_pta_2026_evaluatio.Orders.Errors.{
  Error, internal, map_location_error, map_settlement_error,
}

-- `ListOrderItems`.
abbrev pub order_items : ℕ → Db → List OrderItem
order_items order db = select_rows (λ i. i.order_id == order) db.items

-- The loop over the items: the sum wraps as an int64 does.
unfoldable pub accrue_lines : ℤ → List OrderItem → Option ℤ
accrue_lines accrued [] = some accrued
accrue_lines accrued (i ∷ is) = elim (apply_basis_points i.line_amount i.commission_bps) [
  | some charge ↦ accrue_lines (wrap64 (accrued +ℤ charge)) is
  | none ↦ none
]

abbrev pub max_rate_bps : ℤ
max_rate_bps = pos 10000

-- The quotient of Go's `/`, cut towards zero, by a positive number.
div_int64 : ℤ → ℕ → ℤ
div_int64 (pos n) d = pos (n / d)
div_int64 (negsuc n) d = sub_ℕ 0 ((n + 1) / d)

-- `effectiveRateBps`, with the wraps of int64 and the conversion to int32.
unfoldable pub effective_rate_bps : ℤ → ℤ → ℤ
unfolding div_int64 wrap64 wrap32 ◌+ℤ◌ ◌*ℤ◌
effective_rate_bps (pos base) accrued =
    if (base == 0)
    then pos 0
    else if leb_ℤ accrued (pos 0)
    then pos 0
    else (let rate = div_int64 (wrap64 (wrap64 (accrued *ℤ max_rate_bps) +ℤ pos (base / 2))) base in
        if leb_ℤ max_rate_bps rate then max_rate_bps else wrap32 rate)
effective_rate_bps (negsuc base) accrued = pos 0

-- Whether every further line has the first one's rate.
unfoldable pub same_rate : ℤ → List OrderItem → Bool
same_rate uniform [] = true
same_rate uniform (i ∷ is) = eqb_ℤ i.commission_bps uniform && same_rate uniform is

-- `rateForLines`.
unfoldable pub rate_for_lines : List OrderItem → ℤ → ℤ → ℤ
unfolding same_rate effective_rate_bps
rate_for_lines [] base accrued = effective_rate_bps base accrued
rate_for_lines (i ∷ is) base accrued =
    if same_rate i.commission_bps is then i.commission_bps else effective_rate_bps base accrued

-- Only a seller that cannot be resolved at all is an error.
abbrev refusal : String → Option LocationError → Option Error
refusal owner none = none
refusal owner (some e) = if str_eq owner "" then some (map_location_error e) else none

abbrev pub fail_with : Option Error → Tx Error (Unit {0})
fail_with none db = ok (tt, db)
fail_with (some e) db = err e

-- `accrueCommission`.
unfoldable pub accrue_commission : Driver → Order → ℕ → Tx Error (Unit {0})
unfolding accrue_lines rate_for_lines
accrue_commission d order at = do
  items ← gets (order_items order.id)
  accrued ← or_throw (accrue_lines (pos 0) items) internal
  (seller, refused) ← gets (λ db. resolve_seller d db.stores (d.uuid_text order.store_id))
  fail_with (refusal seller.owner_id refused)
  _ ← map_err map_settlement_error (
      Settlement.accrue_commission d (record {
        order_id = d.uuid_text order.id;
        owner_id = seller.owner_id;
        base_amount = order.goods_amount;
        accrued = accrued;
        rate_bps = rate_for_lines items order.goods_amount accrued;
        at = at;
      }))
  pure tt
