-- ===== src/Catalog/LinePort/Tests.antt =====
-- Witnesses for the stock of offers.
use binno_pta_2026_evaluatio.Prelude.{
  ℕ, some, ◌≡◌, refl, false, [], ◌∷◌, ok, err, Result, arith, All,
}
use binno_pta_2026_evaluatio.Prelude.Int.{pos, wrap64, ◌+ℤ◌, ◌*ℤ◌}
use binno_pta_2026_evaluatio.Db.{Db}
use binno_pta_2026_evaluatio.Db.Sample.{sample_driver, sample_db, sample_offer, row}
use binno_pta_2026_evaluatio.Money.{
  multiply, is_nonneg_decimal, nonneg_loop, round_half_up, scale, coefficient,
}
use binno_pta_2026_evaluatio.Catalog.LinePort.{
  ReserveRequest, ReleaseRequest, Quote, CatalogError, reserve_order_lines, reserve_line,
  release_order_lines,
}
use binno_pta_2026_evaluatio.Catalog.LinePort.Stock.{
  IsStocked, StockStep, StockSteps, steps-IsStocked, IsReservable,
}
use binno_pta_2026_evaluatio.Catalog.LinePort.Reserving.{IsQuote, reserve_order_lines-IsQuote}

abbrev db_of : {A : Type 0} → Result CatalogError (A × Db) → Db
db_of (ok (_, db)) = db
db_of (err _) = sample_db

abbrev nothing_left : ReleaseRequest
nothing_left = record {
  store_id = row 2;
  lines = (record { product_id = row 4; qty = row 3 }) ∷ [];
}

abbrev released : Db
released = db_of (release_order_lines sample_driver nothing_left sample_db)

released-ok : release_order_lines sample_driver nothing_left sample_db ≡ ok (0, released)
unfolding release_order_lines
released-ok = refl

sample_db-IsStocked : IsStocked sample_db
sample_db-IsStocked = (omega arith, tt)

steps-IsStocked_example : IsStocked released
steps-IsStocked_example =
    steps-IsStocked sample_db-IsStocked
      (StockSteps.next (StockStep.giving_back nothing_left 0 released-ok) StockSteps.done)

reservable : All (IsReservable 1 3 2 7) (sample_offer ∷ [])
reservable = ((refl, λ same. refl), tt)

abbrev basket : ReserveRequest
basket = record {
  store_id = row 2;
  district_id = pos 1;
  delivery = false;
  lines = (record { product_id = row 4; qty = "11" }) ∷ [];
  at = 100;
}

abbrev empty : Quote
empty = record {
  lines = [];
  goods_amount = pos 0;
  delivery_fee = pos 0;
  total_amount = pos 0;
  confirmation_deadline = 0;
}

abbrev quote_of : Result CatalogError (Quote × Db) → Quote
quote_of (ok (q, _)) = q
quote_of (err _) = empty

abbrev reservation : Result CatalogError (Quote × Db)
reservation = reserve_order_lines sample_driver basket sample_db

reservation-ok :
    reserve_order_lines sample_driver basket sample_db
    ≡ ok (quote_of reservation, db_of reservation)
unfolding reserve_order_lines reserve_line multiply is_nonneg_decimal nonneg_loop round_half_up
    scale ◌*ℤ◌ coefficient ◌+ℤ◌ wrap64
reservation-ok = refl

eleven_pieces : (quote_of reservation).total_amount ≡ pos 1100
unfolding reserve_order_lines reserve_line multiply is_nonneg_decimal nonneg_loop round_half_up
    scale ◌*ℤ◌ coefficient ◌+ℤ◌ wrap64
eleven_pieces = refl

reserve_order_lines-IsQuote_example :
    (store : ℕ) × (sample_driver.parse_uuid (row 2) ≡ some store)
    × IsQuote sample_driver store sample_db.offers basket (quote_of reservation)
reserve_order_lines-IsQuote_example =
    reserve_order_lines-IsQuote sample_driver basket sample_db reservation-ok
