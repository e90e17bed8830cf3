-- ===== src/Catalog/LinePort/Frame.antt =====
-- Which tables the stock adjustments of internal/modules/catalog/lineport.go leave alone.
use binno_pta_2026_evaluatio.Prelude.{ℕ, ◌≡◌, List, [], ◌∷◌, arith, ok, >>=-eq-ok, or_throw}
use binno_pta_2026_evaluatio.Db.{Db, Driver, Offer}
use binno_pta_2026_evaluatio.Catalog.LinePort.{
  RequestedLine, ReleaseRequest, CatalogError, adjust_line, adjust_lines, adjust_order_lines,
  release_order_lines, consume_order_lines, release_offer_quantity, consume_offer_quantity,
}

-- The database with other offers.
abbrev pub with_offers : Db → List Offer → Db
with_offers db offers = record db { offers = offers }

module _ (d : Driver) (adjust : ℕ → ℕ → ℕ → List Offer → List Offer) where
  adjust_line-frame :
      (store : ℕ) (line : RequestedLine) (db : Db) {n : ℕ} {db' : Db}
      → adjust_line d adjust store line db ≡ ok (n, db')
      → db' ≡ with_offers db db'.offers
  unfolding adjust_line
  adjust_line-frame store line db h = ground arith

  adjust_lines-frame :
      (store : ℕ) (lines : List RequestedLine) (db : Db) {n : ℕ} {db' : Db}
      → adjust_lines d adjust store lines db ≡ ok (n, db')
      → db' ≡ with_offers db db'.offers
  unfolding adjust_lines
  adjust_lines-frame store [] db h = ground arith
  adjust_lines-frame store (line ∷ lines) db h =
      let (missed, db1, first, more) = >>=-eq-ok (adjust_line d adjust store line) _ db h in
      let (rest, db2, second, last) = >>=-eq-ok (adjust_lines d adjust store lines) _ db1 more in
      ground
        (arith, adjust_line-frame store line db first, adjust_lines-frame store lines db1 second)

  adjust_order_lines-frame :
      (request : ReleaseRequest) (db : Db) {n : ℕ} {db' : Db}
      → adjust_order_lines d adjust request db ≡ ok (n, db')
      → db' ≡ with_offers db db'.offers
  unfolding adjust_order_lines
  adjust_order_lines-frame request db {n = n} {db' = db'} h =
      let (store, db1, parsed, lines) =
        >>=-eq-ok (or_throw (d.parse_uuid request.store_id) CatalogError.internal) _ db h in
      adjust_lines-frame store request.lines db {n = n} {db' = db'} (ground (arith, parsed, lines))

pub release_order_lines-frame :
    (d : Driver) (request : ReleaseRequest) (db : Db) {n : ℕ} {db' : Db}
    → release_order_lines d request db ≡ ok (n, db')
    → db' ≡ with_offers db db'.offers
unfolding release_order_lines
release_order_lines-frame d request db h =
    adjust_order_lines-frame d release_offer_quantity request db h

pub consume_order_lines-frame :
    (d : Driver) (request : ReleaseRequest) (db : Db) {n : ℕ} {db' : Db}
    → consume_order_lines d request db ≡ ok (n, db')
    → db' ≡ with_offers db db'.offers
unfolding consume_order_lines
consume_order_lines-frame d request db h =
    adjust_order_lines-frame d consume_offer_quantity request db h
