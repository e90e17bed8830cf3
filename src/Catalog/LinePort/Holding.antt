-- ===== src/Catalog/LinePort/Holding.antt =====
-- Reserving order lines (internal/modules/catalog/lineport.go) writes to the offers only.
use binno_pta_2026_evaluatio.Prelude.{
  ℕ, ◌≡◌, refl, List, [], ◌∷◌, ok, >>=-eq-ok, ok-injective, ◌∙◌, ap,
}
use binno_pta_2026_evaluatio.Db.{Db, Driver}
use binno_pta_2026_evaluatio.Catalog.LinePort.{
  RequestedLine, ReserveRequest, Quote, reserve_line, reserve_lines, reserve_order_lines,
  sort_lines,
}
use binno_pta_2026_evaluatio.Catalog.LinePort.Frame.{with_offers}
use binno_pta_2026_evaluatio.Catalog.LinePort.Reserving.{
  Held, reserve_line-Held, reserve_order_lines-parts,
}

Held-frame :
    (d : Driver) (store at : ℕ) (quote : Quote) (line : RequestedLine) (db : Db) (quote' : Quote)
    (db' : Db)
    → Held d store at quote line db quote' db'
    → db' ≡ with_offers db db'.offers
Held-frame d store at quote line db quote' db' h = rw h.written refl

reserve_lines-frame :
    (d : Driver) (store at : ℕ) (quote : Quote) (ls : List RequestedLine) (db : Db) {quote' : Quote}
    {db' : Db}
    → reserve_lines d store at quote ls db ≡ ok (quote', db')
    → db' ≡ with_offers db db'.offers
unfolding reserve_lines
reserve_lines-frame d store at quote [] db h = let (_, same) = ok-injective h in rw (← same) refl
reserve_lines-frame d store at quote (line ∷ ls) db {quote' = quote'} {db' = db'} h =
    let (quote1, db1, first, rest) = >>=-eq-ok (reserve_line d store at quote line) _ db h in
    let held = reserve_line-Held d store at quote line db {quote' = quote1} {db' = db1} first in
    reserve_lines-frame d store at quote1 ls db1 {quote' = quote'} {db' = db'} rest
    ∙ ap (λ (a : Db). with_offers a db'.offers)
        (Held-frame d store at quote line db quote1 db1 held)

pub reserve_order_lines-frame :
    (d : Driver) (request : ReserveRequest) (db : Db) {quote : Quote} {db' : Db}
    → reserve_order_lines d request db ≡ ok (quote, db')
    → db' ≡ with_offers db db'.offers
reserve_order_lines-frame d request db {quote = quote} {db' = db'} h =
    let (store, summed, _, _, held, _, _) =
      reserve_order_lines-parts d request db {quote = quote} {db' = db'} h in
    reserve_lines-frame d store request.at _ (sort_lines request.lines) db {quote' = summed}
      {db' = db'} held
