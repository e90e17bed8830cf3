-- ===== src/Catalog/LinePort/Stock.antt =====
-- The stock columns of offers under the operations of internal/modules/catalog/lineport.go.
use mathlib.Core.Path.{ap₂}
use binno_pta_2026_evaluatio.Prelude.{
  ℕ, ◌+◌, ◌-◌, ◌≤◌, ◌≡◌, refl, true, List, [], ◌∷◌, arith, ◌==◌, ok, All, update_rows,
  if◌then◌else◌, Option-cases, inl, inr, >>=-eq-ok, or_throw, or_throw-eq-ok, ok-injective,
}
use binno_pta_2026_evaluatio.Db.{Db, Driver, Offer}
use binno_pta_2026_evaluatio.Catalog.LinePort.{
  RequestedLine, ReserveRequest, ReleaseRequest, Quote, CatalogError, reserve_offer_quantity,
  release_offer_quantity, consume_offer_quantity, reserve_line, reserve_lines, reserve_order_lines,
  release_order_lines, consume_order_lines, adjust_line, adjust_lines, adjust_order_lines,
  sort_lines, is_offer_of, can_reserve, holds_quantity,
}
use binno_pta_2026_evaluatio.Catalog.LinePort.Reserving.{
  Held, reserve_line-Held, reserve_order_lines-parts,
}

-- The constraint of catalog.offers.
abbrev pub IsCovered : Offer → Type 0
IsCovered o = o.reserved_qty ≤ o.declared_qty

-- A statement that keeps every offer covered.
abbrev pub IsSafe : (List Offer → List Offer) → Type 0
IsSafe f = (os : List Offer) → All IsCovered os → All IsCovered (f os)

reserve-IsSafe : (q id : ℕ) → IsSafe (reserve_offer_quantity q id)
unfolding reserve_offer_quantity
reserve-IsSafe q id [] h = tt
reserve-IsSafe q id (o ∷ os) (covered, all) = (ground (arith, covered), reserve-IsSafe q id os all)

release-IsSafe : (store product q : ℕ) → IsSafe (release_offer_quantity store product q)
unfolding release_offer_quantity
release-IsSafe store product q [] h = tt
release-IsSafe store product q (o ∷ os) (covered, all) =
    (ground (arith, covered), release-IsSafe store product q os all)

consume-IsSafe : (store product q : ℕ) → IsSafe (consume_offer_quantity store product q)
unfolding consume_offer_quantity
consume-IsSafe store product q [] h = tt
consume-IsSafe store product q (o ∷ os) (covered, all) =
    (ground (arith, covered), consume-IsSafe store product q os all)

abbrev pub IsStocked : Db → Type 0
IsStocked db = All IsCovered db.offers

adjust_line-IsStocked :
    (d : Driver) (adjust : ℕ → ℕ → ℕ → List Offer → List Offer) (store : ℕ) (line : RequestedLine)
    (db : Db) {n : ℕ} {db' : Db}
    → ((product q : ℕ) → IsSafe (adjust store product q))
    → IsStocked db
    → adjust_line d adjust store line db ≡ ok (n, db')
    → IsStocked db'
unfolding adjust_line
adjust_line-IsStocked d adjust store line db {n = n} {db' = db'} safe stocked h =
    elim (Option-cases (d.parse_uuid line.product_id)) [
      | inl malformed ↦ absurd (ground (arith, malformed))
      | inr (product, parsed) ↦ elim (Option-cases (d.parse_numeric line.qty)) [
        | inl malformed ↦ absurd (ground (arith, parsed, malformed))
        | inr (q, counted) ↦
            (let written : db' ≡ record db { offers = adjust store product q db.offers } =
                ground (arith, parsed, counted) in
              rw written (safe product q db.offers stocked))
      ]
    ]

adjust_lines-IsStocked :
    (d : Driver) (adjust : ℕ → ℕ → ℕ → List Offer → List Offer) (store : ℕ)
    (lines : List RequestedLine) (db : Db) {n : ℕ} {db' : Db}
    → ((product q : ℕ) → IsSafe (adjust store product q))
    → IsStocked db
    → adjust_lines d adjust store lines db ≡ ok (n, db')
    → IsStocked db'
unfolding adjust_lines
adjust_lines-IsStocked d adjust store [] db safe stocked h =
    let (_, same) = ok-injective h in rw (← same) stocked
adjust_lines-IsStocked d adjust store (line ∷ lines) db safe stocked h =
    let (_, db1, first, h1) = >>=-eq-ok (adjust_line d adjust store line) _ db h in
    let (_, db2, rest, h2) = >>=-eq-ok (adjust_lines d adjust store lines) _ db1 h1 in
    let (_, same) = ok-injective h2 in
    rw (← same) (
      adjust_lines-IsStocked d adjust store lines db1 {db' = db2} safe
        (adjust_line-IsStocked d adjust store line db {db' = db1} safe stocked first) rest)

reserve_lines-IsStocked :
    (d : Driver) (store at : ℕ) (quote : Quote) (ls : List RequestedLine) (db : Db) {quote' : Quote}
    {db' : Db}
    → IsStocked db
    → reserve_lines d store at quote ls db ≡ ok (quote', db')
    → IsStocked db'
unfolding reserve_lines
reserve_lines-IsStocked d store at quote [] db stocked h =
    let (_, same) = ok-injective h in rw (← same) stocked
reserve_lines-IsStocked d store at quote (line ∷ ls) db {db' = db'} stocked h =
    let (quote1, db1, first, rest) = >>=-eq-ok (reserve_line d store at quote line) _ db h in
    let held = reserve_line-Held d store at quote line db {quote' = quote1} {db' = db1} first in
    reserve_lines-IsStocked d store at quote1 ls db1 {db' = db'}
      (Held-IsStocked d store at quote line db quote1 db1 stocked held) rest
  where
    Held-IsStocked :
        (d : Driver) (store at : ℕ) (quote : Quote) (line : RequestedLine) (db : Db)
        (quote1 : Quote) (db1 : Db)
        → IsStocked db
        → Held d store at quote line db quote1 db1
        → IsStocked db1
    Held-IsStocked d store at quote line db quote1 db1 stocked held =
        rw held.written (reserve-IsSafe held.q held.offer.id db.offers stocked)

adjust_order_lines-IsStocked :
    (d : Driver) (adjust : ℕ → ℕ → ℕ → List Offer → List Offer) (request : ReleaseRequest) (db : Db)
    {n : ℕ} {db' : Db}
    → ((store product q : ℕ) → IsSafe (adjust store product q))
    → IsStocked db
    → adjust_order_lines d adjust request db ≡ ok (n, db')
    → IsStocked db'
unfolding adjust_order_lines
adjust_order_lines-IsStocked d adjust request db {n = n} {db' = db'} safe stocked h =
    let (store, db1, parsed, lines) =
      >>=-eq-ok (or_throw (d.parse_uuid request.store_id) CatalogError.internal) _ db h in
    let (_, same) =
      or_throw-eq-ok (d.parse_uuid request.store_id) CatalogError.internal db parsed in
    adjust_lines-IsStocked d adjust store request.lines db {n = n} {db' = db'} (safe store) stocked
      cc

reserve-IsStocked :
    (d : Driver) (request : ReserveRequest) (db : Db) {quote : Quote} {db' : Db}
    → IsStocked db
    → reserve_order_lines d request db ≡ ok (quote, db')
    → IsStocked db'
reserve-IsStocked d request db {quote = quote} {db' = db'} stocked h =
    let (store, summed, _, _, held, _, _) =
      reserve_order_lines-parts d request db {quote = quote} {db' = db'} h in
    reserve_lines-IsStocked d store request.at _ (sort_lines request.lines) db {quote' = summed}
      {db' = db'} stocked held

-- One call that changes the stock and succeeds.
pub data StockStep (d : Driver) (db db' : Db) : Type 0 where
  reservation :
      (request : ReserveRequest) (quote : Quote)
      → reserve_order_lines d request db ≡ ok (quote, db')
      → StockStep d db db'
  giving_back :
      (lines : ReleaseRequest) (missed : ℕ)
      → release_order_lines d lines db ≡ ok (missed, db')
      → StockStep d db db'
  using_up :
      (lines : ReleaseRequest) (missed : ℕ)
      → consume_order_lines d lines db ≡ ok (missed, db')
      → StockStep d db db'

pub data StockSteps (d : Driver) : Db → Db → Type 0 where
  done : {db : Db} → StockSteps d db db
  next : {a b c : Db} → StockStep d a b → StockSteps d b c → StockSteps d a c

step-IsStocked : (d : Driver) (db db' : Db) → IsStocked db → StockStep d db db' → IsStocked db'
unfolding release_order_lines consume_order_lines
step-IsStocked d db db' stocked (reservation request quote h) =
    reserve-IsStocked d request db {quote = quote} {db' = db'} stocked h
step-IsStocked d db db' stocked (giving_back lines n h) =
    adjust_order_lines-IsStocked d release_offer_quantity lines db {n = n} {db' = db'}
      release-IsSafe stocked h
step-IsStocked d db db' stocked (using_up lines n h) =
    adjust_order_lines-IsStocked d consume_offer_quantity lines db {n = n} {db' = db'}
      consume-IsSafe stocked h

-- No offer reserves more than it declares after any sequence of successful reservations, releases
-- and consumptions of order lines, if none did before.
pub steps-IsStocked :
    {d : Driver} {db db' : Db} → IsStocked db → StockSteps d db db' → IsStocked db'
steps-IsStocked stocked done = stocked
steps-IsStocked {d = d} stocked (next {a = a} {b = b} first rest) =
    steps-IsStocked (step-IsStocked d a b stocked first) rest

-- The id and the pair of store and product name the same row, which can hold the quantity.
abbrev pub IsReservable : ℕ → ℕ → ℕ → ℕ → Offer → Type 0
IsReservable store product q id o =
    (is_offer_of store product o ≡ (o.id == id)) × (o.id ≡ id → can_reserve q id o ≡ true)

abbrev hold_row : ℕ → ℕ → Offer → Offer
hold_row q id o = if can_reserve q id o then record o { reserved_qty = o.reserved_qty + q } else o

abbrev release_row : ℕ → ℕ → ℕ → Offer → Offer
release_row store product q o =
    if holds_quantity store product q o then record o { reserved_qty = o.reserved_qty - q } else o

abbrev consume_row : ℕ → ℕ → ℕ → Offer → Offer
consume_row store product q o =
    if holds_quantity store product q o
    then record o { declared_qty = o.declared_qty - q; reserved_qty = o.reserved_qty - q }
    else o

sub_add : (a q : ℕ) → a + q - q ≡ a
sub_add a q = omega arith

release-hold_row :
    (store product q id : ℕ) (o : Offer)
    → IsReservable store product q id o
    → (release_row store product q (hold_row q id o) ≡ o)
      × (consume_row store product q (hold_row q id o)
          ≡ (if o.id == id then record o { declared_qty = o.declared_qty - q } else o))
release-hold_row store product q id o (key, fits) = (
  ground (arith, key, fits, sub_add o.reserved_qty q),
  ground (arith, key, fits, sub_add o.reserved_qty q),
)

-- A hold that succeeded is undone by its release, and taken off both columns by its consumption.
pub release-reserve :
    (store product q id : ℕ) (os : List Offer)
    → All (IsReservable store product q id) os
    → (release_offer_quantity store product q (reserve_offer_quantity q id os) ≡ os)
      × (consume_offer_quantity store product q (reserve_offer_quantity q id os)
          ≡ update_rows (λ o. o.id == id) (λ o. record o { declared_qty = o.declared_qty - q }) os)
unfolding release_offer_quantity consume_offer_quantity reserve_offer_quantity
release-reserve store product q id [] h = (refl, refl)
release-reserve store product q id (o ∷ os) (row, all) =
    let (back, used) = release-reserve store product q id os all in
    let (one_back, one_used) = release-hold_row store product q id o row in
    (ap₂ (λ x xs. x ∷ xs) one_back back, ap₂ (λ x xs. x ∷ xs) one_used used)
