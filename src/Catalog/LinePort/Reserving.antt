-- ===== src/Catalog/LinePort/Reserving.antt =====
-- What `ReserveOrderLines` of internal/modules/catalog/lineport.go quotes.
use mathlib.Core.List.{append-nil, append_assoc}
use binno_pta_2026_evaluatio.Prelude.{
  ℕ, ◌+◌, ◌*◌, ◌≤◌, ◌≡◌, refl, sym, ◌∙◌, subst, ◌&&◌, Bool, true, false, some, List, [], ◌∷◌, ◌++◌,
  arith, ◌==◌, ok, count_rows, Option-cases, Bool-cases, ◌⊎◌, inl, inr, >>=-eq-ok, or_throw,
  or_throw-eq-ok, reject_if, reject_if-eq-ok, ok-injective,
}
use binno_pta_2026_evaluatio.Prelude.Int.{ℤ, pos, ◌+ℤ◌, wrap64}
use binno_pta_2026_evaluatio.Money.{multiply}
use binno_pta_2026_evaluatio.Db.{Db, Driver, Offer}
use binno_pta_2026_evaluatio.Catalog.LinePort.{
  RequestedLine, ReserveRequest, Quote, QuotedLine, offer_unavailable, reserve_offer_quantity,
  get_offer_for_order, is_offer_of, is_published, can_reserve, codes, reserve_line, reserve_lines,
  reserve_order_lines, delivery_fee, is_empty, sort_lines, minute,
}

-- The quoted line of a requested one.
abbrev pub quoted_line : RequestedLine → Offer → ℤ → QuotedLine
quoted_line line offer amount = record {
  product_id = line.product_id;
  qty = line.qty;
  unit_price = offer.price;
  line_amount = amount;
  commission_bps = offer.commission_bps;
}

-- One line held: at the price and the commission of the offer that is on sale, with the quantity
-- added to what that offer reserves.
pub record Held (d : Driver) (store at : ℕ) (before : Quote) (line : RequestedLine) (db : Db)
    (after : Quote) (db' : Db) : Type 0 where
  pub product : ℕ
  pub q : ℕ
  pub offer : Offer
  pub amount : ℤ
  pub product_parsed : d.parse_uuid line.product_id ≡ some product
  pub quantity_parsed : d.parse_numeric line.qty ≡ some q
  pub on_sale : get_offer_for_order store product db.offers ≡ some offer
  pub available : (count_rows (can_reserve q offer.id) db.offers == 0) ≡ false
  pub priced : multiply (codes line.qty) offer.price ≡ some amount
  pub quoted : after.lines ≡ before.lines ++ (quoted_line line offer amount ∷ [])
  pub summed : after.goods_amount ≡ wrap64 (before.goods_amount +ℤ amount)
  pub in_time : at + offer.confirm_window_minutes * minute ≤ after.confirmation_deadline
  pub later : before.confirmation_deadline ≤ after.confirmation_deadline
  pub written : db' ≡ record db { offers = reserve_offer_quantity q offer.id db.offers }

pub reserve_line-Held :
    (d : Driver) (store at : ℕ) (quote : Quote) (line : RequestedLine) (db : Db) {quote' : Quote}
    {db' : Db}
    → reserve_line d store at quote line db ≡ ok (quote', db')
    → Held d store at quote line db quote' db'
unfolding reserve_line
reserve_line-Held d store at quote line db {quote' = quote'} {db' = db'} h =
    elim (Option-cases (d.parse_uuid line.product_id)) [
      | inl malformed ↦ absurd (ground (arith, malformed))
      | inr (product, e1) ↦ elim (Option-cases (d.parse_numeric line.qty)) [
        | inl malformed ↦ absurd (ground (arith, e1, malformed))
        | inr (q, e2) ↦ elim (Option-cases (get_offer_for_order store product db.offers)) [
          | inl missing ↦ absurd (ground (arith, e1, e2, missing))
          | inr (offer, e3) ↦ elim (Option-cases (multiply (codes line.qty) offer.price)) [
            | inl unpriced ↦ absurd (ground (arith, e1, e2, e3, unpriced))
            | inr (amount, e4) ↦ record {
              product = product;
              q = q;
              offer = offer;
              amount = amount;
              product_parsed = e1;
              quantity_parsed = e2;
              on_sale = e3;
              available = ground (arith, e1, e2, e3, e4);
              priced = e4;
              quoted = ground (arith, e1, e2, e3, e4);
              summed = ground (arith, e1, e2, e3, e4);
              in_time = ground (arith, e1, e2, e3, e4);
              later = ground (arith, e1, e2, e3, e4);
              written = ground (arith, e1, e2, e3, e4);
            }
          ]
        ]
      ]
    ]

-- The sum of quoted lines, as an int64 adds it up.
abbrev pub sum_lines : ℤ → List QuotedLine → ℤ
sum_lines total [] = total
sum_lines total (l ∷ ls) = sum_lines (wrap64 (total +ℤ l.line_amount)) ls

sum_lines-append :
    (total : ℤ) (ls ms : List QuotedLine)
    → sum_lines total (ls ++ ms) ≡ sum_lines (sum_lines total ls) ms
sum_lines-append total [] ms = refl
sum_lines-append total (l ∷ ls) ms = sum_lines-append (wrap64 (total +ℤ l.line_amount)) ls ms

-- A line at the price and the commission of the store's offer of the product.
abbrev pub IsSoldAt : Driver → ℕ → List Offer → RequestedLine → QuotedLine → Type 0
IsSoldAt d store offers l q =
    (product : ℕ) × (o : Offer) × (d.parse_uuid l.product_id ≡ some product)
    × (get_offer_for_order store product offers ≡ some o)
    × (q.unit_price ≡ o.price)
    × (q.commission_bps ≡ o.commission_bps)

-- The lines that were quoted for the requested ones, in turn.
abbrev pub IsQuotedFor : Driver → ℕ → List Offer → List RequestedLine → List QuotedLine → Type 0
IsQuotedFor d store offers [] [] = Unit
IsQuotedFor d store offers [] (q ∷ qs) = ⊥
IsQuotedFor d store offers (l ∷ ls) [] = ⊥
IsQuotedFor d store offers (l ∷ ls) (q ∷ qs) =
    (q.product_id ≡ l.product_id)
    × (q.qty ≡ l.qty)
    × (multiply (codes l.qty) q.unit_price ≡ some q.line_amount)
    × IsSoldAt d store offers l q
    × IsQuotedFor d store offers ls qs

abbrev sells : ℕ → ℕ → Offer → Bool
sells store product o =
    is_offer_of store product o
    && (is_published o.status && (o.product_is_active && o.category_is_active))

-- A reservation changes neither the price nor the commission of what is on sale.
get_offer-reserved :
    (store product q id : ℕ) (offers : List Offer) {o : Offer}
    → get_offer_for_order store product (reserve_offer_quantity q id offers) ≡ some o
    → (o' : Offer) × (get_offer_for_order store product offers ≡ some o')
      × (o.price ≡ o'.price)
      × (o.commission_bps ≡ o'.commission_bps)
unfolding get_offer_for_order reserve_offer_quantity
get_offer-reserved store product q id [] h = cc
get_offer-reserved store product q id (x ∷ xs) {o = o} h =
    elim (Bool-cases (sells store product x)) [
      | inl sold ↦ (x, ground (arith, sold), ground (arith, sold), ground (arith, sold))
      | inr other ↦
          let (o', found, price, rate) =
            get_offer-reserved store product q id xs {o = o} (ground (arith, other)) in
          (o', ground (arith, other, found), price, rate)
    ]

IsQuotedFor-reserved :
    (d : Driver) (store q id : ℕ) (offers : List Offer) (ls : List RequestedLine)
    (qs : List QuotedLine)
    → IsQuotedFor d store (reserve_offer_quantity q id offers) ls qs
    → IsQuotedFor d store offers ls qs
IsQuotedFor-reserved d store q id offers [] [] h = tt
IsQuotedFor-reserved d store q id offers [] (m ∷ qs) h = elim h [ ]
IsQuotedFor-reserved d store q id offers (l ∷ ls) [] h = elim h [ ]
IsQuotedFor-reserved d store q id offers (l ∷ ls) (m ∷ qs)
      (p, n, a, (product, o, parsed, found, price, rate), rest) =
    let (o', found', same, same') = get_offer-reserved store product q id offers {o = o} found in
    (
      p,
      n,
      a,
      (product, o', parsed, found', price ∙ same, rate ∙ same'),
      IsQuotedFor-reserved d store q id offers ls qs rest,
    )

-- What a loop over lines adds to a quote.
record Quoted (d : Driver) (store : ℕ) (offers : List Offer) (before : Quote)
    (ls : List RequestedLine) (after : Quote) : Type 0 where
  pub new : List QuotedLine
  pub lines : after.lines ≡ before.lines ++ new
  pub fit : IsQuotedFor d store offers ls new
  pub sum : after.goods_amount ≡ sum_lines before.goods_amount new
  pub later : before.confirmation_deadline ≤ after.confirmation_deadline

Quoted-step :
    (d : Driver) (store at : ℕ) (line : RequestedLine) (ls : List RequestedLine) (db db1 : Db)
    (quote quote1 quote2 : Quote)
    → Held d store at quote line db quote1 db1
    → Quoted d store db1.offers quote1 ls quote2
    → Quoted d store db.offers quote (line ∷ ls) quote2
Quoted-step d store at line ls db db1 quote quote1 quote2 held rest = record {
  new = quoted_line line held.offer held.amount ∷ rest.new;
  lines =
      rw (rest.lines, held.quoted)
        (append_assoc quote.lines (quoted_line line held.offer held.amount ∷ []) rest.new);
  fit = (
    refl,
    refl,
    held.priced,
    (held.product, held.offer, held.product_parsed, held.on_sale, refl, refl),
    IsQuotedFor-reserved d store held.q held.offer.id db.offers ls rest.new
        (subst (λ db. IsQuotedFor d store db.offers ls rest.new) held.written rest.fit),
  );
  sum = rw (rest.sum, held.summed) refl;
  later = omega (arith, held.later, rest.later);
}

reserve_lines-Quoted :
    (d : Driver) (store at : ℕ) (quote : Quote) (ls : List RequestedLine) (db : Db) {quote' : Quote}
    {db' : Db}
    → reserve_lines d store at quote ls db ≡ ok (quote', db')
    → Quoted d store db.offers quote ls quote'
unfolding reserve_lines
reserve_lines-Quoted d store at quote [] db h =
    let (same, _) = ok-injective h in
    rw (← same) (record {
      new = [];
      lines = sym (append-nil quote.lines);
      fit = tt;
      sum = refl;
      later = omega arith;
    })
reserve_lines-Quoted d store at quote (line ∷ ls) db {quote' = quote2} {db' = db2} h =
    let (quote1, db1, first, rest) = >>=-eq-ok (reserve_line d store at quote line) _ db h in
    Quoted-step d store at line ls db db1 quote quote1 quote2
      (reserve_line-Held d store at quote line db first)
      (reserve_lines-Quoted d store at quote1 ls db1 rest)

-- What an order is told that it costs.
pub record IsQuote (d : Driver) (store : ℕ) (offers : List Offer) (request : ReserveRequest)
    (quote : Quote) : Type 0 where
  pub fit : IsQuotedFor d store offers (sort_lines request.lines) quote.lines
  pub goods : quote.goods_amount ≡ sum_lines (pos 0) quote.lines
  pub total : quote.total_amount ≡ wrap64 (quote.goods_amount +ℤ quote.delivery_fee)
  pub pickup : (request.delivery ≡ true) ⊎ (quote.delivery_fee ≡ pos 0)
  pub deadline : request.at ≤ quote.confirmation_deadline

abbrev empty_quote : ReserveRequest → Quote
empty_quote request = record {
  lines = [];
  goods_amount = pos 0;
  delivery_fee = pos 0;
  total_amount = pos 0;
  confirmation_deadline = request.at;
}

delivery_fee-pickup :
    (store : ℕ) (request : ReserveRequest) (db : Db) {fee : ℤ} {db' : Db}
    → delivery_fee store request db ≡ ok (fee, db')
    → (request.delivery ≡ true) ⊎ (fee ≡ pos 0)
unfolding delivery_fee
delivery_fee-pickup store request db h = elim (Bool-cases request.delivery) [
  | inl delivery ↦ inl delivery
  | inr pickup ↦ inr (ground (arith, pickup))
]

delivery_fee-frame :
    (store : ℕ) (request : ReserveRequest) (db : Db) {fee : ℤ} {db' : Db}
    → delivery_fee store request db ≡ ok (fee, db')
    → db' ≡ db
unfolding delivery_fee
delivery_fee-frame store request db h = ground arith

IsQuote-of_parts :
    (d : Driver) (store : ℕ) (offers : List Offer) (request : ReserveRequest) (summed quote : Quote)
    (fee : ℤ)
    → Quoted d store offers (empty_quote request) (sort_lines request.lines) summed
    → ((request.delivery ≡ true) ⊎ (fee ≡ pos 0))
    → record summed { delivery_fee = fee; total_amount = wrap64 (summed.goods_amount +ℤ fee) }
      ≡ quote
    → IsQuote d store offers request quote
IsQuote-of_parts d store offers request summed quote fee q pickup result = rw (← result) (record {
  fit = rw q.lines q.fit;
  goods = rw (q.lines, q.sum) refl;
  total = refl;
  pickup = pickup;
  deadline = q.later;
})

-- The parts of a successful reservation.
pub reserve_order_lines-parts :
    (d : Driver) (request : ReserveRequest) (db : Db) {quote : Quote} {db' : Db}
    → reserve_order_lines d request db ≡ ok (quote, db')
    → (store : ℕ) × (summed : Quote) × (fee : ℤ) × (d.parse_uuid request.store_id ≡ some store)
      × (reserve_lines d store request.at (empty_quote request) (sort_lines request.lines) db
          ≡ ok (summed, db'))
      × ((request.delivery ≡ true) ⊎ (fee ≡ pos 0))
      × (record summed { delivery_fee = fee; total_amount = wrap64 (summed.goods_amount +ℤ fee) }
          ≡ quote)
unfolding reserve_order_lines
reserve_order_lines-parts d request db {quote = quote} {db' = db'} h =
    let (_, db1, filled, h1) =
      >>=-eq-ok (reject_if (is_empty request.lines) offer_unavailable) _ db h in
    let (store, db2, known, h2) =
      >>=-eq-ok (or_throw (d.parse_uuid request.store_id) offer_unavailable) _ db1 h1 in
    let (summed, db3, held, h3) =
      >>=-eq-ok (reserve_lines d store request.at (empty_quote request) (sort_lines request.lines))
        _ db2 h2 in
    let (fee, db4, charged, h4) = >>=-eq-ok (delivery_fee store request) _ db3 h3 in
    let (_, same1) = reject_if-eq-ok (is_empty request.lines) offer_unavailable db filled in
    let (parsed, same2) =
      or_throw-eq-ok (d.parse_uuid request.store_id) offer_unavailable db1 known in
    let (result, final) = ok-injective h4 in
    let same4 = delivery_fee-frame store request db3 {fee = fee} {db' = db4} charged in
    (
      store,
      summed,
      fee,
      parsed,
      cc (held, same1, same2, same4, final),
      delivery_fee-pickup store request db3 {fee = fee} {db' = db4} charged,
      result,
    )

-- A successful reservation quotes the requested lines in the order of their product ids, each at the
-- price and the commission that the store's offer of the product has beforehand; the goods are the sum
-- of the lines, the total is the goods and the delivery fee, a pickup pays no fee, and the deadline is
-- not before the request.
pub reserve_order_lines-IsQuote :
    (d : Driver) (request : ReserveRequest) (db : Db) {quote : Quote} {db' : Db}
    → reserve_order_lines d request db ≡ ok (quote, db')
    → (store : ℕ) × (d.parse_uuid request.store_id ≡ some store)
      × IsQuote d store db.offers request quote
reserve_order_lines-IsQuote d request db {quote = quote} {db' = db'} h =
    let (store, summed, fee, parsed, held, pickup, result) =
      reserve_order_lines-parts d request db {quote = quote} {db' = db'} h in
    (
      store,
      parsed,
      IsQuote-of_parts d store db.offers request summed quote fee
          (reserve_lines-Quoted d store request.at (empty_quote request) (sort_lines request.lines)
            db {quote' = summed} {db' = db'} held)
          pickup result,
    )
