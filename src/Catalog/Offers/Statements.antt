-- ===== src/Catalog/Offers/Statements.antt =====
-- The statements on offers of internal/modules/catalog/store/queries.sql.go, with the constraints of
-- catalog.offers and `mapError` of repository.go.
use binno_pta_2026_evaluatio.Prelude.{
  ℕ, Bool, true, false, not, ◌&&◌, Option, none, some, [], ◌∷◌, ◌++◌, String, str_eq, leb, ◌==◌,
  if◌then◌else◌, find_row, count_rows, update_rows, pure, gets, modify, or_throw, reject_if, ◌>>=◌,
  ◌>>◌,
}
use binno_pta_2026_evaluatio.Prelude.Int.{ℤ, pos, ltb_ℤ, eqb_ℤ}
use binno_pta_2026_evaluatio.Db.{Db, Offer, OfferStatus, published, hidden, archived, Product}
use binno_pta_2026_evaluatio.Tx.{Tx}

-- `ErrInvalid`, `ErrConflict`, `ErrNotFound`, and any other error.
pub data OfferError : Type 0 where
  invalid conflict not_found internal : OfferError

-- The constraints of catalog.offers and the references of a new row.
abbrev pub is_offerable : ℕ → ℕ → ℕ → ℤ → Db → Bool
is_offerable id store product price db =
    ltb_ℤ (pos 0) price
    && (count_rows (λ o. o.id == id) db.offers == 0)
    && (count_rows (λ o. (o.store_id == store) && (o.product_id == product)) db.offers == 0)
    && not (count_rows (λ s. s.store_id == store) db.stores == 0)

abbrev pub new_offer : ℕ → ℕ → ℤ → ℕ → ℕ → Product → Offer
new_offer id store price qty at p = record {
  id = id;
  store_id = store;
  product_id = p.id;
  price = price;
  declared_qty = qty;
  reserved_qty = 0;
  freshness_at = at;
  status = published;
  product_is_active = p.is_active;
  category_is_active = p.category_is_active;
  confirm_window_minutes = p.confirm_window_minutes;
  commission_bps = p.commission_bps;
}

-- `CreateOffer` of the store package, with `mapError`: a broken constraint is a conflict.
unfoldable pub insert_offer : ℕ → ℕ → ℕ → ℤ → ℕ → ℕ → Tx OfferError (Unit {0})
insert_offer id store product price qty at = do
  found ← gets (λ db. find_row (λ p. p.id == product) db.products)
  p ← or_throw found conflict
  free ← gets (is_offerable id store product price)
  reject_if (not free) conflict
  modify (λ db. record db { offers = db.offers ++ new_offer id store price qty at p ∷ [] })

abbrev pub status_text : OfferStatus → String
status_text published = "published"
status_text hidden = "hidden"
status_text archived = "archived"

-- The statuses that a text names, for the constraint of the column.
abbrev status_named : String → Option OfferStatus
status_named text =
    if str_eq text "published"
    then some published
    else if str_eq text "hidden"
    then some hidden
    else if str_eq text "archived"
    then some archived
    else none

-- The row that `UpdateOfferValues` writes.
abbrev pub revalued : ℤ → ℕ → ℕ → Offer → Offer
revalued price qty at o = record o {
  price = price;
  declared_qty = qty;
  freshness_at = if eqb_ℤ o.price price && (o.declared_qty == qty) then o.freshness_at else at;
}

abbrev pub is_valued : ℤ → ℕ → Offer → Bool
is_valued price qty o = ltb_ℤ (pos 0) price && leb o.reserved_qty qty

-- `UpdateOfferValues`, with the constraints of the columns.
unfoldable pub update_offer_values : ℕ → ℤ → ℕ → ℕ → Tx OfferError (Unit {0})
update_offer_values id price qty at = do
  bad ← gets (λ db. count_rows (λ o. (o.id == id) && not (is_valued price qty o)) db.offers)
  reject_if (not (bad == 0)) conflict
  modify
      (λ db. record db { offers = update_rows (λ o. o.id == id) (revalued price qty at) db.offers })

abbrev pub is_listed : OfferStatus → Bool
is_listed published = true
is_listed hidden = true
is_listed archived = false

abbrev pub restatused : OfferStatus → Offer → Offer
restatused status o = record o { status = status }

-- `UpdateOfferStatus`: no row is a conflict.
unfoldable pub update_offer_status : ℕ → String → Tx OfferError OfferStatus
update_offer_status id text = do
  status ← or_throw (status_named text) conflict
  found ← gets (λ db. count_rows (λ o. (o.id == id) && is_listed o.status) db.offers)
  reject_if (found == 0) conflict
  modify (λ db. record db {
    offers = update_rows (λ o. (o.id == id) && is_listed o.status) (restatused status) db.offers;
  })
  pure status
