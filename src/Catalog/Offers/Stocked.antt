-- ===== src/Catalog/Offers/Stocked.antt =====
-- Offers stay within their stock and have a price, through the calls of sellers
-- (internal/modules/catalog/service.go and repository.go).
use binno_pta_2026_evaluatio.Prelude.{
  ℕ, ◌≡◌, ap, Bool, true, false, not, ◌&&◌, Option, none, some, List, [], ◌∷◌, ◌++◌, String, arith,
  ◌==◌, All, find_row, count_rows, update_rows, ok, Result-cases, Option-cases, Bool-cases, inl,
  inr,
}
use binno_pta_2026_evaluatio.Prelude.Int.{ℤ, pos, ltb_ℤ}
use binno_pta_2026_evaluatio.Db.{Db, Driver, Offer, OfferStatus, Product}
use binno_pta_2026_evaluatio.Tx.Dedup.{reserve_new, reserve_for, reserve_for-frame}
use binno_pta_2026_evaluatio.Tx.{Ending}
use binno_pta_2026_evaluatio.Orders.Repository.{write_outbox}
use binno_pta_2026_evaluatio.Orders.Service.{Request}
use binno_pta_2026_evaluatio.Catalog.LinePort.Stock.{IsCovered}
use binno_pta_2026_evaluatio.Catalog.Offers.{
  OfferInput, OfferUpdate, create_offer, update_offer, publish_offer, revise_offer, new_offer,
  revalued, restatused, is_listed, is_valued, guarded, on_store, update_body, update_claimed,
  new_quantity, update_offer_values, new_status, update_offer_status, with_default,
}

-- The stock is covered and the price is above zero.
abbrev pub IsOffered : Offer → Type 0
IsOffered o = IsCovered o × (ltb_ℤ (pos 0) o.price ≡ true)

All-append-one :
    (os : List Offer) (o : Offer) → All IsOffered os → IsOffered o → All IsOffered (os ++ o ∷ [])
All-append-one [] o h k = (k, tt)
All-append-one (x ∷ os) o (h, hs) k = (h, All-append-one os o hs k)

create_offer-found :
    (d : Driver) (key : String) (i : OfferInput) (id at product store qty : ℕ) (p : Product)
    (db : Db)
    → d.parse_numeric i.declared_qty ≡ some qty
    → d.parse_uuid i.store_id ≡ some store
    → d.parse_uuid i.product_id ≡ some product
    → find_row (λ p. p.id == product) db.products ≡ some p
    → All IsOffered db.offers
    → All IsOffered (create_offer d key i id at db).1.offers
unfolding create_offer write_outbox reserve_new
create_offer-found d key i id at product store qty p db numbered stored parsed found offered =
    elim (Bool-cases (ltb_ℤ (pos 0) i.price)) [
      | inl priced ↦
          let added =
            All-append-one db.offers (new_offer id store i.price qty at p) offered
              (omega arith, priced) in
          ground (arith, numbered, stored, parsed, found, priced, added)
      | inr free ↦ ground (arith, numbered, stored, parsed, found, free)
    ]

-- An offer that is created reserves nothing.
create_offer-IsOffered :
    (d : Driver) (key : String) (i : OfferInput) (id at : ℕ) (db : Db)
    → All IsOffered db.offers
    → All IsOffered (create_offer d key i id at db).1.offers
unfolding create_offer write_outbox reserve_new
create_offer-IsOffered d key i id at db offered =
    elim (Option-cases (d.parse_numeric i.declared_qty)) [
      | inl bad ↦ ground (arith, bad)
      | inr (qty, numbered) ↦ elim (Option-cases (d.parse_uuid i.store_id)) [
        | inl bad ↦ ground (arith, numbered, bad)
        | inr (store, stored) ↦ elim (Option-cases (d.parse_uuid i.product_id)) [
          | inl bad ↦ ground (arith, numbered, stored, bad)
          | inr (product, parsed) ↦
              elim (Option-cases (find_row (λ p. p.id == product) db.products)) [
                | inl missing ↦ ground (arith, numbered, stored, parsed, missing)
                | inr (p, found) ↦
                    create_offer-found d key i id at product store qty p db numbered stored parsed
                      found offered
              ]
        ]
      ]
    ]

revalued-IsOffered :
    (id qty at : ℕ) (price : ℤ) (os : List Offer)
    → count_rows (λ o. (o.id == id) && not (is_valued price qty o)) os ≡ 0
    → All IsOffered os
    → All IsOffered (update_rows (λ o. o.id == id) (revalued price qty at) os)
revalued-IsOffered id qty at price [] none_bad h = tt
revalued-IsOffered id qty at price (o ∷ os) none_bad (h, hs) =
    (ground arith, revalued-IsOffered id qty at price os (ground arith) hs)

restatused-IsOffered :
    (p : Offer → Bool) (status : OfferStatus) (os : List Offer)
    → All IsOffered os
    → All IsOffered (update_rows p (restatused status) os)
restatused-IsOffered p status [] h = tt
restatused-IsOffered p status (o ∷ os) (h, hs) = (ground arith, restatused-IsOffered p status os hs)

-- The rows after `UpdateOfferValues`.
abbrev revalue : ℕ → ℕ → ℕ → ℤ → Db → Db
revalue id qty at price db = record db {
  offers = update_rows (λ o. o.id == id) (revalued price qty at) db.offers;
}

new_status-IsOffered :
    (id : ℕ) (o : Offer) (text : Option String) (db : Db) {status : OfferStatus} {db' : Db}
    → All IsOffered db.offers
    → new_status id o text db ≡ ok (status, db')
    → All IsOffered db'.offers
unfolding new_status update_offer_status
new_status-IsOffered id o none db offered h = ground arith
new_status-IsOffered id o (some text) db {status = status} {db' = db'} offered h =
    let changed =
      restatused-IsOffered (λ o. (o.id == id) && is_listed o.status) status db.offers offered in
    ground (arith, changed)

update_offer_values-IsOffered :
    (id qty at : ℕ) (price : ℤ) (db : Db) {db' : Db}
    → All IsOffered db.offers
    → update_offer_values id price qty at db ≡ ok (tt, db')
    → All IsOffered db'.offers
unfolding update_offer_values
update_offer_values-IsOffered id qty at price db {db' = db'} offered h =
    elim (Bool-cases
      (count_rows (λ o. (o.id == id) && not (is_valued price qty o)) db.offers == 0)) [
        | inl none_bad ↦
            let kept =
              revalued-IsOffered id qty at price db.offers (ground (arith, none_bad)) offered in
            ground (arith, none_bad, kept)
        | inr some_bad ↦ absurd (ground (arith, some_bad))
      ]

new_quantity-db :
    (d : Driver) (o : Offer) (text : Option String) (db : Db) {qty : ℕ} {db' : Db}
    → new_quantity d o text db ≡ ok (qty, db')
    → db' ≡ db
unfolding new_quantity
new_quantity-db d o none db h = cc
new_quantity-db d o (some text) db h = elim (Option-cases (d.parse_numeric text)) [
  | inl bad ↦ absurd (ground (arith, bad))
  | inr (q, numbered) ↦ ground (arith, numbered)
]

update_claimed-IsOffered :
    (d : Driver) (u : OfferUpdate) (id at : ℕ) (replay : Bool) (db : Db) {e : Ending (Unit {0})}
    {db' : Db}
    → All IsOffered db.offers
    → update_claimed d u id at replay db ≡ ok (e, db')
    → All IsOffered db'.offers
unfolding update_claimed write_outbox
update_claimed-IsOffered d u id at true db offered h = ground arith
update_claimed-IsOffered d u id at false db {db' = db'} offered h =
    elim (Option-cases (find_row (λ o. o.id == id) db.offers)) [
      | inl missing ↦ absurd (ground (arith, missing))
      | inr (o, found) ↦ elim (Result-cases (new_quantity d o u.declared_qty db)) [
        | inr (e, bad) ↦ absurd (ground (arith, found, bad))
        | inl ((qty, db1), counted) ↦
            let price = with_default o.price u.price in
            let same = new_quantity-db d o u.declared_qty db {qty = qty} {db' = db1} counted in
            elim (Result-cases (update_offer_values id price qty at db1)) [
              | inr (e, bad) ↦ absurd (ground (arith, found, counted, bad))
              | inl ((v, db2), valued) ↦
                  let kept =
                    update_offer_values-IsOffered id qty at price db1 {db' = db2} (rw same offered)
                      valued in
                  elim (Result-cases (new_status id o u.status db2)) [
                    | inr (e, bad) ↦ absurd (ground (arith, found, counted, valued, bad))
                    | inl ((status, db3), chosen) ↦
                        let last =
                          new_status-IsOffered id o u.status db2 {status = status} {db' = db3} kept
                            chosen in
                        ground (arith, found, counted, valued, chosen, last)
                  ]
            ]
      ]
    ]

update_offer-IsOffered :
    (d : Driver) (key : String) (u : OfferUpdate) (at : ℕ) (db : Db)
    → All IsOffered db.offers
    → All IsOffered (update_offer d key u at db).1.offers
unfolding update_offer update_body
update_offer-IsOffered d key u at db offered = elim (Option-cases (d.parse_uuid u.id)) [
  | inl bad ↦ ground (arith, bad)
  | inr (id, parsed) ↦ elim (Result-cases (reserve_for key id at db)) [
    | inr (e, refused) ↦ ground (arith, parsed, refused)
    | inl ((replay, db1), claimed) ↦
        let same =
          ap (λ (x : Db). x.offers)
            (reserve_for-frame key id at db {replay = replay} {db' = db1} claimed) in
        elim (Result-cases (update_claimed d u id at replay db1)) [
          | inr (e, bad) ↦ ground (arith, parsed, claimed, bad)
          | inl ((ending, db2), done) ↦
              let kept =
                update_claimed-IsOffered d u id at replay db1 {e = ending} {db' = db2}
                  (rw same offered) done in
              ground (arith, parsed, claimed, done, kept)
        ]
  ]
]

-- A call of a seller, with the id that is drawn for a new offer.
pub data SellerCall : Type 0 where
  submit : Request → OfferInput → ℕ → SellerCall
  revise : Request → OfferUpdate → SellerCall

abbrev pub answer_call : SellerCall → Db → Db
answer_call (submit r i id) db = (publish_offer r i id db).1
answer_call (revise r u) db = (revise_offer r u db).1

abbrev pub answer_calls : List SellerCall → Db → Db
answer_calls [] db = db
answer_calls (c ∷ cs) db = answer_calls cs (answer_call c db)

answer_call-IsOffered :
    (c : SellerCall) (db : Db) → All IsOffered db.offers → All IsOffered (answer_call c db).offers
unfolding publish_offer revise_offer on_store guarded
answer_call-IsOffered (submit r i id) db offered =
    ground (arith, create_offer-IsOffered r.driver r.key i id r.at db offered)
answer_call-IsOffered (revise r u) db offered =
    ground (arith, update_offer-IsOffered r.driver r.key u r.at db offered)

-- Through any sequence of calls of sellers that publish and revise offers, whoever calls and however
-- each call ends: no offer reserves more than it declares and every price is above zero, if it was so before.
pub answer_calls-IsOffered :
    (calls : List SellerCall) (db : Db)
    → All IsOffered db.offers
    → All IsOffered (answer_calls calls db).offers
answer_calls-IsOffered [] db offered = offered
answer_calls-IsOffered (c ∷ cs) db offered =
    answer_calls-IsOffered cs (answer_call c db) (answer_call-IsOffered c db offered)
