-- ===== src/Catalog/Offers/Updating.antt =====
-- What a revision by `UpdateOffer` of internal/modules/catalog/service.go and repository.go leaves.
use binno_pta_2026_evaluatio.Prelude.{
  ℕ, ◌≡◌, ◌≢◌, refl, ap, ◌∙◌, Bool, true, false, ◌&&◌, Option, none, some, List, [], ◌∷◌, String,
  arith, ◌==◌, find_row, update_rows, ok, Option-cases, Bool-cases, Result-cases, inl, inr, ◌⊎◌,
}
use binno_pta_2026_evaluatio.Prelude.Int.{ℤ}
use binno_pta_2026_evaluatio.Db.{Db, Driver, Offer, OfferStatus}
use binno_pta_2026_evaluatio.Tx.{Ending, commit}
use binno_pta_2026_evaluatio.Tx.Dedup.{reserve_for}
use binno_pta_2026_evaluatio.Authz.{ensure_owns_store}
use binno_pta_2026_evaluatio.Authz.Owning.{OwnsStore, ensure_owns_store-OwnsStore}
use binno_pta_2026_evaluatio.Orders.Repository.{write_outbox}
use binno_pta_2026_evaluatio.Orders.Repository.Replay.{IsBound, reserve_for-cases}
use binno_pta_2026_evaluatio.Orders.Service.{Request}
use binno_pta_2026_evaluatio.Catalog.Offers.{
  OfferUpdate, update_offer, revise_offer, guarded, on_store, offer_store, is_offer_update,
  revalued, restatused, is_listed, with_default, new_quantity, new_status, update_offer_status,
  update_offer_values, update_claimed, update_body,
}

abbrev pub of_id : ℕ → Offer → Bool
of_id id o = o.id == id

-- The declared quantity that an update asks for.
abbrev pub IsQuantity : Driver → Offer → Option String → ℕ → Type 0
IsQuantity d o none qty = qty ≡ o.declared_qty
IsQuantity d o (some text) qty = d.parse_numeric text ≡ some qty

-- One offer has the price and the quantity that were asked for, in the same store and for the same
-- product, with what it reserves; other offers are as before.
pub record Revised (d : Driver) (u : OfferUpdate) (id : ℕ) (o : Offer) (before after : List Offer)
    : Type 0 where
  pub new : Offer
  pub found : find_row (of_id id) after ≡ some new
  pub same_store : new.store_id ≡ o.store_id
  pub same_product : new.product_id ≡ o.product_id
  pub held : new.reserved_qty ≡ o.reserved_qty
  pub priced : new.price ≡ with_default o.price u.price
  pub quantity : IsQuantity d o u.declared_qty new.declared_qty
  pub others : (j : ℕ) → j ≢ id → find_row (of_id j) after ≡ find_row (of_id j) before

find-revalued :
    (id qty at : ℕ) (price : ℤ) (os : List Offer) {o : Offer}
    → find_row (of_id id) os ≡ some o
    → find_row (of_id id) (update_rows (of_id id) (revalued price qty at) os)
      ≡ some (revalued price qty at o)
find-revalued id qty at price [] h = cc
find-revalued id qty at price (x ∷ os) {o = o} h =
    ground (arith, find-revalued id qty at price os {o = o})

others-revalued :
    (id j qty at : ℕ) (price : ℤ) (os : List Offer)
    → j ≢ id
    → find_row (of_id j) (update_rows (of_id id) (revalued price qty at) os) ≡ find_row (of_id j) os
others-revalued id j qty at price [] differ = refl
others-revalued id j qty at price (x ∷ os) differ =
    ground (arith, others-revalued id j qty at price os differ)

abbrev of_listed : ℕ → Offer → Bool
of_listed id o = (o.id == id) && is_listed o.status

-- An offer but for its status.
abbrev IsSameButStatus : Offer → Offer → Type 0
IsSameButStatus o o' =
    (o'.store_id ≡ o.store_id)
    × (o'.product_id ≡ o.product_id)
    × (o'.reserved_qty ≡ o.reserved_qty)
    × (o'.price ≡ o.price)
    × (o'.declared_qty ≡ o.declared_qty)

find-restatused :
    (id : ℕ) (status : OfferStatus) (os : List Offer) {o : Offer}
    → find_row (of_id id) os ≡ some o
    → (o' : Offer) × (find_row (of_id id) (update_rows (of_listed id) (restatused status) os)
        ≡ some o')
      × IsSameButStatus o o'
find-restatused id status [] h = cc
find-restatused id status (x ∷ os) {o = o} h = elim (Bool-cases (x.id == id)) [
  | inr other ↦
      let (o', found, same) = find-restatused id status os {o = o} (ground (arith, other)) in
      (o', ground (arith, other, found), same)
  | inl here ↦ elim (Bool-cases (is_listed x.status)) [
    | inl listed ↦ (
      restatused status x,
      ground (arith, here, listed),
      same_but_status (restatused status x) (refl, refl, refl, refl, refl) (ground (arith, here)),
    )
    | inr shut ↦ (
      x,
      ground (arith, here, shut),
      same_but_status x (refl, refl, refl, refl, refl) (ground (arith, here)),
    )
  ]
]
  where
    same_but_status : (o' : Offer) → IsSameButStatus x o' → x ≡ o → IsSameButStatus o o'
    same_but_status o' same is = rw is at same

others-restatused :
    (id j : ℕ) (status : OfferStatus) (os : List Offer)
    → j ≢ id
    → find_row (of_id j) (update_rows (of_listed id) (restatused status) os) ≡ find_row (of_id j) os
others-restatused id j status [] differ = refl
others-restatused id j status (x ∷ os) differ =
    ground (arith, others-restatused id j status os differ)

-- The status is left, or written to the rows of the offer that are not archived.
new_status-offers :
    (id : ℕ) (o : Offer) (text : Option String) (db : Db) {status : OfferStatus} {db' : Db}
    → new_status id o text db ≡ ok (status, db')
    → (db'.offers ≡ db.offers)
      ⊎ (db'.offers ≡ update_rows (of_listed id) (restatused status) db.offers)
unfolding new_status update_offer_status
new_status-offers id o none db h = inl (ground arith)
new_status-offers id o (some text) db h = ground arith

new_quantity-IsQuantity :
    (d : Driver) (o : Offer) (text : Option String) (db : Db) {qty : ℕ} {db' : Db}
    → new_quantity d o text db ≡ ok (qty, db')
    → (db' ≡ db) × IsQuantity d o text qty
unfolding new_quantity
new_quantity-IsQuantity d o none db h = (ground arith, ground arith)
new_quantity-IsQuantity d o (some text) db h = elim (Option-cases (d.parse_numeric text)) [
  | inl bad ↦ absurd (ground (arith, bad))
  | inr (q, numbered) ↦ (ground (arith, numbered), ground (arith, numbered))
]

-- The offers that both statements leave.
Revised-of_parts :
    (d : Driver) (u : OfferUpdate) (id at qty : ℕ) (o : Offer) (status : OfferStatus)
    (before between after : List Offer)
    → find_row (of_id id) before ≡ some o
    → IsQuantity d o u.declared_qty qty
    → between ≡ update_rows (of_id id) (revalued (with_default o.price u.price) qty at) before
    → (after ≡ between) ⊎ (after ≡ update_rows (of_listed id) (restatused status) between)
    → Revised d u id o before after
Revised-of_parts d u id at qty o status before between after found counted valued (inl same) =
    let price = with_default o.price u.price in
    record {
      new = revalued price qty at o;
      found = ap (find_row (of_id id)) (same ∙ valued) ∙ find-revalued id qty at price before found;
      same_store = refl;
      same_product = refl;
      held = refl;
      priced = refl;
      quantity = counted;
      others = λ j differ.
          ap (find_row (of_id j)) (same ∙ valued) ∙ others-revalued id j qty at price before differ;
    }
Revised-of_parts d u id at qty o status before between after found counted valued (inr changed) =
    let price = with_default o.price u.price in
    let here = ap (find_row (of_id id)) valued ∙ find-revalued id qty at price before found in
    let (o', found', (store, product, held, cost, declared)) =
      find-restatused id status between {o = revalued price qty at o} here in
    record {
      new = o';
      found = ap (find_row (of_id id)) changed ∙ found';
      same_store = store;
      same_product = product;
      held = held;
      priced = cost;
      quantity = rw declared counted;
      others = λ j differ.
          ap (find_row (of_id j)) changed
          ∙ (others-restatused id j status between differ
              ∙ (ap (find_row (of_id j)) valued ∙ others-revalued id j qty at price before differ));
    }

update_offer_values-offers :
    (id qty at : ℕ) (price : ℤ) (db : Db) {db' : Db}
    → update_offer_values id price qty at db ≡ ok (tt, db')
    → db'.offers ≡ update_rows (of_id id) (revalued price qty at) db.offers
unfolding update_offer_values
update_offer_values-offers id qty at price db h = ground arith

-- What a claimed revision did.
abbrev IsRevision : Driver → OfferUpdate → ℕ → Db → Ending (Unit {0}) → Db → Type 0
IsRevision d u id db e db' =
    (e ≡ commit tt)
    × (o : Offer) × (find_row (of_id id) db.offers ≡ some o)
    × Revised d u id o db.offers db'.offers

update_claimed-IsRevision :
    (d : Driver) (u : OfferUpdate) (id at : ℕ) (db : Db) {e : Ending (Unit {0})} {db' : Db}
    → update_claimed d u id at false db ≡ ok (e, db')
    → IsRevision d u id db e db'
unfolding update_claimed write_outbox
update_claimed-IsRevision d u id at db {e = e} {db' = db'} h =
    elim (Option-cases (find_row (of_id id) db.offers)) [
      | inl missing ↦ absurd (ground (arith, missing))
      | inr (o, found) ↦ elim (Result-cases (new_quantity d o u.declared_qty db)) [
        | inr (x, bad) ↦ absurd (ground (arith, found, bad))
        | inl ((qty, db1), counted) ↦
            let price = with_default o.price u.price in
            let (same, asked) =
              new_quantity-IsQuantity d o u.declared_qty db {qty = qty} {db' = db1} counted in
            elim (Result-cases (update_offer_values id price qty at db1)) [
              | inr (x, bad) ↦ absurd (ground (arith, found, counted, bad))
              | inl ((v, db2), valued) ↦ elim (Result-cases (new_status id o u.status db2)) [
                | inr (x, bad) ↦ absurd (ground (arith, found, counted, valued, bad))
                | inl ((status, db3), chosen) ↦
                    let written =
                      update_offer_values-offers id qty at price db1 {db' = db2} valued in
                    let last =
                      new_status-offers id o u.status db2 {status = status} {db' = db3} chosen in
                    let final : db3.offers ≡ db'.offers =
                      ground (arith, found, counted, valued, chosen) in
                    (
                      ground (arith, found, counted, valued, chosen),
                      o,
                      found,
                      Revised-of_parts d u id at qty o status db.offers db2.offers db'.offers found
                          asked (rw same at written) (rw final at last),
                    )
              ]
            ]
      ]
    ]

-- A repetition under a key that is bound to the offer changes nothing; else the offer is revised.
abbrev pub IsUpdated : Driver → String → OfferUpdate → ℕ → Offer → Db → Db → Type 0
IsUpdated d key u id o db db' =
    (IsBound key id db × (db' ≡ db)) ⊎ Revised d u id o db.offers db'.offers

update_offer-IsUpdated :
    (d : Driver) (key : String) (u : OfferUpdate) (id at : ℕ) (o : Offer) (db : Db)
    → d.parse_uuid u.id ≡ some id
    → find_row (of_id id) db.offers ≡ some o
    → (update_offer d key u at db).0 ≡ ok tt
    → IsUpdated d key u id o db (update_offer d key u at db).1
unfolding update_offer update_body
update_offer-IsUpdated d key u id at o db parsed found h =
    elim (Result-cases (reserve_for key id at db)) [
      | inr (x, refused) ↦ absurd (ground (arith, parsed, refused))
      | inl ((replay, db1), claimed) ↦
          elim (reserve_for-cases key id at db {replay = replay} {db' = db1} claimed) [
            | inr (again, bound, _) ↦ inl (bound, replayed again claimed)
            | inl (fresh, _, added) ↦ elim (Result-cases (update_claimed d u id at false db1)) [
              | inr (x, bad) ↦ absurd (ground (arith, parsed, claimed, fresh, bad))
              | inl ((e, db2), ran) ↦
                  let (committed, o', found', revised) =
                    update_claimed-IsRevision d u id at db1 {e = e} {db' = db2} ran in
                  let same : db1.offers ≡ db.offers = ap (λ (x : Db). x.offers) added in
                  let one : o' ≡ o = ground (arith, found, found', same) in
                  let final : db2 ≡ (update_offer d key u at db).1 =
                    ground (arith, parsed, claimed, fresh, ran, committed) in
                  inr (rw (← final) (rw same at (rw one at revised)))
            ]
          ]
    ]
  where
    replayed :
        {replay : Bool} {db1 : Db}
        → replay ≡ true
        → reserve_for key id at db ≡ ok (replay, db1)
        → (update_offer d key u at db).1 ≡ db
    replayed again claimed = ground (arith, parsed, again, claimed)

-- A revision that succeeds names an offer, and comes from a signed-in seller whose user owns the store
-- of that offer. Unless it repeats a request under a key that is bound to this offer, and changes
-- nothing, the offer then has the price and the quantity that were asked for, or its own where none
-- was, in the same store and for the same product, and reserves what it did; every other offer is as
-- before.
pub revise_offer-owned :
    (r : Request) (u : OfferUpdate) (db : Db)
    → (revise_offer r u db).0 ≡ ok tt
    → (id : ℕ) × (o : Offer) × (r.driver.parse_uuid u.id ≡ some id)
      × (find_row (of_id id) db.offers ≡ some o)
      × OwnsStore r.driver r.owned r.caller o.store_id
      × IsUpdated r.driver r.key u id o db (revise_offer r u db).1
unfolding revise_offer on_store guarded offer_store
revise_offer-owned r u db h = elim (Bool-cases (is_offer_update r u)) [
  | inr bad ↦ absurd (ground (arith, bad))
  | inl good ↦ elim (Option-cases (r.driver.parse_uuid u.id)) [
    | inl bad ↦ absurd (ground (arith, good, bad))
    | inr (id, parsed) ↦ elim (Option-cases (find_row (of_id id) db.offers)) [
      | inl bad ↦ absurd (ground (arith, good, parsed, bad))
      | inr (o, found) ↦
          let admitted : ensure_owns_store r.driver r.owned r.caller (r.driver.uuid_text o.store_id)
              ≡ ok tt =
            ground (arith, good, parsed, found) in
          let done : (update_offer r.driver r.key u r.at db).0 ≡ ok tt =
            ground (arith, good, parsed, found) in
          let same : (revise_offer r u db).1 ≡ (update_offer r.driver r.key u r.at db).1 =
            ground (arith, good, parsed, found) in
          (
            id,
            o,
            parsed,
            found,
            ensure_owns_store-OwnsStore r.driver r.owned r.caller o.store_id admitted,
            rw same (update_offer-IsUpdated r.driver r.key u id r.at o db parsed found done),
          )
    ]
  ]
]
