-- ===== src/Catalog/Offers.antt =====
-- The offers of sellers: CreateOffer and UpdateOffer of internal/modules/catalog/service.go and
-- repository.go. Statements has what they read and write.
mod Statements
pub mod Stocked
pub mod Updating
mod Tests
unfoldable pub use Statements.*
use binno_pta_2026_evaluatio.Prelude.{
  ℕ, ◌≡◌, Bool, true, false, not, ◌&&◌, ◌||◌, Option, none, some, List, [], ◌∷◌, ◌++◌, String,
  str_eq, leb, ◌==◌, if◌then◌else◌, find_row, count_rows, update_rows, Result, ok, err, pure, throw,
  gets, modify, or_throw, reject_if, map_err, ◌>>=◌, ◌>>◌,
}
use binno_pta_2026_evaluatio.Prelude.Int.{ℤ, pos, ltb_ℤ, eqb_ℤ}
use binno_pta_2026_evaluatio.Db.{
  Db, Driver, Offer, OfferStatus, published, hidden, archived, Product, offer_created,
  offer_updated,
}
use binno_pta_2026_evaluatio.Money.{is_nonneg_decimal}
use binno_pta_2026_evaluatio.Tx.{Tx, Ending, commit, rollback, run_tx}
use binno_pta_2026_evaluatio.Tx.Dedup.{
  DedupError, key_reuse, key_required, reserve_new, reserve_for,
}
use binno_pta_2026_evaluatio.Authz.{AuthError, ensure_owns_store}
use binno_pta_2026_evaluatio.Catalog.LinePort.{codes}
use binno_pta_2026_evaluatio.Orders.Repository.{write_outbox}
use binno_pta_2026_evaluatio.Orders.Service.{Request}

pub record OfferInput : Type 0 where
  pub store_id : String
  pub product_id : String
  pub declared_qty : String
  pub price : ℤ

pub record OfferUpdate : Type 0 where
  pub id : String
  pub price : Option ℤ
  pub declared_qty : Option String
  pub status : Option String

-- `mapDedupError` of the catalog.
abbrev pub catalog_dedup_error : DedupError → OfferError
catalog_dedup_error key_reuse = conflict
catalog_dedup_error key_required = internal

offer_claimed : Driver → OfferInput → ℕ → ℕ → ℕ → Bool → ℕ → Tx OfferError (Ending ℕ)
unfolding insert_offer
offer_claimed d in_put qty id at true existing = pure (rollback existing)
offer_claimed d in_put qty id at false existing = do
  store ← or_throw (d.parse_uuid in_put.store_id) internal
  product ← or_throw (d.parse_uuid in_put.product_id) internal
  insert_offer id store product in_put.price qty at
  map_err (λ e. internal)
      (write_outbox d (d.uuid_text id)
        (offer_created in_put.store_id in_put.product_id in_put.price in_put.declared_qty))
  pure (commit id)

offer_body : Driver → String → OfferInput → ℕ → ℕ → ℕ → Tx OfferError (Ending ℕ)
unfolding offer_claimed
offer_body d key in_put qty id at = do
  (replay, existing) ← map_err (λ e. internal) (reserve_new key id at)
  offer_claimed d in_put qty id at replay existing

-- `CreateOffer` of the repository; the fresh id is an argument.
unfoldable pub create_offer : Driver → String → OfferInput → ℕ → ℕ → Db → Result OfferError ℕ × Db
unfolding offer_body
create_offer d key in_put id at db = elim (d.parse_numeric in_put.declared_qty) [
  | none ↦ (err invalid, db)
  | some qty ↦ run_tx (offer_body d key in_put qty id at) db
]

abbrev pub with_default : {A : Type 0} → A → Option A → A
with_default a none = a
with_default a (some b) = b

-- The quantity of an update: the given text, or what the offer declares.
new_quantity : Driver → Offer → Option String → Tx OfferError ℕ
new_quantity d o none = pure o.declared_qty
new_quantity d o (some text) = or_throw (d.parse_numeric text) invalid

new_status : ℕ → Offer → Option String → Tx OfferError OfferStatus
unfolding update_offer_status
new_status id o none = pure o.status
new_status id o (some text) = elim (str_eq text (status_text o.status)) [
  | true ↦ pure o.status
  | false ↦ update_offer_status id text
]

update_claimed : Driver → OfferUpdate → ℕ → ℕ → Bool → Tx OfferError (Ending (Unit {0}))
unfolding new_quantity update_offer_values new_status
update_claimed d u id at true = pure (rollback tt)
update_claimed d u id at false = do
  found ← gets (λ db. find_row (λ o. o.id == id) db.offers)
  o ← or_throw found not_found
  qty ← new_quantity d o u.declared_qty
  let price = with_default o.price u.price
  update_offer_values id price qty at
  status ← new_status id o u.status
  map_err (λ e. internal)
      (write_outbox d u.id (
        offer_updated (d.uuid_text o.store_id) (d.uuid_text o.product_id) price (d.numeric_text qty)
          status))
  pure (commit tt)

update_body : Driver → String → OfferUpdate → ℕ → ℕ → Tx OfferError (Ending (Unit {0}))
unfolding update_claimed
update_body d key u id at = do
  replay ← map_err catalog_dedup_error (reserve_for key id at)
  update_claimed d u id at replay

-- `UpdateOffer` of the repository.
unfoldable pub update_offer :
    Driver → String → OfferUpdate → ℕ → Db → Result OfferError (Unit {0}) × Db
unfolding update_body
update_offer d key u at db = elim (d.parse_uuid u.id) [
  | none ↦ (err invalid, db)
  | some id ↦ run_tx (update_body d key u id at) db
]

-- `OfferStore`.
unfoldable pub offer_store : Driver → String → Db → Result OfferError String
offer_store d text db = elim (d.parse_uuid text) [
  | none ↦ err invalid
  | some id ↦ elim (find_row (λ o. o.id == id) db.offers) [
    | none ↦ err not_found
    | some o ↦ ok (d.uuid_text o.store_id)
  ]
]

-- What the service answers: the guard's refusal, or an error of the catalog.
pub data OfferFailure : Type 0 where
  denied : AuthError → OfferFailure
  failed : OfferError → OfferFailure

abbrev pub wrapped : {A : Type 0} → Result OfferError A × Db → Result OfferFailure A × Db
wrapped (ok a, db) = (ok a, db)
wrapped (err e, db) = (err (failed e), db)

unfoldable pub guarded :
    {A : Type 0}
    → Result AuthError (Unit {0})
    → (Db → Result OfferError A × Db)
    → Db
    → Result OfferFailure A × Db
guarded (ok _) run db = wrapped (run db)
guarded (err e) run db = (err (denied e), db)

abbrev pub is_offer_input : Request → OfferInput → Bool
is_offer_input r i =
    r.texts.is_uuid i.store_id
    && r.texts.is_uuid i.product_id
    && ltb_ℤ (pos 0) i.price
    && is_nonneg_decimal (codes i.declared_qty)

-- `CreateOffer` of the service.
unfoldable pub publish_offer : Request → OfferInput → ℕ → Db → Result OfferFailure ℕ × Db
unfolding guarded
publish_offer r i id db =
    if is_offer_input r i
    then guarded (ensure_owns_store r.driver r.owned r.caller i.store_id)
        (create_offer r.driver r.key i id r.at) db
    else (err (failed invalid), db)

abbrev holds_for : {A : Type 0} → (A → Bool) → Option A → Bool
holds_for p none = true
holds_for p (some a) = p a

abbrev is_given : {A : Type 0} → Option A → Bool
is_given none = false
is_given (some _) = true

abbrev pub is_offer_update : Request → OfferUpdate → Bool
is_offer_update r u =
    r.texts.is_uuid u.id
    && (is_given u.price || is_given u.declared_qty || is_given u.status)
    && holds_for (ltb_ℤ (pos 0)) u.price
    && holds_for (λ q. is_nonneg_decimal (codes q)) u.declared_qty
    && holds_for (λ s. str_eq s "published" || str_eq s "hidden") u.status

on_store :
    Request → OfferUpdate → Result OfferError String → Db → Result OfferFailure (Unit {0}) × Db
unfolding guarded
on_store r u (err e) db = (err (failed e), db)
on_store r u (ok store) db =
    guarded (ensure_owns_store r.driver r.owned r.caller store) (update_offer r.driver r.key u r.at)
      db

-- `UpdateOffer` of the service.
unfoldable pub revise_offer : Request → OfferUpdate → Db → Result OfferFailure (Unit {0}) × Db
unfolding on_store
revise_offer r u db =
    if is_offer_update r u
    then on_store r u (offer_store r.driver u.id db) db
    else (err (failed invalid), db)
