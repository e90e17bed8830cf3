-- ===== src/Catalog/Requests.antt =====
-- The requests of sellers for missing products: CreateCatalogRequest and ResolveCatalogRequest of
-- internal/modules/catalog/service.go and repository.go, with their statements.
pub mod Resolving
mod Tests
use binno_pta_2026_evaluatio.Prelude.{
  ℕ, ◌+◌, ◌*◌, ◌≡◌, Bool, true, false, not, ◌&&◌, ◌||◌, Option, none, some, List, [], ◌∷◌, ◌++◌,
  String, str_eq, leb, ◌==◌, if◌then◌else◌, find_row, count_rows, update_rows, Result, ok, err,
  pure, throw, gets, modify, or_throw, reject_if, map_err, ◌>>=◌, ◌>>◌,
}
use binno_pta_2026_evaluatio.Db.{
  Db, Driver, CatalogRequest, RequestStatus, pending, added, rejected, catalog_requested,
  catalog_request_resolved, hour,
}
use binno_pta_2026_evaluatio.Tx.{Tx, Ending, commit, rollback, run_tx}
use binno_pta_2026_evaluatio.Tx.Dedup.{reserve_new, reserve_for}
use binno_pta_2026_evaluatio.Authz.{AuthError, Role, ensure_owns_store, require_role}
use binno_pta_2026_evaluatio.Orders.Repository.{write_outbox}
use binno_pta_2026_evaluatio.Orders.Service.{Request, byte_length}
use binno_pta_2026_evaluatio.Orders.Placement.{optional}
use binno_pta_2026_evaluatio.Catalog.Offers.{
  OfferError, invalid, conflict, not_found, internal, OfferFailure, denied, failed,
  catalog_dedup_error, guarded,
}

abbrev pub catalog_request_sla : ℕ
catalog_request_sla = 24 * hour

pub record RequestInput : Type 0 where
  pub store_id : String
  pub name : String
  pub unit : String
  pub description : String
  pub image_url : String

pub record Resolution : Type 0 where
  pub id : String
  pub status : String
  pub product_id : String
  pub reject_reason : String

abbrev pub new_request : ℕ → ℕ → RequestInput → ℕ → CatalogRequest
new_request id store i at = record {
  id = id;
  store_id = store;
  name = i.name;
  unit = i.unit;
  description = optional i.description;
  image_url = optional i.image_url;
  status = pending;
  product_id = none;
  reject_reason = none;
  resolved_at = none;
  created_at = at;
}

-- The references and the key of a new row.
abbrev is_requestable : ℕ → ℕ → Db → Bool
is_requestable id store db =
    (count_rows (λ q. q.id == id) db.requests == 0)
    && not (count_rows (λ s. s.store_id == store) db.stores == 0)

request_claimed : Driver → RequestInput → ℕ → ℕ → Bool → ℕ → Tx OfferError (Ending ℕ)
request_claimed d i id at true existing = pure (rollback existing)
request_claimed d i id at false existing = do
  store ← or_throw (d.parse_uuid i.store_id) internal
  free ← gets (is_requestable id store)
  reject_if (not free) conflict
  modify (λ db. record db { requests = db.requests ++ new_request id store i at ∷ [] })
  map_err (λ e. internal)
      (write_outbox d (d.uuid_text id)
        (catalog_requested i.store_id i.name i.unit (at + catalog_request_sla)))
  pure (commit id)

request_body : Driver → String → RequestInput → ℕ → ℕ → Tx OfferError (Ending ℕ)
unfolding request_claimed
request_body d key i id at = do
  (replay, existing) ← map_err (λ e. internal) (reserve_new key id at)
  request_claimed d i id at replay existing

-- `CreateCatalogRequest` of the repository; the fresh id is an argument.
unfoldable pub create_request :
    Driver → String → RequestInput → ℕ → ℕ → Db → Result OfferError ℕ × Db
unfolding request_body
create_request d key i id at db = run_tx (request_body d key i id at) db

-- `rejected` wants a reason, `added` a product, and other texts are refused by the column.
abbrev pub decided : String → Option ℕ → Option String → Option RequestStatus
decided text product reason =
    if str_eq text "added"
    then elim product [ none ↦ none | some _ ↦ some added ]
    else if str_eq text "rejected"
    then elim reason [ none ↦ none | some _ ↦ some rejected ]
    else if str_eq text "pending"
    then some pending
    else none

abbrev is_known : Option ℕ → Db → Bool
is_known none db = true
is_known (some product) db = not (count_rows (λ p. p.id == product) db.products == 0)

abbrev pub is_pending : RequestStatus → Bool
is_pending pending = true
is_pending added = false
is_pending rejected = false

abbrev pub resolved : RequestStatus → Option ℕ → Option String → ℕ → CatalogRequest → CatalogRequest
resolved status product reason at q = record q {
  status = status;
  product_id = product;
  reject_reason = reason;
  resolved_at = some at;
}

resolve_pending : Driver → Resolution → ℕ → ℕ → CatalogRequest → Tx OfferError (Ending (Unit {0}))
resolve_pending d i id at q = do
  let product = d.parse_uuid i.product_id
  status ← or_throw (decided i.status product (optional i.reject_reason)) conflict
  known ← gets (is_known product)
  reject_if (not known) conflict
  modify (λ db. record db {
    requests =
        update_rows (λ x. (x.id == id) && is_pending x.status)
          (resolved status product (optional i.reject_reason) at) db.requests;
  })
  map_err (λ e. internal)
      (write_outbox d i.id
        (catalog_request_resolved (d.uuid_text q.store_id) status i.product_id i.reject_reason))
  pure (commit tt)

resolve_claimed : Driver → Resolution → ℕ → ℕ → Bool → Tx OfferError (Ending (Unit {0}))
unfolding resolve_pending
resolve_claimed d i id at true = pure (rollback tt)
resolve_claimed d i id at false = do
  found ← gets (λ db. find_row (λ q. q.id == id) db.requests)
  q ← or_throw found not_found
  reject_if (not (is_pending q.status)) conflict
  resolve_pending d i id at q

resolve_body : Driver → String → Resolution → ℕ → ℕ → Tx OfferError (Ending (Unit {0}))
unfolding resolve_claimed
resolve_body d key i id at = do
  replay ← map_err catalog_dedup_error (reserve_for key id at)
  resolve_claimed d i id at replay

-- `ResolveCatalogRequest` of the repository.
unfoldable pub resolve_request :
    Driver → String → Resolution → ℕ → Db → Result OfferError (Unit {0}) × Db
unfolding resolve_body
resolve_request d key i at db = elim (d.parse_uuid i.id) [
  | none ↦ (err invalid, db)
  | some id ↦ run_tx (resolve_body d key i id at) db
]

abbrev trimmed : Request → RequestInput → RequestInput
trimmed r i = record i { name = r.texts.trim_space i.name; unit = r.texts.trim_space i.unit }

abbrev is_request_input : Request → RequestInput → Bool
is_request_input r i =
    r.texts.is_uuid i.store_id
    && not (str_eq i.name "")
    && leb (byte_length i.name) 200
    && not (str_eq i.unit "")
    && leb (byte_length i.unit) 30
    && leb (byte_length i.description) 2000

-- `CreateCatalogRequest` of the service.
unfoldable pub request_product : Request → RequestInput → ℕ → Db → Result OfferFailure ℕ × Db
unfolding guarded
request_product r i id db =
    let t = trimmed r i in
    if is_request_input r t
    then guarded (ensure_owns_store r.driver r.owned r.caller t.store_id)
        (create_request r.driver r.key t id r.at) db
    else (err (failed invalid), db)

abbrev is_resolution : Request → Resolution → Bool
is_resolution r i =
    r.texts.is_uuid i.id
    && (str_eq i.status "added" || str_eq i.status "rejected")
    && (not (str_eq i.status "added") || r.texts.is_uuid i.product_id)
    && (not (str_eq i.status "rejected") || not (str_eq (r.texts.trim_space i.reject_reason) ""))
    && leb (byte_length i.reject_reason) 1000

-- The service's answer to an operator.
for_operator :
    {A : Type 0}
    → Result AuthError A
    → Request
    → Resolution
    → Db
    → Result OfferFailure (Unit {0}) × Db
unfolding guarded
for_operator (err e) r i db = (err (denied e), db)
for_operator (ok _) r i db =
    if is_resolution r i
    then guarded (ok tt) (resolve_request r.driver r.key i r.at) db
    else (err (failed invalid), db)

-- `ResolveCatalogRequest` of the service.
unfoldable pub decide_request : Request → Resolution → Db → Result OfferFailure (Unit {0}) × Db
unfolding for_operator
decide_request r i db = for_operator (require_role r.caller Role.operator) r i db
