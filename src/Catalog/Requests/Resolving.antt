-- ===== src/Catalog/Requests/Resolving.antt =====
-- A catalogue request of internal/modules/catalog/repository.go is decided once.
use binno_pta_2026_evaluatio.Prelude.{
  ℕ, ◌≡◌, ap, Bool, true, false, ◌&&◌, Option, none, some, List, [], ◌∷◌, ◌++◌, String, str_eq,
  arith, ◌==◌, if◌then◌else◌, find_row, update_rows, ok, Result-cases, Option-cases, inl, inr,
}
use binno_pta_2026_evaluatio.Db.{Db, Driver, CatalogRequest, RequestStatus}
use binno_pta_2026_evaluatio.Tx.{Ending}
use binno_pta_2026_evaluatio.Tx.Dedup.{reserve_for, reserve_for-frame, reserve_new}
use binno_pta_2026_evaluatio.Orders.Repository.{write_outbox}
use binno_pta_2026_evaluatio.Orders.Service.{Request}
use binno_pta_2026_evaluatio.Catalog.Offers.{guarded}
use binno_pta_2026_evaluatio.Catalog.Requests.{
  RequestInput, Resolution, create_request, resolve_request, request_product, decide_request,
  for_operator, new_request, decided, is_pending, resolved, resolve_pending, resolve_claimed,
  resolve_body,
}

abbrev pub has_request : ℕ → CatalogRequest → Bool
has_request id q = q.id == id

find_row-resolved :
    (id j at : ℕ) (status : RequestStatus) (product : Option ℕ) (reason : Option String)
    (qs : List CatalogRequest) {q : CatalogRequest}
    → find_row (has_request id) qs ≡ some q
    → is_pending q.status ≡ false
    → find_row (has_request id) (
        update_rows
          (λ x. (x.id == j) && is_pending x.status)
          (resolved status product reason at)
          qs)
      ≡ some q
find_row-resolved id j at status product reason [] h settled = cc
find_row-resolved id j at status product reason (x ∷ qs) {q = q} h settled =
    ground (arith, find_row-resolved id j at status product reason qs {q = q})

find_row-added :
    (id : ℕ) (new : CatalogRequest) (qs : List CatalogRequest) {q : CatalogRequest}
    → find_row (has_request id) qs ≡ some q
    → find_row (has_request id) (qs ++ new ∷ []) ≡ some q
find_row-added id new [] h = cc
find_row-added id new (x ∷ qs) {q = q} h = ground (arith, find_row-added id new qs {q = q})

-- The row is there and decided.
abbrev pub IsDecided : ℕ → CatalogRequest → Db → Type 0
IsDecided id q db = (find_row (has_request id) db.requests ≡ some q) × (is_pending q.status ≡ false)

create_request-IsDecided :
    (d : Driver) (key : String) (i : RequestInput) (new id at : ℕ) (q : CatalogRequest) (db : Db)
    → IsDecided id q db
    → IsDecided id q (create_request d key i new at db).1
unfolding create_request write_outbox reserve_new
create_request-IsDecided d key i new id at q db (found, settled) =
    elim (Option-cases (d.parse_uuid i.store_id)) [
      | inl bad ↦ (ground (arith, found, bad), settled)
      | inr (store, parsed) ↦ (
        ground (
          arith,
          found,
          parsed,
          find_row-added id (new_request new store i at) db.requests {q = q} found,
        ),
        settled,
      )
    ]

resolve_claimed-IsDecided :
    (d : Driver) (i : Resolution) (j id at : ℕ) (replay : Bool) (q : CatalogRequest) (db : Db)
    {e : Ending (Unit {0})} {db' : Db}
    → IsDecided id q db
    → resolve_claimed d i j at replay db ≡ ok (e, db')
    → IsDecided id q db'
unfolding resolve_claimed resolve_pending write_outbox
resolve_claimed-IsDecided d i j id at true q db decision h = ground arith
resolve_claimed-IsDecided d i j id at false q db (found, settled) h =
    elim (Option-cases (
      decided i.status (d.parse_uuid i.product_id)
        (if str_eq i.reject_reason "" then none else some i.reject_reason))) [
          | inl bad ↦ absurd (ground (arith, bad))
          | inr (status, good) ↦ (
            ground (
              arith,
              good,
              find_row-resolved id j at status (d.parse_uuid i.product_id)
                  (if str_eq i.reject_reason "" then none else some i.reject_reason) db.requests
                  {q = q} found settled,
            ),
            settled,
          )
        ]

resolve_request-IsDecided :
    (d : Driver) (key : String) (i : Resolution) (id at : ℕ) (q : CatalogRequest) (db : Db)
    → IsDecided id q db
    → IsDecided id q (resolve_request d key i at db).1
unfolding resolve_request resolve_body
resolve_request-IsDecided d key i id at q db (found, settled) =
    elim (Option-cases (d.parse_uuid i.id)) [
      | inl bad ↦ (ground (arith, bad, found), settled)
      | inr (j, parsed) ↦ elim (Result-cases (reserve_for key j at db)) [
        | inr (e, refused) ↦ (ground (arith, parsed, refused, found), settled)
        | inl ((replay, db1), claimed) ↦
            let same =
              ap (λ (x : Db). x.requests)
                (reserve_for-frame key j at db {replay = replay} {db' = db1} claimed) in
            elim (Result-cases (resolve_claimed d i j at replay db1)) [
              | inr (e, bad) ↦ (ground (arith, parsed, claimed, bad, found), settled)
              | inl ((ending, db2), ran) ↦
                  let (kept, _) =
                    resolve_claimed-IsDecided d i j id at replay q db1 {e = ending} {db' = db2}
                      (rw same found, settled) ran in
                  (ground (arith, parsed, claimed, ran, kept, found), settled)
            ]
      ]
    ]

-- A call about requests, with the id that is drawn for a new one.
pub data RequestCall : Type 0 where
  ask : Request → RequestInput → ℕ → RequestCall
  decide : Request → Resolution → RequestCall

abbrev pub answer_requests : List RequestCall → Db → Db
answer_requests [] db = db
answer_requests (ask r i new ∷ cs) db = answer_requests cs (request_product r i new db).1
answer_requests (decide r i ∷ cs) db = answer_requests cs (decide_request r i db).1

request_product-IsDecided :
    (r : Request) (i : RequestInput) (new id : ℕ) (q : CatalogRequest) (db : Db)
    → IsDecided id q db
    → IsDecided id q (request_product r i new db).1
unfolding request_product guarded
request_product-IsDecided r i new id q db (found, settled) =
    let t : RequestInput = record i {
      name = r.texts.trim_space i.name;
      unit = r.texts.trim_space i.unit;
    } in
    let (kept, _) = create_request-IsDecided r.driver r.key t new id r.at q db (found, settled) in
    (ground (arith, found, kept), settled)

decide_request-IsDecided :
    (r : Request) (i : Resolution) (id : ℕ) (q : CatalogRequest) (db : Db)
    → IsDecided id q db
    → IsDecided id q (decide_request r i db).1
unfolding decide_request for_operator guarded
decide_request-IsDecided r i id q db (found, settled) =
    let (kept, _) = resolve_request-IsDecided r.driver r.key i id r.at q db (found, settled) in
    (ground (arith, found, kept), settled)

-- A catalogue request that is decided stays as it is, with its product, its reason and the instant of
-- the decision, through any sequence of new requests and decisions, whoever calls and under
-- whatever operation keys.
pub answer_requests-IsDecided :
    (calls : List RequestCall) (id : ℕ) (q : CatalogRequest) (db : Db)
    → IsDecided id q db
    → IsDecided id q (answer_requests calls db)
answer_requests-IsDecided [] id q db h = h
answer_requests-IsDecided (ask r i new ∷ cs) id q db h =
    answer_requests-IsDecided cs id q (request_product r i new db).1
      (request_product-IsDecided r i new id q db h)
answer_requests-IsDecided (decide r i ∷ cs) id q db h =
    answer_requests-IsDecided cs id q (decide_request r i db).1
      (decide_request-IsDecided r i id q db h)
