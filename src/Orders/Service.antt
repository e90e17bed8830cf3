-- ===== src/Orders/Service.antt =====
-- internal/modules/orders/service.go: who may take which step of an order. What the code asks of
-- google/uuid, strings and net/url is a parameter.
pub mod Access
pub mod Refusals
mod Tests
use Prim.Native.Char.{len_utf8}
use binno_pta_2026_evaluatio.Prelude.{
  ℕ, ◌+◌, Bool, true, false, not, ◌&&◌, ◌||◌, Option, none, some, List, [], ◌∷◌, String, str_eq,
  ltb, ◌==◌, if◌then◌else◌, Result, ok, err,
}
use binno_pta_2026_evaluatio.Db.{Db, Driver, Order}
use binno_pta_2026_evaluatio.Authz.{
  Principal, AuthError, unauthenticated, forbidden, Role, Ownership, require, require_role,
  ensure_self, ensure_owns_store,
}
use binno_pta_2026_evaluatio.Orders.Status.{
  Status, Trigger, supplier_confirm, supplier_decline, buyer_cancel, confirm_pickup, submit_receipt,
  confirm_payment, reject_payment, start_preparing, mark_ready, confirm_delivery, refund_request,
  confirm_refund,
}
use binno_pta_2026_evaluatio.Orders.Errors.{Error, invalid, not_found}
use binno_pta_2026_evaluatio.Orders.Repository.{TransitionCommand, apply, confirm_token, get_order}

-- A parsed URL, as far as the code reads it.
pub record Url : Type 0 where
  pub scheme : String
  pub host : String

-- `uuid.Validate`, `strings.TrimSpace`, `url.Parse` and the printed SHA-256 of a token.
pub record Texts : Type 0 where
  pub is_uuid : String → Bool
  pub trim_space : String → String
  pub parse_url : String → Option Url
  pub digest : String → String

pub data ServiceError : Type 0 where
  denied : AuthError → ServiceError
  failed : Error → ServiceError

-- What the service works with: the libraries, the owners, the caller, the operation key of the
-- request, and the clock.
pub record Request : Type 0 where
  pub driver : Driver
  pub texts : Texts
  pub owned : List Ownership
  pub caller : Option Principal
  pub key : String
  pub at : ℕ

-- `Summary`, the fields that the service reads.
pub record Summary : Type 0 where
  pub buyer_id : String
  pub store_id : String
  pub status : Status

-- `len` of a Go string.
abbrev pub byte_length : String → ℕ
byte_length String.[] = 0
byte_length (String.◌∷◌ c s) = len_utf8 c + byte_length s

abbrev pub max_cancel_reason : ℕ
max_cancel_reason = 500

abbrev pub max_receipt_url : ℕ
max_receipt_url = 2048

summary_row : Driver → Option Order → Result Error Summary
summary_row d none = err not_found
summary_row d (some o) = ok (record {
  buyer_id = d.uuid_text o.buyer_id;
  store_id = d.uuid_text o.store_id;
  status = o.status;
})

-- `Summary` of repository.go.
unfoldable pub summary : Driver → String → Db → Result Error Summary
unfolding summary_row
summary d id db = elim (d.parse_uuid id) [
  | none ↦ err invalid
  | some order ↦ summary_row d (get_order order db)
]

abbrev wrap : Result Error (Unit {0}) × Db → Result ServiceError (Unit {0}) × Db
wrap (ok u, db) = (ok u, db)
wrap (err e, db) = (err (failed e), db)

abbrev pub command : String → Trigger → String → ℕ → TransitionCommand
command id trigger reason at = record {
  order_id = id;
  trigger = trigger;
  reason = reason;
  receipt_url = "";
  pickup_code = "";
  pickup_signature_url = "";
  at = at;
}

-- `sellerTransition`.
unfoldable pub seller_transition :
    Request → String → Trigger → String → Db → Result ServiceError (Unit {0}) × Db
seller_transition r id trigger reason db =
    if not (r.texts.is_uuid id)
    then (err (failed invalid), db)
    else (elim (summary r.driver id db) [
      | err e ↦ (err (failed e), db)
      | ok found ↦ elim (ensure_owns_store r.driver r.owned r.caller found.store_id) [
        | err e ↦ (err (denied e), db)
        | ok _ ↦ wrap (apply r.driver r.key (command id trigger reason r.at) db)
      ]
    ])

self_error : AuthError → ServiceError
self_error forbidden = failed not_found
self_error unauthenticated = denied unauthenticated

-- `authorizeBuyer`: a stranger is told that there is no such order.
unfoldable pub authorize_buyer : Request → String → Db → Result ServiceError Summary
unfolding self_error
authorize_buyer r id db =
    if not (r.texts.is_uuid id) then err (failed invalid) else (elim (require r.caller) [
      | err e ↦ err (denied e)
      | ok _ ↦ elim (summary r.driver id db) [
        | err e ↦ err (failed e)
        | ok found ↦ elim (ensure_self r.caller found.buyer_id) [
          | err e ↦ err (self_error e)
          | ok _ ↦ ok found
        ]
      ]
    ])

-- A step of the buyer, once the request's fields are valid.
unfoldable pub as_buyer : Request → TransitionCommand → Db → Result ServiceError (Unit {0}) × Db
as_buyer r cmd db = elim (authorize_buyer r cmd.order_id db) [
  | err e ↦ (err e, db)
  | ok _ ↦ wrap (apply r.driver r.key cmd db)
]

-- `validateReceiptURL`.
valid_url : Option Url → Bool
valid_url none = false
valid_url (some u) =
    not (str_eq u.scheme "")
    && (not (str_eq u.host "") && (str_eq u.scheme "https" || str_eq u.scheme "http"))

unfoldable pub validate_receipt_url : Texts → String → Bool
unfolding valid_url
validate_receipt_url t value =
    if str_eq value "" || ltb max_receipt_url (byte_length value)
    then false
    else valid_url (t.parse_url value)

abbrev is_blank : Texts → String → Bool
is_blank t s = str_eq (t.trim_space s) ""

-- The steps that the service offers.
pub data Step : Type 0 where
  confirming declining confirming_payment preparing marking_ready confirming_delivery
        confirming_refund :
      String → Step
  cancelling rejecting_payment requesting_refund : (id reason : String) → Step
  picking_up : (id code signature_url : String) → Step
  sending_receipt : (id receipt_url : String) → Step
  confirming_by_token : (id token : String) → Step

abbrev bool_eq : Bool → Bool → Bool
bool_eq true b = b
bool_eq false b = not b

-- One handler of the service for each step.
unfoldable pub serve : Request → Step → Db → Result ServiceError (Unit {0}) × Db
serve r (confirming id) db = seller_transition r id supplier_confirm "" db
serve r (declining id) db = seller_transition r id supplier_decline "" db
serve r (cancelling id reason) db =
    if is_blank r.texts reason || ltb max_cancel_reason (byte_length reason)
    then (err (failed invalid), db)
    else as_buyer r (command id buyer_cancel reason r.at) db
serve r (picking_up id code signature_url) db =
    if bool_eq (str_eq code "") (str_eq signature_url "")
    then (err (failed invalid), db)
    else as_buyer r
        (record (command id confirm_pickup "" r.at) {
          pickup_code = code;
          pickup_signature_url = signature_url;
        })
        db
serve r (sending_receipt id receipt_url) db =
    if not (validate_receipt_url r.texts receipt_url)
    then (err (failed invalid), db)
    else as_buyer r (record (command id submit_receipt "" r.at) { receipt_url = receipt_url }) db
serve r (confirming_payment id) db = seller_transition r id confirm_payment "" db
serve r (rejecting_payment id reason) db =
    if ltb max_cancel_reason (byte_length reason)
    then (err (failed invalid), db)
    else seller_transition r id reject_payment reason db
serve r (preparing id) db = seller_transition r id start_preparing "" db
serve r (marking_ready id) db = seller_transition r id mark_ready "" db
serve r (confirming_delivery id) db = seller_transition r id confirm_delivery "" db
serve r (requesting_refund id reason) db = elim (require_role r.caller Role.operator) [
  | err e ↦ (err (denied e), db)
  | ok _ ↦
      if not (r.texts.is_uuid id)
        || (is_blank r.texts reason || ltb max_cancel_reason (byte_length reason))
      then (err (failed invalid), db)
      else wrap (apply r.driver r.key (command id refund_request reason r.at) db)
]
serve r (confirming_refund id) db = as_buyer r (command id confirm_refund "" r.at) db
serve r (confirming_by_token id token) db =
    if not (r.texts.is_uuid id) || is_blank r.texts token
    then (err (failed invalid), db)
    else wrap (confirm_token r.driver r.texts.digest r.key id token r.at db)
