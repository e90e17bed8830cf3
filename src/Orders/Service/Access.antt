-- ===== src/Orders/Service/Access.antt =====
-- Who may take a step, by internal/modules/orders/service.go.
use binno_pta_2026_evaluatio.Prelude.{
  ℕ, ◌≡◌, refl, Bool, true, false, some, String, str_eq, arith, if◌then◌else◌, Result, ok, err, ◌⊎◌,
  inl, inr, Option-cases, Result-cases, find_row,
}
use binno_pta_2026_evaluatio.Db.{Db, Driver, Order, ConfirmToken}
use binno_pta_2026_evaluatio.Authz.{Principal, Role, require_role, ensure_self, ensure_owns_store}
use binno_pta_2026_evaluatio.Authz.Owning.{
  IsCaller, HasRole, OwnsStore, ensure_owns_store-OwnsStore, self_lem, require_role_lem,
}
use binno_pta_2026_evaluatio.Orders.Errors.{Error}
use binno_pta_2026_evaluatio.Orders.Status.{
  Trigger, reject_payment, buyer_cancel, confirm_pickup, submit_receipt,
}
use binno_pta_2026_evaluatio.Orders.Repository.{
  TransitionCommand, get_order, is_live_token, confirm_token,
}
use binno_pta_2026_evaluatio.Orders.Repository.Replay.{IsBound}
use binno_pta_2026_evaluatio.Orders.Repository.Tokens.{confirm_token_lem}
use binno_pta_2026_evaluatio.Orders.Service.{
  Request, ServiceError, Step, confirming, declining, confirming_payment, preparing, marking_ready,
  confirming_delivery, confirming_refund, cancelling, rejecting_payment, requesting_refund,
  picking_up, sending_receipt, confirming_by_token, serve, seller_transition, as_buyer,
  authorize_buyer, summary, command, Summary, wrap,
}

-- The order that a request names.
pub record Named (d : Driver) (id : String) (db : Db) : Type 0 where
  pub order_id : ℕ
  pub order : Order
  pub parsed : d.parse_uuid id ≡ some order_id
  pub found : get_order order_id db ≡ some order

-- The caller is a seller whose user owns the order's store.
abbrev pub IsSellerOf : Request → String → Db → Type 0
IsSellerOf r id db =
    (n : Named r.driver id db) × OwnsStore r.driver r.owned r.caller n.order.store_id

-- The caller placed the order.
abbrev pub IsBuyerOf : Request → String → Db → Type 0
IsBuyerOf r id db =
    (n : Named r.driver id db) × (p : Principal) × IsCaller r.caller p
    × (str_eq p.user_id (r.driver.uuid_text n.order.buyer_id) ≡ true)

abbrev pub IsOperator : Request → Type 0
IsOperator r = (p : Principal) × IsCaller r.caller p × HasRole Role.operator p

-- The request has a live token of the order, or repeats one under the same key.
abbrev pub IsBearerOf : Request → (id token : String) → Db → Type 0
IsBearerOf r id token db =
    (order : ℕ) × (r.driver.parse_uuid id ≡ some order)
    × (IsBound r.key order db
        ⊎ ((t : ConfirmToken) × (find_row (is_live_token r.at (r.texts.digest token)) db.tokens
              ≡ some t)
            × (str_eq (r.driver.uuid_text t.order_id) id ≡ true)))

pub summary_lem :
    (d : Driver) (id : String) (db : Db) {s : Summary}
    → summary d id db ≡ ok s
    → (order : ℕ) × (o : Order) × (d.parse_uuid id ≡ some order)
      × (get_order order db ≡ some o)
      × (s.buyer_id ≡ d.uuid_text o.buyer_id)
      × (s.store_id ≡ d.uuid_text o.store_id)
unfolding summary
summary_lem d id db {s = s} h = elim (Option-cases (d.parse_uuid id)) [
  | inl malformed ↦ absurd (ground (arith, malformed))
  | inr (order, parsed) ↦ elim (Option-cases (get_order order db)) [
    | inl missing ↦ absurd (ground (arith, parsed, missing))
    | inr (o, found) ↦
        (order, o, parsed, found, ground (arith, parsed, found), ground (arith, parsed, found))
  ]
]

seller_transition-IsSellerOf :
    (r : Request) (id : String) (trigger : Trigger) (reason : String) (db : Db) {db' : Db}
    → seller_transition r id trigger reason db ≡ (ok tt, db')
    → IsSellerOf r id db
unfolding seller_transition
seller_transition-IsSellerOf r id trigger reason db h =
    elim (Result-cases (summary r.driver id db)) [
      | inr (x, e) ↦ absurd (ground (arith, e))
      | inl (s, e) ↦ elim (Result-cases (ensure_owns_store r.driver r.owned r.caller s.store_id)) [
        | inr (x, e2) ↦ absurd (ground (arith, e, e2))
        | inl (u, e2) ↦
            (let (order, o, parsed, found, _, same) = summary_lem r.driver id db {s = s} e in
              (
                record { order_id = order; order = o; parsed = parsed; found = found },
                ensure_owns_store-OwnsStore r.driver r.owned r.caller o.store_id (rw same at e2),
              ))
      ]
    ]

as_buyer-IsBuyerOf :
    (r : Request) (cmd : TransitionCommand) (db : Db) {db' : Db}
    → as_buyer r cmd db ≡ (ok tt, db')
    → IsBuyerOf r cmd.order_id db
unfolding as_buyer authorize_buyer
as_buyer-IsBuyerOf r cmd db h = elim (Result-cases (summary r.driver cmd.order_id db)) [
  | inr (x, e) ↦ absurd (ground (arith, e))
  | inl (s, e) ↦ elim (Result-cases (ensure_self r.caller s.buyer_id)) [
    | inr (x, e2) ↦ absurd (ground (arith, e, e2))
    | inl (u, e2) ↦
        (let (order, o, parsed, found, same, _) = summary_lem r.driver cmd.order_id db {s = s} e in
          let (p, is_caller, self) = self_lem r.caller s.buyer_id e2 in
          (
            record { order_id = order; order = o; parsed = parsed; found = found },
            p,
            is_caller,
            rw same at self,
          ))
  ]
]

-- Whose step it is.
abbrev pub IsEntitled : Request → Step → Db → Type 0
IsEntitled r (confirming id) db = IsSellerOf r id db
IsEntitled r (declining id) db = IsSellerOf r id db
IsEntitled r (confirming_payment id) db = IsSellerOf r id db
IsEntitled r (rejecting_payment id reason) db = IsSellerOf r id db
IsEntitled r (preparing id) db = IsSellerOf r id db
IsEntitled r (marking_ready id) db = IsSellerOf r id db
IsEntitled r (confirming_delivery id) db = IsSellerOf r id db
IsEntitled r (cancelling id reason) db = IsBuyerOf r id db
IsEntitled r (picking_up id code signature_url) db = IsBuyerOf r id db
IsEntitled r (sending_receipt id receipt_url) db = IsBuyerOf r id db
IsEntitled r (confirming_refund id) db = IsBuyerOf r id db
IsEntitled r (requesting_refund id reason) db = IsOperator r
IsEntitled r (confirming_by_token id token) db = IsBearerOf r id token db

bearer_lem :
    (r : Request) (id token : String) (db : Db) (x : Result Error (Unit {0}) × Db) {db' : Db}
    → confirm_token r.driver r.texts.digest r.key id token r.at db ≡ x
    → wrap x ≡ (ok tt, db')
    → IsBearerOf r id token db
bearer_lem r id token db (err e, db1) h k = cc
bearer_lem r id token db (ok _, db1) h k =
    let (order, parsed, done) =
      confirm_token_lem r.driver r.texts.digest r.key id token r.at db {db' = db1} h in
    elim done [
      | inl (bound, _) ↦ (order, parsed, inl bound)
      | inr c ↦ (order, parsed, inr (c.token, c.live, c.named))
    ]

guarded :
    (b : Bool) (e : ServiceError) (db : Db) (m : Result ServiceError (Unit {0}) × Db) {db' : Db}
    → (if b then (err e, db) else m) ≡ (ok tt, db')
    → m ≡ (ok tt, db')
guarded true e db m h = cc
guarded false e db m h = h

-- A step that succeeds was asked for by who may: a seller's step by a signed-in seller whose user owns
-- the order's store, a buyer's step by the signed-in user who placed the order, a refund request by a
-- signed-in operator, and a confirmation by token with a live token of the order that it names, unless
-- it repeats a request under a key that is bound to this order.
pub serve-IsEntitled :
    (r : Request) (step : Step) (db : Db) {db' : Db}
    → serve r step db ≡ (ok tt, db')
    → IsEntitled r step db
unfolding serve
serve-IsEntitled r (confirming id) db h = seller_transition-IsSellerOf r id _ _ db h
serve-IsEntitled r (declining id) db h = seller_transition-IsSellerOf r id _ _ db h
serve-IsEntitled r (confirming_payment id) db h = seller_transition-IsSellerOf r id _ _ db h
serve-IsEntitled r (rejecting_payment id reason) db {db' = db'} h =
    seller_transition-IsSellerOf r id reject_payment reason db {db' = db'} (guarded _ _ db _ h)
serve-IsEntitled r (preparing id) db h = seller_transition-IsSellerOf r id _ _ db h
serve-IsEntitled r (marking_ready id) db h = seller_transition-IsSellerOf r id _ _ db h
serve-IsEntitled r (confirming_delivery id) db h = seller_transition-IsSellerOf r id _ _ db h
serve-IsEntitled r (cancelling id reason) db {db' = db'} h =
    as_buyer-IsBuyerOf r (command id buyer_cancel reason r.at) db {db' = db'} (guarded _ _ db _ h)
serve-IsEntitled r (picking_up id code signature_url) db {db' = db'} h =
    as_buyer-IsBuyerOf r
      (record (command id confirm_pickup "" r.at) {
        pickup_code = code;
        pickup_signature_url = signature_url;
      })
      db {db' = db'} (guarded _ _ db _ h)
serve-IsEntitled r (sending_receipt id receipt_url) db {db' = db'} h =
    as_buyer-IsBuyerOf r (record (command id submit_receipt "" r.at) { receipt_url = receipt_url })
      db {db' = db'} (guarded _ _ db _ h)
serve-IsEntitled r (confirming_refund id) db h = as_buyer-IsBuyerOf r _ db h
serve-IsEntitled r (requesting_refund id reason) db h =
    elim (Result-cases (require_role r.caller Role.operator)) [
      | inl (p, e) ↦
          let (is_caller, role) = require_role_lem r.caller Role.operator e in (p, is_caller, role)
      | inr (x, e) ↦ absurd (ground (arith, e))
    ]
serve-IsEntitled r (confirming_by_token id token) db {db' = db'} h =
    bearer_lem r id token db (confirm_token r.driver r.texts.digest r.key id token r.at db)
      {db' = db'} refl (guarded _ _ db _ h)
