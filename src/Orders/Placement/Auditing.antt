-- ===== src/Orders/Placement/Auditing.antt =====
-- The audit log against the orders, through every kind of request that internal/modules/orders/repository.go
-- serves.
use binno_pta_2026_evaluatio.Prelude.{
  ℕ, ◌≡◌, refl, List, [], ◌∷◌, String, Result, ok, err, inl, inr,
}
use binno_pta_2026_evaluatio.Db.{Db, Driver}
use binno_pta_2026_evaluatio.Tx.Dedup.{add_receipt}
use binno_pta_2026_evaluatio.Orders.Errors.{Error}
use binno_pta_2026_evaluatio.Orders.Status.{token_confirm}
use binno_pta_2026_evaluatio.Orders.Repository.{
  TransitionCommand, DueOrder, apply, confirm_token, record_escalation, token_command,
}
use binno_pta_2026_evaluatio.Orders.Repository.Audit.{IsAudited, Ran-IsAudited, apply-IsAudited}
use binno_pta_2026_evaluatio.Orders.Repository.Escalation.{escalation-frame}
use binno_pta_2026_evaluatio.Orders.Repository.Tokens.{
  Confirmed, confirm_token_lem, confirm_token_atomic, spent,
}
use binno_pta_2026_evaluatio.Orders.Placement.{CreateCommand, Drawn, create}
use binno_pta_2026_evaluatio.Orders.Placement.Once.{create-IsAudited}

-- A request, with its operation key.
pub data OrderRequest : Type 0 where
  creating : String → Drawn → CreateCommand → OrderRequest
  applying : String → TransitionCommand → OrderRequest
  confirming : (key id token : String) → ℕ → OrderRequest
  escalating : String → DueOrder → ℕ → OrderRequest

-- The database after a request, however it ends.
abbrev pub handle : Driver → (String → String) → OrderRequest → Db → Db
handle d digest (creating key drawn cmd) db = (create d digest key drawn cmd db).1
handle d digest (applying key cmd) db = (apply d key cmd db).1
handle d digest (confirming key id token at) db = (confirm_token d digest key id token at db).1
handle d digest (escalating key order at) db = (record_escalation d key order at db).1

abbrev pub handle_all : Driver → (String → String) → List OrderRequest → Db → Db
handle_all d digest [] db = db
handle_all d digest (q ∷ qs) db = handle_all d digest qs (handle d digest q db)

Confirmed-IsAudited :
    (d : Driver) (key hash id : String) (order at : ℕ) (db db' : Db)
    → Confirmed d key hash id order at db db'
    → IsAudited db
    → IsAudited db'
Confirmed-IsAudited d key hash id order at db db' c audited =
    Ran-IsAudited c.token.order_id c.from c.to token_confirm (token_command id at)
      (record (add_receipt key order at db) { tokens = spent at hash db.tokens }) db' c.next c.ran
      audited

confirm_token-IsAudited :
    (d : Driver) (digest : String → String) (key id token : String) (at : ℕ) (db : Db)
    → IsAudited db
    → IsAudited (confirm_token d digest key id token at db).1
confirm_token-IsAudited d digest key id token at db audited =
    by_result (confirm_token d digest key id token at db) refl
  where
    by_result :
        (x : Result Error (Unit {0}) × Db)
        → confirm_token d digest key id token at db ≡ x
        → IsAudited x.1
    by_result (ok tt, db') h =
        let (order, _, done) = confirm_token_lem d digest key id token at db {db' = db'} h in
        elim done [
          | inl (_, same) ↦ rw same audited
          | inr c ↦ Confirmed-IsAudited d key (digest token) id order at db db' c audited
        ]
    by_result (err e, db') h = rw (confirm_token_atomic d digest key id token at db h) audited

record_escalation-IsAudited :
    (d : Driver) (key : String) (order : DueOrder) (at : ℕ) (db : Db)
    → IsAudited db
    → IsAudited (record_escalation d key order at db).1
record_escalation-IsAudited d key order at db audited id =
    let (orders, events) = escalation-frame d key order at db in rw (orders, events) (audited id)

handle-IsAudited :
    (d : Driver) (digest : String → String) (q : OrderRequest) (db : Db)
    → IsAudited db
    → IsAudited (handle d digest q db)
handle-IsAudited d digest (creating key drawn cmd) db audited =
    create-IsAudited d digest key drawn cmd db audited
handle-IsAudited d digest (applying key cmd) db audited = apply-IsAudited d key cmd db audited
handle-IsAudited d digest (confirming key id token at) db audited =
    confirm_token-IsAudited d digest key id token at db audited
handle-IsAudited d digest (escalating key order at) db audited =
    record_escalation-IsAudited d key order at db audited

-- If the last event of each order that has one names the order's status, it does so after any sequence
-- of placements, triggers, confirmations by token and escalations, however each of them ends.
pub handle_all-IsAudited :
    (d : Driver) (digest : String → String) (requests : List OrderRequest) (db : Db)
    → IsAudited db
    → IsAudited (handle_all d digest requests db)
handle_all-IsAudited d digest [] db audited = audited
handle_all-IsAudited d digest (q ∷ qs) db audited =
    handle_all-IsAudited d digest qs (handle d digest q db) (handle-IsAudited d digest q db audited)
