-- ===== src/Orders/Placement/Placing.antt =====
-- `Create` of internal/modules/orders/repository.go: what a call that succeeds has done.
use binno_pta_2026_evaluatio.Prelude.{
  ℕ, ◌≡◌, refl, sym, ◌∙◌, ap, subst, Bool, true, false, Option, none, some, String, ◌⊎◌, inl, inr,
  Result, ok, err, >>=-eq-ok, map_err, map_err-eq-ok, Option-cases, find_row, arith,
}
use binno_pta_2026_evaluatio.Db.{Db, Driver, Order, Receipt}
use binno_pta_2026_evaluatio.Tx.{Ending, commit, rollback, run_tx}
use binno_pta_2026_evaluatio.Tx.Dedup.{
  is_bad_key, reserve_new, reserve_new-ok, has_key, stored_uuid, add_receipt,
}
use binno_pta_2026_evaluatio.Catalog.LinePort.{Quote, reserve_order_lines}
use binno_pta_2026_evaluatio.Location.{LocationError, resolve_seller}
use binno_pta_2026_evaluatio.Orders.Errors.{Error, raw_dedup_error, map_catalog_error}
use binno_pta_2026_evaluatio.Orders.Commission.{fail_with}
use binno_pta_2026_evaluatio.Orders.Repository.{get_order}
use binno_pta_2026_evaluatio.Orders.Placement.{
  CreateCommand, Drawn, Placed, reserve_request, create_claimed, create_body, create, refused,
}
use binno_pta_2026_evaluatio.Orders.Placement.Writing.{Recorded, record_order-Recorded}

-- The answer about an order that an earlier call placed.
abbrev pub placed_before : Driver → ℕ → Order → Placed
placed_before d id o = record {
  created = record {
    order_id = d.uuid_text id;
    status = o.status;
    goods_amount = o.goods_amount;
    delivery_fee = o.delivery_fee;
    total_amount = o.total_amount;
    supplier_confirmation_deadline = o.confirmation_deadline;
  };
  notice = none;
}

-- The store may sell, its stock is held under the key, and the order is recorded.
pub record IsPlaced (d : Driver) (digest : String → String) (key : String) (drawn : Drawn)
    (cmd : CreateCommand) (db db' : Db) (p : Placed) : Type 0 where
  pub free : find_row (has_key key) db.receipts ≡ none
  pub sold : (resolve_seller d db.stores cmd.input.store_id).1 ≡ none
  pub quote : Quote
  pub held_db : Db
  pub held :
      reserve_order_lines d (reserve_request cmd) (add_receipt key drawn.order_id cmd.at db)
      ≡ ok (quote, held_db)
  pub recorded : Recorded d digest drawn cmd quote held_db db' p

-- Nothing changes, and the order that the key is bound to is answered.
pub record IsReplay (d : Driver) (key : String) (db db' : Db) (p : Placed) : Type 0 where
  pub receipt : Receipt
  pub order : Order
  pub bound : find_row (has_key key) db.receipts ≡ some receipt
  pub found : get_order (stored_uuid receipt.resource_id) db ≡ some order
  pub unchanged : db' ≡ db
  pub answer : p ≡ placed_before d (stored_uuid receipt.resource_id) order

create_claimed-replay :
    (d : Driver) (digest : String → String) (drawn : Drawn) (cmd : CreateCommand) (existing : ℕ)
    (db : Db) {e : Ending Placed} {db' : Db}
    → create_claimed d digest drawn cmd true existing db ≡ ok (e, db')
    → (o : Order) × (get_order existing db ≡ some o) × (e ≡ rollback (placed_before d existing o))
unfolding create_claimed
create_claimed-replay d digest drawn cmd existing db h =
    elim (Option-cases (get_order existing db)) [
      | inl missing ↦ absurd (ground (arith, missing))
      | inr (o, found) ↦ (o, found, ground (arith, found))
    ]

no_refusal :
    (refusal : Option LocationError) (db : Db) {u : Unit {0}} {db' : Db}
    → fail_with (refused refusal) db ≡ ok (u, db')
    → (refusal ≡ none) × (db' ≡ db)
unfolding refused
no_refusal none db h = (refl, cc)
no_refusal (some e) db h = cc

create_claimed-new :
    (d : Driver) (digest : String → String) (drawn : Drawn) (cmd : CreateCommand) (n : ℕ) (db : Db)
    {e : Ending Placed} {db' : Db}
    → create_claimed d digest drawn cmd false n db ≡ ok (e, db')
    → (quote : Quote) × (held : Db) × (p : Placed) × ((resolve_seller d db.stores
          cmd.input.store_id).1
        ≡ none)
      × (reserve_order_lines d (reserve_request cmd) db ≡ ok (quote, held))
      × (e ≡ commit p)
      × Recorded d digest drawn cmd quote held db' p
unfolding create_claimed
create_claimed-new d digest drawn cmd n db {e = e} {db' = db'} h =
    let (_, refusal) = resolve_seller d db.stores cmd.input.store_id in
    let (_, db1, m1, h1) = >>=-eq-ok (fail_with (refused refusal)) _ db h in
    let (quote, held, m2, h2) =
      >>=-eq-ok (map_err map_catalog_error (reserve_order_lines d (reserve_request cmd))) _ db1
        h1 in
    let (allowed, same) = no_refusal refusal db {db' = db1} m1 in
    let reserved =
      map_err-eq-ok map_catalog_error (reserve_order_lines d (reserve_request cmd)) db1 m2 in
    let (p, ending, recorded) =
      record_order-Recorded d digest drawn cmd quote held {e = e} {db' = db'} h2 in
    (
      quote,
      held,
      p,
      allowed,
      subst (λ a. reserve_order_lines d (reserve_request cmd) a ≡ ok (quote, held)) same reserved,
      ending,
      recorded,
    )

-- What a body that succeeds is about.
abbrev Done :
    Driver → (String → String) → String → Drawn → CreateCommand → Db → Db → Ending Placed → Type 0
Done d digest key drawn cmd db db' (commit p) = IsPlaced d digest key drawn cmd db db' p
Done d digest key drawn cmd db db' (rollback p) = IsReplay d key db db p

create_claimed-Done :
    (d : Driver) (digest : String → String) (key : String) (drawn : Drawn) (cmd : CreateCommand)
    (db db1 db' : Db) (e : Ending Placed) (replay : Bool) (existing : ℕ)
    → create_claimed d digest drawn cmd replay existing db1 ≡ ok (e, db')
    → ((find_row (has_key key) db.receipts ≡ none)
        × (replay ≡ false)
        × (existing ≡ drawn.order_id)
        × (db1 ≡ add_receipt key drawn.order_id cmd.at db))
      ⊎ ((r : Receipt) × (find_row (has_key key) db.receipts ≡ some r)
          × (replay ≡ true)
          × (existing ≡ stored_uuid r.resource_id)
          × (db1 ≡ db))
    → Done d digest key drawn cmd db db' e
create_claimed-Done d digest key drawn cmd db db1 db' e replay existing h
      (inl (free, new, _, same)) =
    let (quote, held, p, sold, reserved, ending, recorded) =
      create_claimed-new d digest drawn cmd existing (add_receipt key drawn.order_id cmd.at db)
        {e = e} {db' = db'}
        (subst (λ a. create_claimed d digest drawn cmd false existing a ≡ ok (e, db')) same
          (subst (λ b. create_claimed d digest drawn cmd b existing db1 ≡ ok (e, db')) new h)) in
    subst (Done d digest key drawn cmd db db') (sym ending) (record {
      free = free;
      sold = sold;
      quote = quote;
      held_db = held;
      held = reserved;
      recorded = recorded;
    })
create_claimed-Done d digest key drawn cmd db db1 db' e replay existing h
      (inr (r, bound, old, id_is, same)) =
    let (o, found, ending) =
      create_claimed-replay d digest drawn cmd existing db {e = e} {db' = db'} (
        subst (λ a. create_claimed d digest drawn cmd true existing a ≡ ok (e, db')) same
          (subst (λ b. create_claimed d digest drawn cmd b existing db1 ≡ ok (e, db')) old h)) in
    subst (Done d digest key drawn cmd db db')
      (sym (ending ∙ ap (λ i. rollback (placed_before d i o)) id_is))
      (record {
        receipt = r;
        order = o;
        bound = bound;
        found = subst (λ i. get_order i db ≡ some o) id_is found;
        unchanged = refl;
        answer = refl;
      })

create_body-Done :
    (d : Driver) (digest : String → String) (key : String) (drawn : Drawn) (cmd : CreateCommand)
    (db : Db) {e : Ending Placed} {db' : Db}
    → create_body d digest key drawn cmd db ≡ ok (e, db')
    → (is_bad_key key ≡ false) × Done d digest key drawn cmd db db' e
unfolding create_body
create_body-Done d digest key drawn cmd db {e = e} {db' = db'} h =
    let claim = map_err raw_dedup_error (reserve_new key drawn.order_id cmd.at) in
    let (r, db1, m1, h1) = >>=-eq-ok claim _ db h in
    let (keyed, cases) =
      reserve_new-ok key drawn.order_id cmd.at db {replay = r.0} {existing = r.1} {db' = db1}
        (map_err-eq-ok raw_dedup_error (reserve_new key drawn.order_id cmd.at) db m1) in
    (keyed, create_claimed-Done d digest key drawn cmd db db1 db' e r.0 r.1 h1 cases)

-- A call of `Create` that succeeds has a key of at most 512 characters, and is one of two. If the
-- key is free, the store may sell, the lines were reserved under the key, and the rows of a new
-- order with the quoted amounts are added: the order, one item for each quoted line, the first
-- event of its log, the SMS token and the outbox event, with the answer about this order. If the
-- key is bound, the answer is about the order that it is bound to, and nothing changes.
pub create_lem :
    (d : Driver) (digest : String → String) (key : String) (drawn : Drawn) (cmd : CreateCommand)
    (db : Db) {p : Placed} {db' : Db}
    → create d digest key drawn cmd db ≡ (ok p, db')
    → (is_bad_key key ≡ false)
      × (IsPlaced d digest key drawn cmd db db' p ⊎ IsReplay d key db db' p)
unfolding create
create_lem d digest key drawn cmd db {p = p} {db' = db'} h =
    by_result (create_body d digest key drawn cmd db) refl h
  where
    by_result :
        (r : Result Error (Ending Placed × Db))
        → create_body d digest key drawn cmd db ≡ r
        → run_tx (λ _. r) db ≡ (ok p, db')
        → (is_bad_key key ≡ false)
          × (IsPlaced d digest key drawn cmd db db' p ⊎ IsReplay d key db db' p)
    by_result (ok (commit q, db1)) e k =
        let (keyed, done) =
          create_body-Done d digest key drawn cmd db {e = commit q} {db' = db1} e in
        let same : q ≡ p = cc in
        let final : db1 ≡ db' = cc in
        (
          keyed,
          inl (
              subst (λ a. IsPlaced d digest key drawn cmd db a p) final
                (subst (λ a. IsPlaced d digest key drawn cmd db db1 a) same done)),
        )
    by_result (ok (rollback q, db1)) e k =
        let (keyed, done) =
          create_body-Done d digest key drawn cmd db {e = rollback q} {db' = db1} e in
        let same : q ≡ p = cc in
        let final : db ≡ db' = cc in
        (
          keyed,
          inr (
              subst (λ a. IsReplay d key db a p) final
                (subst (λ a. IsReplay d key db db a) same done)),
        )
    by_result (err x) e k = cc

-- A call of `Create` that fails changes nothing: no stock stays held and the key stays free.
pub create_atomic :
    (d : Driver) (digest : String → String) (key : String) (drawn : Drawn) (cmd : CreateCommand)
    (db : Db) {e : Error} {db' : Db}
    → create d digest key drawn cmd db ≡ (err e, db')
    → db' ≡ db
unfolding create
create_atomic d digest key drawn cmd db {e = e} {db' = db'} h =
    by_result (create_body d digest key drawn cmd db) h
  where
    by_result :
        (r : Result Error (Ending Placed × Db)) → run_tx (λ _. r) db ≡ (err e, db') → db' ≡ db
    by_result (ok (commit q, db1)) k = cc
    by_result (ok (rollback q, db1)) k = cc
    by_result (err x) k = cc
