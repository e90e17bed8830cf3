-- ===== src/Orders/Placement/Once.antt =====
-- `Create` of internal/modules/orders/repository.go under a retried key, and the log and the stock
-- under it.
use text.Mathlib.TextPositions.{eq_refl}
use binno_pta_2026_evaluatio.Prelude.{
  ℕ, ◌≡◌, ◌≢◌, refl, sym, ◌∙◌, ap, subst, false, none, some, List, [], ◌∷◌, ◌++◌, String, ◌==◌, ◌⊎◌,
  inl, inr, Result, ok, err, find_row, count_rows, arith, ==-cases, ==-self, if◌then◌else◌,
}
use binno_pta_2026_evaluatio.Db.{Db, Driver, Order, Receipt}
use binno_pta_2026_evaluatio.Tx.Dedup.{
  is_bad_key, reserve_new, has_key, stored_uuid, nullable_uuid, add_receipt,
}
use binno_pta_2026_evaluatio.Catalog.LinePort.Frame.{with_offers}
use binno_pta_2026_evaluatio.Catalog.LinePort.Holding.{reserve_order_lines-frame}
use binno_pta_2026_evaluatio.Catalog.LinePort.Stock.{
  IsStocked, reservation, done, next, steps-IsStocked,
}
use binno_pta_2026_evaluatio.Orders.Status.{created}
use binno_pta_2026_evaluatio.Orders.Errors.{Error}
use binno_pta_2026_evaluatio.Orders.Repository.{get_order, has_id}
use binno_pta_2026_evaluatio.Orders.Repository.Rows.{status_of, status_in}
use binno_pta_2026_evaluatio.Orders.Repository.Audit.{
  IsAudited, last_status, or_else, last_status-append,
}
use binno_pta_2026_evaluatio.Orders.Placement.{
  CreateCommand, Drawn, Placed, reserve_request, create_claimed, create_body, create, replayed,
  order_row, created_event,
}
use binno_pta_2026_evaluatio.Orders.Placement.Writing.{with_order}
use binno_pta_2026_evaluatio.Orders.Placement.Placing.{
  placed_before, IsPlaced, IsReplay, create_lem, create_atomic,
}

find_row-new :
    (id : ℕ) (os : List Order) (o : Order)
    → count_rows (λ r. r.id == id) os ≡ 0
    → o.id ≡ id
    → find_row (has_id id) (os ++ (o ∷ [])) ≡ some o
find_row-new id [] o h e = ground arith
find_row-new id (x ∷ xs) o h e = ground (arith, find_row-new id xs o)

find_row-old :
    (id : ℕ) (os : List Order) (o : Order)
    → o.id ≢ id
    → find_row (has_id id) (os ++ (o ∷ [])) ≡ find_row (has_id id) os
find_row-old id [] o h = ground arith
find_row-old id (x ∷ xs) o h = ground (arith, find_row-old id xs o h)

create-bound :
    (d : Driver) (digest : String → String) (key : String) (drawn : Drawn) (cmd : CreateCommand)
    (db : Db) (r : Receipt) (o : Order)
    → is_bad_key key ≡ false
    → find_row (has_key key) db.receipts ≡ some r
    → get_order (stored_uuid r.resource_id) db ≡ some o
    → create d digest key drawn cmd db ≡ (ok (placed_before d (stored_uuid r.resource_id) o), db)
unfolding create create_body create_claimed reserve_new replayed
create-bound d digest key drawn cmd db r o keyed bound found = ground arith

stored-nullable : (id : ℕ) → stored_uuid (nullable_uuid id) ≡ id
stored-nullable id = ground arith

module _ (d : Driver) (digest : String → String) (key : String) (drawn : Drawn)
    (cmd : CreateCommand) (db db' : Db) (p : Placed)
    (i : IsPlaced d digest key drawn cmd db db' p) where
  absent_before : count_rows (λ r. r.id == drawn.order_id) db.orders ≡ 0
  absent_before =
      subst (λ (a : Db). count_rows (λ r. r.id == drawn.order_id) a.orders ≡ 0)
        (reserve_order_lines-frame d (reserve_request cmd)
          (add_receipt key drawn.order_id cmd.at db) {quote = i.quote} {db' = i.held_db} i.held)
        i.recorded.absent

  -- The tables besides the offers are those of the start, with the key bound and the rows added.
  placed_db :
      db'
      ≡ with_order d digest drawn cmd i.quote i.recorded.buyer i.recorded.store i.recorded.token
          i.recorded.items
          (with_offers (add_receipt key drawn.order_id cmd.at db) i.held_db.offers)
  placed_db =
      i.recorded.written
      ∙ ap
          (with_order d digest drawn cmd i.quote i.recorded.buyer i.recorded.store i.recorded.token
            i.recorded.items)
          (reserve_order_lines-frame d (reserve_request cmd)
            (add_receipt key drawn.order_id cmd.at db) {quote = i.quote} {db' = i.held_db} i.held)

  new_order :
      get_order drawn.order_id db'
      ≡ some (order_row drawn.order_id i.recorded.buyer i.recorded.store cmd i.quote)
  new_order = rw placed_db (
      find_row-new drawn.order_id db.orders
        (order_row drawn.order_id i.recorded.buyer i.recorded.store cmd i.quote) absent_before refl)

  other_orders : (j : ℕ) → j ≢ drawn.order_id → get_order j db' ≡ get_order j db
  other_orders j h = rw placed_db (
      find_row-old j db.orders
        (order_row drawn.order_id i.recorded.buyer i.recorded.store cmd i.quote) (λ e. h (sym e)))

  log :
      (j : ℕ)
      → last_status j db'.events
        ≡ or_else (if drawn.order_id == j then some created else none) (last_status j db.events)
  log j = rw placed_db (last_status-append j db.events (created_event drawn.order_id cmd.at ∷ []))

  placed-IsAudited : IsAudited db → IsAudited db'
  placed-IsAudited audited j = elim (==-cases j drawn.order_id) [
    | inl same ↦ inr (
        rw same (log drawn.order_id ∙ (rw (==-self drawn.order_id) (sym (ap status_in new_order)))))
    | inr differ ↦ kept differ (audited j)
  ]
    where
      unlogged : j ≢ drawn.order_id → last_status j db'.events ≡ last_status j db.events
      unlogged differ = log j ∙ ground arith

      kept :
          j ≢ drawn.order_id
          → (last_status j db.events ≡ none) ⊎ (last_status j db.events ≡ status_of j db)
          → (last_status j db'.events ≡ none) ⊎ (last_status j db'.events ≡ status_of j db')
      kept differ (inl empty) = inl (unlogged differ ∙ empty)
      kept differ (inr agrees) =
          inr (unlogged differ ∙ agrees ∙ (ap status_in (sym (other_orders j differ))))

  placed-IsStocked : IsStocked db → IsStocked db'
  placed-IsStocked stocked =
      subst (λ (a : Db). IsStocked a) (sym i.recorded.written)
        (steps-IsStocked {db = add_receipt key drawn.order_id cmd.at db} stocked
          (next (reservation (reserve_request cmd) i.quote i.held) done))

  placed-bound :
      (r : Receipt) × (find_row (has_key key) db'.receipts ≡ some r)
      × (stored_uuid r.resource_id ≡ drawn.order_id)
  placed-bound = (
    record { operation_key = key; resource_id = nullable_uuid drawn.order_id; created_at = cmd.at },
    rw placed_db (rw (eq_refl key) refl),
    stored-nullable drawn.order_id,
  )

-- What holds before a call of `Create` and after every placement holds after the call.
create-kept :
    (P : Db → Type 0) (d : Driver) (digest : String → String) (key : String) (drawn : Drawn)
    (cmd : CreateCommand) (db : Db)
    → P db
    → ((db' : Db) (p : Placed) → IsPlaced d digest key drawn cmd db db' p → P db')
    → P (create d digest key drawn cmd db).1
create-kept P d digest key drawn cmd db before after =
    by_result (create d digest key drawn cmd db) refl
  where
    by_result : (r : Result Error Placed × Db) → create d digest key drawn cmd db ≡ r → P r.1
    by_result (err e, db') h =
        subst P (sym (create_atomic d digest key drawn cmd db {e = e} {db' = db'} h)) before
    by_result (ok p, db') h =
        elim ((create_lem d digest key drawn cmd db {p = p} {db' = db'} h).1) [
          | inl i ↦ after db' p i
          | inr i ↦ subst P (sym i.unchanged) before
        ]

pub create-IsAudited :
    (d : Driver) (digest : String → String) (key : String) (drawn : Drawn) (cmd : CreateCommand)
    (db : Db)
    → IsAudited db
    → IsAudited (create d digest key drawn cmd db).1
create-IsAudited d digest key drawn cmd db audited =
    create-kept IsAudited d digest key drawn cmd db audited
      (λ db' p i. placed-IsAudited d digest key drawn cmd db db' p i audited)

-- However a call of `Create` ends: no offer reserves more than it declares, if none did before.
pub create-IsStocked :
    (d : Driver) (digest : String → String) (key : String) (drawn : Drawn) (cmd : CreateCommand)
    (db : Db)
    → IsStocked db
    → IsStocked (create d digest key drawn cmd db).1
create-IsStocked d digest key drawn cmd db stocked =
    create-kept IsStocked d digest key drawn cmd db stocked
      (λ db' p i. placed-IsStocked d digest key drawn cmd db db' p i stocked)

-- The answer without the notice.
abbrev pub quietly : Placed → Placed
quietly p = record p { notice = none }

-- A call of `Create` with the key of one that succeeded just before, whatever it asks for and
-- whatever it draws, answers the same order and amounts, sends no notice and changes nothing.
pub create_once :
    (d : Driver) (digest : String → String) (key : String) (drawn drawn' : Drawn)
    (cmd cmd' : CreateCommand) (db : Db) {p : Placed} {db' : Db}
    → create d digest key drawn cmd db ≡ (ok p, db')
    → create d digest key drawn' cmd' db' ≡ (ok (quietly p), db')
create_once d digest key drawn drawn' cmd cmd' db {p = p} {db' = db'} h =
    let (keyed, cases) = create_lem d digest key drawn cmd db {p = p} {db' = db'} h in
    elim cases [ inl i ↦ again_new keyed i | inr i ↦ again_old keyed i ]
  where
    again_new :
        is_bad_key key ≡ false
        → IsPlaced d digest key drawn cmd db db' p
        → create d digest key drawn' cmd' db' ≡ (ok (quietly p), db')
    again_new keyed i =
        let (r, bound, id_is) = placed-bound d digest key drawn cmd db db' p i in
        let o = order_row drawn.order_id i.recorded.buyer i.recorded.store cmd i.quote in
        let again =
          create-bound d digest key drawn' cmd' db' r o keyed bound
            (ap (λ n. get_order n db') id_is ∙ new_order d digest key drawn cmd db db' p i) in
        again
        ∙ ap (λ (q : Placed). (ok q, db'))
            (ap (λ n. placed_before d n o) id_is ∙ sym (ap quietly i.recorded.answer))

    again_old :
        is_bad_key key ≡ false
        → IsReplay d key db db' p
        → create d digest key drawn' cmd' db' ≡ (ok (quietly p), db')
    again_old keyed i =
        subst (λ a. create d digest key drawn' cmd' a ≡ (ok (quietly p), a)) (sym i.unchanged)
          (create-bound d digest key drawn' cmd' db i.receipt i.order keyed i.bound i.found
            ∙ ap (λ (q : Placed). (ok q, db)) (sym (ap quietly i.answer)))
