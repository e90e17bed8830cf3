-- ===== src/Orders/Repository/Rows.antt =====
-- The orders table of internal/modules/orders/store under its updates.
use binno_pta_2026_evaluatio.Prelude.{
  ℕ, ◌≡◌, ◌≢◌, refl, Bool, true, Option, none, some, List, [], ◌∷◌, arith, find_row, update_rows,
}
use binno_pta_2026_evaluatio.Db.{Db, Order}
use binno_pta_2026_evaluatio.Orders.Status.{Status, Trigger, issue_invoice}
use binno_pta_2026_evaluatio.Orders.Status.Paths.{status_eq_self}
use binno_pta_2026_evaluatio.Orders.Repository.{
  has_id, is_order_in, moved_order, set_due, get_order,
}
use binno_pta_2026_evaluatio.Orders.Repository.Frame.{settled_orders}

abbrev pub status_in : Option Order → Option Status
status_in none = none
status_in (some o) = some o.status

-- The status of an order in the database.
abbrev pub status_of : ℕ → Db → Option Status
status_of id db = status_in (get_order id db)

-- The first row of an order is the row that a compare-and-set on its status finds.
pub find-is_order_in :
    (id : ℕ) (s : Status) (os : List Order)
    → status_in (find_row (has_id id) os) ≡ some s
    → find_row (is_order_in id s) os ≡ find_row (has_id id) os
find-is_order_in id s [] h = refl
find-is_order_in id s (o ∷ os) h = ground (arith, find-is_order_in id s os, status_eq_self s)

pub status-update_rows :
    (id : ℕ) (s to : Status) (at : ℕ) (os : List Order)
    → status_in (find_row (has_id id) os) ≡ some s
    → status_in (find_row (has_id id) (update_rows (is_order_in id s) (moved_order to at) os))
      ≡ some to
status-update_rows id s to at [] h = cc
status-update_rows id s to at (o ∷ os) h =
    ground (arith, status-update_rows id s to at os, status_eq_self s)

pub find-update_rows_ne :
    (id j : ℕ) (s to : Status) (at : ℕ) (os : List Order)
    → j ≢ id
    → find_row (has_id j) (update_rows (is_order_in id s) (moved_order to at) os)
      ≡ find_row (has_id j) os
find-update_rows_ne id j s to at [] h = refl
find-update_rows_ne id j s to at (o ∷ os) h = ground (arith, find-update_rows_ne id j s to at os h)

status-set_due :
    (id j due : ℕ) (os : List Order)
    → status_in (find_row (has_id j) (set_due due id os)) ≡ status_in (find_row (has_id j) os)
status-set_due id j due [] = refl
status-set_due id j due (o ∷ os) = ground (arith, status-set_due id j due os)

find-set_due_ne :
    (id j due : ℕ) (os : List Order)
    → j ≢ id
    → find_row (has_id j) (set_due due id os) ≡ find_row (has_id j) os
find-set_due_ne id j due [] h = refl
find-set_due_ne id j due (o ∷ os) h = ground (arith, find-set_due_ne id j due os h)

pub status-settled_orders :
    (trigger : Trigger) (at id j : ℕ) (os : List Order)
    → status_in (find_row (has_id j) (settled_orders trigger at id os))
      ≡ status_in (find_row (has_id j) os)
status-settled_orders issue_invoice at id j os = status-set_due id j _ os
status-settled_orders _ at id j os = refl

pub find-settled_orders_ne :
    (trigger : Trigger) (at id j : ℕ) (os : List Order)
    → j ≢ id
    → find_row (has_id j) (settled_orders trigger at id os) ≡ find_row (has_id j) os
find-settled_orders_ne issue_invoice at id j os h = find-set_due_ne id j _ os h
find-settled_orders_ne _ at id j os h = refl

pub find_row-holds :
    {A : Type 0} (p : A → Bool) (xs : List A) {x : A} → find_row p xs ≡ some x → p x ≡ true
find_row-holds p [] h = cc
find_row-holds p (y ∷ xs) {x = x} h = ground (arith, find_row-holds p xs {x = x})
