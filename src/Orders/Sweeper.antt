-- ===== src/Orders/Sweeper.antt =====
-- internal/modules/orders/sweeper.go: the pass that escalates and expires overdue orders, with the
-- two listings of repository.go and store/queries.sql.go.
pub mod Fates
pub mod Log
mod Tests
use Prim.Native.String.{◌++◌ as concat}
use binno_pta_2026_evaluatio.Prelude.{
  ℕ, zero, suc, ◌+◌, ◌*◌, ◌/◌, Bool, true, false, ◌&&◌, Option, none, some, List, [], ◌∷◌, ◌++◌,
  map, String, ltb, leb, ◌==◌, if◌then◌else◌, select_rows, Result, ok, err,
}
use binno_pta_2026_evaluatio.Db.{Db, Driver, Order, hour}
use binno_pta_2026_evaluatio.Orders.Status.{
  Status, Trigger, expire, payment_expire, created, awaiting_payment, status_eq,
}
use binno_pta_2026_evaluatio.Orders.Errors.{
  Error, invalid, conflict, not_found, gone, unavailable, internal,
}
use binno_pta_2026_evaluatio.Orders.Repository.{
  DueOrder, TransitionCommand, record_escalation, apply,
}

-- `SweeperConfig`; a setting below zero is 0 here, which the source treats alike.
pub record SweeperConfig : Type 0 where
  pub batch : ℕ
  pub expiry_grace : ℕ

-- The defaults of `NewSweeper`.
unfoldable pub with_defaults : SweeperConfig → SweeperConfig
with_defaults cfg = record {
  batch = if cfg.batch == 0 then 100 else cfg.batch;
  expiry_grace = if cfg.expiry_grace == 0 then 2 * hour else cfg.expiry_grace;
}

pub record SweepResult : Type 0 where
  pub escalated : ℕ
  pub expired : ℕ
  pub payment_expired : ℕ

-- The leaves of the joined error, each with the id of its order.
pub data Failure : Type 0 where
  escalating expiring payment_expiring : String → Error → Failure

-- A pass under way.
pub record Sweep : Type 0 where
  pub db : Db
  pub result : SweepResult
  pub failures : List Failure

-- `ORDER BY due LIMIT n`; which of two orders with one instant goes first is open to the database.
insert_due : DueOrder → List DueOrder → List DueOrder
insert_due x [] = x ∷ []
insert_due x (y ∷ ys) = if leb x.due_at y.due_at then x ∷ y ∷ ys else y ∷ insert_due x ys

sort_due : List DueOrder → List DueOrder
unfolding insert_due
sort_due [] = []
sort_due (x ∷ xs) = insert_due x (sort_due xs)

take_due : ℕ → List DueOrder → List DueOrder
take_due n [] = []
take_due zero (x ∷ xs) = []
take_due (suc n) (x ∷ xs) = x ∷ take_due n xs

abbrev due_order : Driver → Order → ℕ → DueOrder
due_order d o at = record {
  order_id = d.uuid_text o.id;
  store_id = d.uuid_text o.store_id;
  buyer_id = d.uuid_text o.buyer_id;
  due_at = at;
}

-- `AwaitingConfirmation`, with `ListOrdersAwaitingConfirmation`.
unfoldable pub awaiting_confirmation : Driver → ℕ → ℕ → Db → List DueOrder
unfolding sort_due take_due
awaiting_confirmation d deadline limit db = take_due limit (
    sort_due (
      map (λ o. due_order d o o.confirmation_deadline)
        (select_rows (λ o. status_eq o.status created && leb o.confirmation_deadline deadline)
          db.orders)))

abbrev is_past : ℕ → Option ℕ → Bool
is_past deadline none = false
is_past deadline (some due) = leb due deadline

abbrev instant : Option ℕ → ℕ
instant none = 0
instant (some due) = due

-- `PaymentOverdue`, with `ListOrdersPaymentOverdue`.
unfoldable pub payment_overdue : Driver → ℕ → ℕ → Db → List DueOrder
unfolding sort_due take_due
payment_overdue d deadline limit db = take_due limit (
    sort_due (
      map (λ o. due_order d o (instant o.payment_due_at))
        (select_rows (λ o. status_eq o.status awaiting_payment && is_past deadline o.payment_due_at)
          db.orders)))

-- The operation keys; `decimal` prints a number, and `Unix` cuts an instant to whole seconds.
abbrev unix : ℕ → ℕ
unix at = at / 1000000000

abbrev key_of : (ℕ → String) → String → String → ℕ → String
key_of decimal prefix id due = concat prefix (concat id (concat ":" (decimal (unix due))))

unfoldable pub escalation_key : (ℕ → String) → DueOrder → String
escalation_key decimal order = key_of decimal "orders:sla_escalate:" order.order_id order.due_at

unfoldable pub expiry_key : (ℕ → String) → DueOrder → String
expiry_key decimal order = key_of decimal "orders:expire:" order.order_id order.due_at

unfoldable pub payment_expiry_key : (ℕ → String) → DueOrder → String
payment_expiry_key decimal order =
    key_of decimal "orders:payment_expire:" order.order_id order.due_at

abbrev pub sweep_command : DueOrder → Trigger → String → ℕ → TransitionCommand
sweep_command order trigger reason now = record {
  order_id = order.order_id;
  trigger = trigger;
  reason = reason;
  receipt_url = "";
  pickup_code = "";
  pickup_signature_url = "";
  at = now;
}

abbrev pub expire_command : DueOrder → ℕ → TransitionCommand
expire_command order = sweep_command order expire "supplier confirmation window elapsed"

abbrev pub payment_command : DueOrder → ℕ → TransitionCommand
payment_command order = sweep_command order payment_expire "payment window elapsed"

-- A conflict and a missing order are passed over.
abbrev failed : (Error → Failure) → Error → List Failure
failed f conflict = []
failed f not_found = []
failed f invalid = f invalid ∷ []
failed f gone = f gone ∷ []
failed f unavailable = f unavailable ∷ []
failed f internal = f internal ∷ []

pub expiry_done : DueOrder → Sweep → Result Error (Unit {0}) × Db → Sweep
expiry_done order s (ok _, db) = record s {
  db = db;
  result = record s.result { expired = suc s.result.expired };
}
expiry_done order s (err e, db) = record s {
  db = db;
  failures = s.failures ++ failed (expiring order.order_id) e;
}

after_escalation : Driver → (ℕ → String) → SweeperConfig → ℕ → DueOrder → Sweep → Sweep
unfolding expiry_done
after_escalation d decimal cfg now order s =
    if ltb now (order.due_at + cfg.expiry_grace)
    then s
    else expiry_done order s (apply d (expiry_key decimal order) (expire_command order now) s.db)

escalation_done :
    Driver → (ℕ → String) → SweeperConfig → ℕ → DueOrder → Sweep → Result Error Bool × Db → Sweep
unfolding after_escalation
escalation_done d decimal cfg now order s (err e, db) = record s {
  db = db;
  failures = s.failures ++ (escalating order.order_id e ∷ []);
}
escalation_done d decimal cfg now order s (ok true, db) =
    after_escalation d decimal cfg now order
      (record s { db = db; result = record s.result { escalated = suc s.result.escalated } })
escalation_done d decimal cfg now order s (ok false, db) =
    after_escalation d decimal cfg now order (record s { db = db })

-- The loop over the overdue confirmations.
unfoldable pub sweep_due : Driver → (ℕ → String) → SweeperConfig → ℕ → List DueOrder → Sweep → Sweep
unfolding escalation_done
sweep_due d decimal cfg now [] s = s
sweep_due d decimal cfg now (order ∷ orders) s = sweep_due d decimal cfg now orders (
    escalation_done d decimal cfg now order s
      (record_escalation d (escalation_key decimal order) order now s.db))

pub payment_expiry_done : DueOrder → Sweep → Result Error (Unit {0}) × Db → Sweep
payment_expiry_done order s (ok _, db) = record s {
  db = db;
  result = record s.result { payment_expired = suc s.result.payment_expired };
}
payment_expiry_done order s (err e, db) = record s {
  db = db;
  failures = s.failures ++ failed (payment_expiring order.order_id) e;
}

-- The loop over the overdue payments.
unfoldable pub sweep_unpaid : Driver → (ℕ → String) → ℕ → List DueOrder → Sweep → Sweep
unfolding payment_expiry_done
sweep_unpaid d decimal now [] s = s
sweep_unpaid d decimal now (order ∷ orders) s = sweep_unpaid d decimal now orders (
    payment_expiry_done order s
      (apply d (payment_expiry_key decimal order) (payment_command order now) s.db))

abbrev pub start : Db → Sweep
start db = record {
  db = db;
  result = record { escalated = 0; expired = 0; payment_expired = 0 };
  failures = [];
}

-- The first half of a pass.
abbrev pub confirmed_half : Driver → (ℕ → String) → SweeperConfig → ℕ → Db → Sweep
confirmed_half d decimal cfg now db =
    sweep_due d decimal cfg now (awaiting_confirmation d now cfg.batch db) (start db)

-- `RunOnce`. The listings do not fail.
unfoldable pub run_once : Driver → (ℕ → String) → SweeperConfig → ℕ → Db → Sweep
run_once d decimal cfg now db =
    let s = confirmed_half d decimal cfg now db in
    sweep_unpaid d decimal now (payment_overdue d now cfg.batch s.db) s
