-- ===== src/Orders/Repository/Runs.antt =====
-- What `runTransition` of internal/modules/orders/repository.go does to the orders and their
-- audit log: the first transition and the follow-on that it implies.
use binno_pta_2026_evaluatio.Prelude.{
  ℕ, ◌≡◌, ◌≢◌, ◌∙◌, true, not, Option, none, some, List, [], ◌∷◌, ◌++◌, arith, ok, >>=-eq-ok,
  or_throw-eq-ok, reject_if-eq-ok, or_throw, reject_if, Option-cases, inl, inr,
}
use mathlib.Core.List.{append_assoc}
use binno_pta_2026_evaluatio.Db.{Db, Driver, Order, OrderEvent}
use binno_pta_2026_evaluatio.Orders.Status.{Status, Trigger, Transition, transition_for, permits}
use binno_pta_2026_evaluatio.Orders.Status.Paths.{next_status}
use binno_pta_2026_evaluatio.Orders.Errors.{internal, conflict}
use binno_pta_2026_evaluatio.Orders.Repository.{
  TransitionCommand, transition, follow, is_declared, run_transition, get_order, is_order_in,
}
use binno_pta_2026_evaluatio.Orders.Repository.Moves.{event_of, Moved, transition-Moved}
use binno_pta_2026_evaluatio.Orders.Repository.Rows.{
  status_of, status-update_rows, find-update_rows_ne, status-settled_orders, find-settled_orders_ne,
  find_row-holds,
}

run_transition_lem :
    (d : Driver) (order : Order) (trigger : Trigger) (cmd : TransitionCommand) (db : Db) {db' : Db}
    → run_transition d order trigger cmd db ≡ ok (tt, db')
    → (t : Transition) × (u : Order) × (db1 : Db) × (transition_for trigger ≡ some t)
      × (permits t order.status ≡ true)
      × (transition d order trigger t cmd db ≡ ok (u, db1))
      × (follow d u t.follow_on cmd db1 ≡ ok (tt, db'))
unfolding run_transition
run_transition_lem d order trigger cmd db h =
    let (t, db1, known, h1) = >>=-eq-ok (or_throw (transition_for trigger) internal) _ db h in
    let (_, db2, allowed, h2) =
      >>=-eq-ok (reject_if (not (permits t order.status)) conflict) _ db1 h1 in
    let (u, db3, moved, h3) = >>=-eq-ok (transition d order trigger t cmd) _ db2 h2 in
    let (found, same1) = or_throw-eq-ok (transition_for trigger) internal db known in
    let (permitted, same2) = reject_if-eq-ok (not (permits t order.status)) conflict db1 allowed in
    (t, u, db3, found, ground (arith, permitted), cc (moved, same1, same2), h3)

follow_lem :
    (d : Driver) (u : Order) (next : Trigger) (cmd : TransitionCommand) (db : Db) {db' : Db}
    → follow d u (some next) cmd db ≡ ok (tt, db')
    → (t : Transition) × (v : Order) × (transition_for next ≡ some t)
      × (permits t u.status ≡ true)
      × (transition d u next t cmd db ≡ ok (v, db'))
unfolding follow
follow_lem d u next cmd db h =
    let (t, db1, known, h1) = >>=-eq-ok (or_throw (transition_for next) internal) _ db h in
    let (_, db2, single, h2) = >>=-eq-ok (reject_if (is_declared t.follow_on) internal) _ db1 h1 in
    let (_, db3, allowed, h3) =
      >>=-eq-ok (reject_if (not (permits t u.status)) conflict) _ db2 h2 in
    let (v, db4, moved, h4) = >>=-eq-ok (transition d u next t cmd) _ db3 h3 in
    let (found, same1) = or_throw-eq-ok (transition_for next) internal db known in
    let (_, same2) = reject_if-eq-ok (is_declared t.follow_on) internal db1 single in
    let (permitted, same3) = reject_if-eq-ok (not (permits t u.status)) conflict db2 allowed in
    (t, v, found, ground (arith, permitted), cc (moved, same1, same2, same3, h4))

-- The tables that a run of transitions on one order leaves with its status.
pub record Ran (id : ℕ) (from to : Status) (new : List OrderEvent) (db db' : Db) : Type 0 where
  pub before : status_of id db ≡ some from
  pub after : status_of id db' ≡ some to
  pub others : (j : ℕ) → j ≢ id → get_order j db' ≡ get_order j db
  pub events : db'.events ≡ db.events ++ new
  pub receipts : db'.receipts ≡ db.receipts
  pub tokens : db'.tokens ≡ db.tokens

Moved-Ran :
    (order : Order) (trigger : Trigger) (t : Transition) (cmd : TransitionCommand) (db : Db)
    {updated : Order} {db' : Db}
    → status_of order.id db ≡ some order.status
    → Moved order trigger t cmd db updated db'
    → Ran order.id order.status t.to (event_of order.id order.status t cmd ∷ []) db db'
      × (updated.id ≡ order.id)
      × (updated.status ≡ t.to)
Moved-Ran order trigger t cmd db {updated = updated} {db' = db'} current m =
    let same_id : m.row.id ≡ order.id =
      ground (arith, find_row-holds (is_order_in order.id order.status) db.orders m.found) in
    (
      record {
        before = current;
        after = rw m.orders (
            rw (status-settled_orders trigger cmd.at m.row.id order.id _)
              (status-update_rows order.id order.status t.to cmd.at db.orders current));
        others = λ j ne. rw m.orders (
            rw (find-settled_orders_ne trigger cmd.at m.row.id j _ (ground (arith, ne, same_id)))
              (find-update_rows_ne order.id j order.status t.to cmd.at db.orders ne));
        events = m.events;
        receipts = m.receipts;
        tokens = m.tokens;
      },
      ground (arith, m.updated_row, same_id),
      ground (arith, m.updated_row),
    )

Ran-trans :
    {id : ℕ} {a b c : Status} {first second : List OrderEvent} {db db1 db2 : Db}
    → Ran id a b first db db1
    → Ran id b c second db1 db2
    → Ran id a c (first ++ second) db db2
Ran-trans {first = first} {second = second} {db = db} r q = record {
  before = r.before;
  after = q.after;
  others = λ j ne. q.others j ne ∙ r.others j ne;
  events = q.events ∙ (rw r.events (append_assoc db.events first second));
  receipts = q.receipts ∙ r.receipts;
  tokens = q.tokens ∙ r.tokens;
}

follow-none :
    (d : Driver) (u : Order) (cmd : TransitionCommand) (db : Db) {db' : Db}
    → follow d u none cmd db ≡ ok (tt, db')
    → db' ≡ db
unfolding follow
follow-none d u cmd db h = ground arith

abbrev follow_events : ℕ → Status → Option Trigger → TransitionCommand → List OrderEvent
follow_events id s none cmd = []
follow_events id s (some next) cmd = elim (transition_for next) [
  | none ↦ []
  | some u ↦ event_of id s u cmd ∷ []
]

-- The audit rows of a trigger and its follow-on.
abbrev pub run_events : ℕ → Status → Trigger → TransitionCommand → List OrderEvent
run_events id s trigger cmd = elim (transition_for trigger) [
  | none ↦ []
  | some t ↦ event_of id s t cmd ∷ follow_events id t.to t.follow_on cmd
]

Ran-of_second :
    (next : Trigger) (cmd : TransitionCommand) (t v : Transition) (u w : Order) (id : ℕ)
    (db db' : Db)
    → transition_for next ≡ some v
    → permits v u.status ≡ true
    → status_of id db ≡ some t.to
    → u.id ≡ id
    → u.status ≡ t.to
    → Moved u next v cmd db w db'
    → (permits v t.to ≡ true) × Ran id t.to v.to (event_of id t.to v cmd ∷ []) db db'
Ran-of_second next cmd t v u w id db db' known allowed current same_id same_status m =
    let (ran, _, _) =
      Moved-Ran u next v cmd db {updated = w} {db' = db'} (rw (same_id, same_status) current) m in
    (rw (← same_status) allowed, rw (← same_status, ← same_id) ran)

Ran-of_first :
    (d : Driver) (trigger : Trigger) (cmd : TransitionCommand) (t : Transition) (u : Order)
    (db db1 db' : Db) (id : ℕ) (s : Status)
    → transition_for trigger ≡ some t
    → permits t s ≡ true
    → Ran id s t.to (event_of id s t cmd ∷ []) db db1
    → u.id ≡ id
    → u.status ≡ t.to
    → follow d u t.follow_on cmd db1 ≡ ok (tt, db')
    → (s' : Status) × (next_status trigger s ≡ some s')
      × Ran id s s' (run_events id s trigger cmd) db db'
unfolding next_status
Ran-of_first d trigger cmd t u db db1 db' id s known allowed ran same_id same_status h =
    elim (Option-cases t.follow_on) [
      | inl single ↦ (
        t.to,
        ground (arith, known, allowed, single),
        (let one : run_events id s trigger cmd ≡ event_of id s t cmd ∷ [] =
              ground (arith, known, single) in
            rw (one, follow-none d u cmd db1 {db' = db'} (rw single at h)) ran),
      )
      | inr (next, more) ↦
          (let (v, w, found, fits, moved) =
              follow_lem d u next cmd db1 {db' = db'} (rw more at h) in
            let (leaves, ran2) =
              Ran-of_second next cmd t v u w id db1 db' found fits ran.after same_id same_status
                (transition-Moved d u next v cmd db1 {updated = w} {db' = db'} moved) in
            let two : run_events id s trigger cmd
                ≡ event_of id s t cmd ∷ (event_of id t.to v cmd ∷ []) =
              ground (arith, known, more, found) in
            (
              v.to,
              ground (arith, known, allowed, more, found, leaves),
              rw two (Ran-trans ran ran2),
            ))
    ]

-- On an order that was read from its row, a successful run leads to the next status of the table, changes no other order, and appends the
-- audit rows of its transitions.
pub run_transition-Ran :
    (d : Driver) (order : Order) (trigger : Trigger) (cmd : TransitionCommand) (db : Db) {db' : Db}
    → status_of order.id db ≡ some order.status
    → run_transition d order trigger cmd db ≡ ok (tt, db')
    → (s : Status) × (next_status trigger order.status ≡ some s)
      × Ran order.id order.status s (run_events order.id order.status trigger cmd) db db'
run_transition-Ran d order trigger cmd db {db' = db'} current h =
    let (t, u, db1, known, allowed, moved, rest) =
      run_transition_lem d order trigger cmd db {db' = db'} h in
    let (ran, same_id, same_status) =
      Moved-Ran order trigger t cmd db {updated = u} {db' = db1} current
        (transition-Moved d order trigger t cmd db {updated = u} {db' = db1} moved) in
    Ran-of_first d trigger cmd t u db db1 db' order.id order.status known allowed ran same_id
      same_status rest
