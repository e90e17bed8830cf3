-- ===== src/Orders/Repository/Replay.antt =====
-- `Apply` of internal/modules/orders/repository.go: atomicity, and what a success did.
use binno_pta_2026_evaluatio.Prelude.{
  ℕ, ◌≡◌, refl, sym, Bool, true, false, none, some, String, arith, ok, err, >>=-eq-ok,
  map_err-eq-ok, subst, or_throw-eq-ok, or_throw, map_err, find_row, Option-cases, ok-injective,
  Result-cases, inl, inr, ◌⊎◌,
}
use binno_pta_2026_evaluatio.Db.{Db, Driver, Order, Receipt}
use binno_pta_2026_evaluatio.Tx.{Ending, commit, rollback}
use binno_pta_2026_evaluatio.Tx.Dedup.{
  has_key, stored_uuid, add_receipt, reserve_for, reserve_for_lem,
}
use binno_pta_2026_evaluatio.Orders.Status.{Status, transition_for}
use binno_pta_2026_evaluatio.Orders.Status.Paths.{next_status}
use binno_pta_2026_evaluatio.Orders.Errors.{Error, not_found, map_dedup_error}
use binno_pta_2026_evaluatio.Orders.Repository.{
  TransitionCommand, apply, apply_body, apply_claimed, run_transition, get_order, has_id,
}
use binno_pta_2026_evaluatio.Orders.Repository.Rows.{status_of, find_row-holds}
use binno_pta_2026_evaluatio.Orders.Repository.Runs.{Ran, run_events, run_transition-Ran}

-- An `Apply` that reports an error leaves every table as it was.
pub apply_atomic :
    (d : Driver) (key : String) (cmd : TransitionCommand) (db : Db) {e : Error} {db' : Db}
    → apply d key cmd db ≡ (err e, db')
    → db' ≡ db
unfolding apply
apply_atomic d key cmd db h = elim (Option-cases (transition_for cmd.trigger)) [
  | inl unknown ↦ ground (arith, unknown)
  | inr (t, known) ↦ elim (Option-cases (d.parse_uuid cmd.order_id)) [
    | inl malformed ↦ ground (arith, known, malformed)
    | inr (id, parsed) ↦ elim (Result-cases (apply_body d key id cmd db)) [
      | inl ((commit _, db1), e) ↦ ground (arith, known, parsed, e)
      | inl ((rollback _, db1), e) ↦ ground (arith, known, parsed, e)
      | inr (x, e) ↦ ground (arith, known, parsed, e)
    ]
  ]
]

-- The key is bound to the resource.
abbrev pub IsBound : String → ℕ → Db → Type 0
IsBound key id db =
    (r : Receipt) × (find_row (has_key key) db.receipts ≡ some r) × (stored_uuid r.resource_id ≡ id)

abbrev pub IsFree : String → Db → Type 0
IsFree key db = find_row (has_key key) db.receipts ≡ none

-- What a successful `reserve_for` did.
pub reserve_for-cases :
    (key : String) (id at : ℕ) (db : Db) {replay : Bool} {db' : Db}
    → reserve_for key id at db ≡ ok (replay, db')
    → ((replay ≡ false) × IsFree key db × (db' ≡ add_receipt key id at db))
      ⊎ ((replay ≡ true) × IsBound key id db × (db' ≡ db))
reserve_for-cases key id at db h = elim (Option-cases (find_row (has_key key) db.receipts)) [
  | inl free ↦ inl (
    ground (arith, free, reserve_for_lem key id at db),
    free,
    ground (arith, free, reserve_for_lem key id at db),
  )
  | inr (r, bound) ↦ inr (
    ground (arith, bound, reserve_for_lem key id at db),
    (r, bound, ground (arith, bound, reserve_for_lem key id at db)),
    ground (arith, bound, reserve_for_lem key id at db),
  )
]

pub Ran-of_claimed :
    (d : Driver) (id : ℕ) (order : Order) (cmd : TransitionCommand) (db db1 db2 db' : Db)
    → find_row (has_id id) db.orders ≡ some order
    → db1 ≡ db
    → db2 ≡ db'
    → run_transition d order cmd.trigger cmd db1 ≡ ok (tt, db2)
    → (s s' : Status) × (next_status cmd.trigger s ≡ some s')
      × Ran id s s' (run_events id s cmd.trigger cmd) db db'
Ran-of_claimed d id order cmd db db1 db2 db' row start stop h =
    let same : order.id ≡ id = ground (arith, find_row-holds (has_id id) db.orders row) in
    let current : status_of order.id db ≡ some order.status = rw (same, row) refl in
    let (s', next, ran) = run_transition-Ran d order cmd.trigger cmd db {db' = db'} current cc in
    (order.status, s', next, rw same at ran)

claimed-Ran :
    (d : Driver) (id : ℕ) (cmd : TransitionCommand) (db : Db) {end : Ending (Unit {0})} {db' : Db}
    → apply_claimed d id cmd false db ≡ ok (end, db')
    → (end ≡ commit tt)
      × ((s s' : Status) × (next_status cmd.trigger s ≡ some s')
          × Ran id s s' (run_events id s cmd.trigger cmd) db db')
unfolding apply_claimed
claimed-Ran d id cmd db {end = end} {db' = db'} h =
    let (order, db1, found, h1) = >>=-eq-ok (or_throw (get_order id db) not_found) _ db h in
    let (_, db2, ran, h2) = >>=-eq-ok (run_transition d order cmd.trigger cmd) _ db1 h1 in
    let (row, same) = or_throw-eq-ok (get_order id db) not_found db found in
    let (result, final) = ok-injective h2 in
    (sym result, Ran-of_claimed d id order cmd db db1 db2 db' row same final ran)

-- What a successful `Apply` did to the order: nothing as a replay, else one run.
abbrev pub IsApplied : String → ℕ → TransitionCommand → Db → Db → Type 0
IsApplied key id cmd db db' =
    (IsBound key id db × (db' ≡ db))
    ⊎ (IsFree key db
        × ((s s' : Status) × (next_status cmd.trigger s ≡ some s')
            × Ran id s s' (run_events id s cmd.trigger cmd) (add_receipt key id cmd.at db) db'))

kept : {A : Type 0} → Ending A → (before after : Db) → Db
kept (commit _) before after = after
kept (rollback _) before after = before

replayed-IsApplied :
    (d : Driver) (key : String) (id : ℕ) (cmd : TransitionCommand) (db db1 db' : Db)
    (end : Ending (Unit {0}))
    → IsBound key id db
    → apply_claimed d id cmd true db1 ≡ ok (end, db')
    → IsApplied key id cmd db (kept end db db')
unfolding apply_claimed kept
replayed-IsApplied d key id cmd db db1 db' end bound h =
    let (result, _) = ok-injective h in inl (bound, rw (← result) refl)

ran-IsApplied :
    (d : Driver) (key : String) (id : ℕ) (cmd : TransitionCommand) (db db1 db' : Db)
    (end : Ending (Unit {0}))
    → IsFree key db
    → db1 ≡ add_receipt key id cmd.at db
    → apply_claimed d id cmd false db1 ≡ ok (end, db')
    → IsApplied key id cmd db (kept end db db')
unfolding kept
ran-IsApplied d key id cmd db db1 db' end free claimed h =
    let (result, ran) =
      claimed-Ran d id cmd (add_receipt key id cmd.at db) {end = end} {db' = db'}
        (rw (← claimed) h) in
    inr (free, rw result ran)

claimed-IsApplied :
    (d : Driver) (key : String) (id : ℕ) (cmd : TransitionCommand) (db db1 db' : Db)
    (end : Ending (Unit {0})) (replay : Bool)
    → reserve_for key id cmd.at db ≡ ok (replay, db1)
    → apply_claimed d id cmd replay db1 ≡ ok (end, db')
    → IsApplied key id cmd db (kept end db db')
claimed-IsApplied d key id cmd db db1 db' end replay reserved h =
    elim (reserve_for-cases key id cmd.at db reserved) [
      | inl (fresh, free, claimed) ↦ ran-IsApplied d key id cmd db db1 db' end free claimed cc
      | inr (again, bound, _) ↦ replayed-IsApplied d key id cmd db db1 db' end bound cc
    ]

body-IsApplied :
    (d : Driver) (key : String) (id : ℕ) (cmd : TransitionCommand) (db db' : Db)
    (end : Ending (Unit {0}))
    → apply_body d key id cmd db ≡ ok (end, db')
    → IsApplied key id cmd db (kept end db db')
unfolding apply_body
body-IsApplied d key id cmd db db' end h =
    let (replay, db1, reserved, h1) =
      >>=-eq-ok (map_err map_dedup_error (reserve_for key id cmd.at)) _ db h in
    claimed-IsApplied d key id cmd db db1 db' end replay
      (map_err-eq-ok map_dedup_error (reserve_for key id cmd.at) db reserved) h1

-- An `Apply` that succeeds is for a well-formed order id. Either the key was bound to that order
-- already and no table changed, or the key was free and is bound to the order now, the order went
-- from its status to the one that the trigger leads to, follow-on included, with the audit rows of
-- these transitions appended, and no other order changed.
pub apply_lem :
    (d : Driver) (key : String) (cmd : TransitionCommand) (db : Db) {db' : Db}
    → apply d key cmd db ≡ (ok tt, db')
    → (id : ℕ) × (d.parse_uuid cmd.order_id ≡ some id) × IsApplied key id cmd db db'
unfolding apply kept
apply_lem d key cmd db {db' = db'} h = elim (Option-cases (transition_for cmd.trigger)) [
  | inl unknown ↦ absurd (ground (arith, unknown))
  | inr (t, known) ↦ elim (Option-cases (d.parse_uuid cmd.order_id)) [
    | inl malformed ↦ absurd (ground (arith, known, malformed))
    | inr (id, parsed) ↦ elim (Result-cases (apply_body d key id cmd db)) [
      | inl ((commit u, db1), e) ↦ (
        id,
        parsed,
        subst (IsApplied key id cmd db) (ground (arith, known, parsed, e))
            (body-IsApplied d key id cmd db db1 (commit u) e),
      )
      | inl ((rollback u, db1), e) ↦ (
        id,
        parsed,
        subst (IsApplied key id cmd db) (ground (arith, known, parsed, e))
            (body-IsApplied d key id cmd db db1 (rollback u) e),
      )
      | inr (x, e) ↦ absurd (ground (arith, known, parsed, e))
    ]
  ]
]
