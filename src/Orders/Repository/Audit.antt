-- ===== src/Orders/Repository/Audit.antt =====
-- The audit log of internal/modules/orders/repository.go against the status of the orders.
use binno_pta_2026_evaluatio.Prelude.{
  ℕ, ◌≡◌, ◌≢◌, refl, sym, ◌∙◌, Option, none, some, List, [], ◌∷◌, ◌++◌, String, arith, ◌==◌,
  if◌then◌else◌, Result, ok, err, ◌⊎◌, inl, inr, ==-cases, ap,
}
use binno_pta_2026_evaluatio.Db.{Db, Driver, OrderEvent}
use binno_pta_2026_evaluatio.Tx.Dedup.{add_receipt}
use binno_pta_2026_evaluatio.Orders.Status.{Status, Trigger, transition_for, permits}
use binno_pta_2026_evaluatio.Orders.Status.Paths.{next_status}
use binno_pta_2026_evaluatio.Orders.Errors.{Error}
use binno_pta_2026_evaluatio.Orders.Repository.{TransitionCommand, apply}
use binno_pta_2026_evaluatio.Orders.Repository.Rows.{status_of, status_in}
use binno_pta_2026_evaluatio.Orders.Repository.Runs.{Ran, run_events}
use binno_pta_2026_evaluatio.Orders.Repository.Replay.{IsApplied, apply_lem, apply_atomic}

abbrev pub or_else : Option Status → Option Status → Option Status
or_else (some s) t = some s
or_else none t = t

-- The status that the last event of an order names.
abbrev pub last_status : ℕ → List OrderEvent → Option Status
last_status id [] = none
last_status id (e ∷ es) =
    or_else (last_status id es) (if e.order_id == id then some e.to_status else none)

pub last_status-append :
    (id : ℕ) (es fs : List OrderEvent)
    → last_status id (es ++ fs) ≡ or_else (last_status id fs) (last_status id es)
last_status-append id [] fs = ground arith
last_status-append id (e ∷ es) fs = ground (arith, last_status-append id es fs)

-- The log of an order is empty, or its last event names the order's status.
abbrev pub IsAudited : Db → Type 0
IsAudited db =
    (id : ℕ) → (last_status id db.events ≡ none) ⊎ (last_status id db.events ≡ status_of id db)

last_status-run_events :
    (id : ℕ) (s : Status) (trigger : Trigger) (cmd : TransitionCommand) {s' : Status}
    → next_status trigger s ≡ some s'
    → last_status id (run_events id s trigger cmd) ≡ some s'
unfolding next_status transition_for permits
last_status-run_events id s trigger cmd h = ground arith

run_events-others :
    (id j : ℕ) (s : Status) (trigger : Trigger) (cmd : TransitionCommand)
    → j ≢ id
    → last_status j (run_events id s trigger cmd) ≡ none
unfolding transition_for
run_events-others id j s trigger cmd h = ground arith

pub Ran-IsAudited :
    (id : ℕ) (s s' : Status) (trigger : Trigger) (cmd : TransitionCommand) (db db' : Db)
    → next_status trigger s ≡ some s'
    → Ran id s s' (run_events id s trigger cmd) db db'
    → IsAudited db
    → IsAudited db'
Ran-IsAudited id s s' trigger cmd db db' next ran audited j = elim (==-cases j id) [
  | inl same ↦ inr (named same)
  | inr differ ↦ kept differ (audited j)
]
  where
    log :
        (k : ℕ)
        → last_status k db'.events
          ≡ or_else (last_status k (run_events id s trigger cmd)) (last_status k db.events)
    log k = rw ran.events (last_status-append k db.events (run_events id s trigger cmd))

    named : j ≡ id → last_status j db'.events ≡ status_of j db'
    named same =
        rw same (log id ∙ (rw (last_status-run_events id s trigger cmd next) (sym ran.after)))

    untouched : j ≢ id → last_status j db'.events ≡ last_status j db.events
    untouched differ = log j ∙ (rw (run_events-others id j s trigger cmd differ) refl)

    kept :
        j ≢ id
        → (last_status j db.events ≡ none) ⊎ (last_status j db.events ≡ status_of j db)
        → (last_status j db'.events ≡ none) ⊎ (last_status j db'.events ≡ status_of j db')
    kept differ (inl empty) = inl (untouched differ ∙ empty)
    kept differ (inr agrees) =
        inr (untouched differ ∙ agrees ∙ (ap status_in (sym (ran.others j differ))))

IsApplied-IsAudited :
    (key : String) (id : ℕ) (cmd : TransitionCommand) (db db' : Db)
    → IsApplied key id cmd db db'
    → IsAudited db
    → IsAudited db'
IsApplied-IsAudited key id cmd db db' (inl (_, same)) audited = rw same audited
IsApplied-IsAudited key id cmd db db' (inr (_, changed)) audited =
    let (s, s', next, ran) = changed in
    Ran-IsAudited id s s' cmd.trigger cmd (add_receipt key id cmd.at db) db' next ran audited

pub apply-IsAudited :
    (d : Driver) (key : String) (cmd : TransitionCommand) (db : Db)
    → IsAudited db
    → IsAudited (apply d key cmd db).1
apply-IsAudited d key cmd db audited = by_result (apply d key cmd db) refl
  where
    by_result : (r : Result Error (Unit {0}) × Db) → apply d key cmd db ≡ r → IsAudited r.1
    by_result (ok tt, db') h =
        let (id, _, applied) = apply_lem d key cmd db {db' = db'} h in
        IsApplied-IsAudited key id cmd db db' applied audited
    by_result (err e, db') h = rw (apply_atomic d key cmd db h) audited
