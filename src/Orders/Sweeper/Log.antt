-- ===== src/Orders/Sweeper/Log.antt =====
-- The audit log under a pass of internal/modules/orders/sweeper.go.
use binno_pta_2026_evaluatio.Prelude.{
  ℕ, suc, ◌+◌, ◌≡◌, sym, subst, Bool, true, false, List, [], ◌∷◌, String, Result, ok, err, inl, inr,
  ltb, Bool-cases,
}
use binno_pta_2026_evaluatio.Db.{Db, Driver}
use binno_pta_2026_evaluatio.Orders.Errors.{Error}
use binno_pta_2026_evaluatio.Orders.Repository.{DueOrder, record_escalation, apply}
use binno_pta_2026_evaluatio.Orders.Repository.Audit.{IsAudited, apply-IsAudited}
use binno_pta_2026_evaluatio.Orders.Repository.Escalation.{escalation-frame}
use binno_pta_2026_evaluatio.Orders.Sweeper.{
  SweeperConfig, Sweep, sweep_due, sweep_unpaid, confirmed_half, run_once, awaiting_confirmation,
  payment_overdue, expire_command, payment_command, escalation_key, expiry_key, payment_expiry_key,
  escalation_done, after_escalation, payment_expiry_done, start,
}
use binno_pta_2026_evaluatio.Orders.Sweeper.Fates.{expiry_done-db, payment_expiry_done-db}

same_log : (a b : Db) → b.orders ≡ a.orders → b.events ≡ a.events → IsAudited a → IsAudited b
same_log a b orders events audited id = rw (orders, events) (audited id)

module _ (d : Driver) (decimal : ℕ → String) (cfg : SweeperConfig) (now : ℕ) where
  after_escalation-IsAudited :
      (x : DueOrder) (s : Sweep)
      → IsAudited s.db
      → IsAudited (after_escalation d decimal cfg now x s).db
  unfolding after_escalation
  after_escalation-IsAudited x s h = elim (Bool-cases (ltb now (x.due_at + cfg.expiry_grace))) [
    | inl early ↦ rw early h
    | inr late ↦ rw late (
        subst IsAudited
          (sym (
            expiry_done-db d decimal cfg now 0 x s
              (apply d (expiry_key decimal x) (expire_command x now) s.db)))
          (apply-IsAudited d (expiry_key decimal x) (expire_command x now) s.db h))
  ]

  escalation_done-IsAudited :
      (x : DueOrder) (s : Sweep) (r : Result Error Bool × Db)
      → IsAudited r.1
      → IsAudited (escalation_done d decimal cfg now x s r).db
  unfolding escalation_done
  escalation_done-IsAudited x s (err e, db) h = h
  escalation_done-IsAudited x s (ok true, db) h =
      after_escalation-IsAudited x
        (record s { db = db; result = record s.result { escalated = suc s.result.escalated } }) h
  escalation_done-IsAudited x s (ok false, db) h =
      after_escalation-IsAudited x (record s { db = db }) h

  sweep_due-IsAudited :
      (orders : List DueOrder) (s : Sweep)
      → IsAudited s.db
      → IsAudited (sweep_due d decimal cfg now orders s).db
  unfolding sweep_due
  sweep_due-IsAudited [] s h = h
  sweep_due-IsAudited (x ∷ xs) s h =
      let r = record_escalation d (escalation_key decimal x) x now s.db in
      let (orders, events) = escalation-frame d (escalation_key decimal x) x now s.db in
      sweep_due-IsAudited xs (escalation_done d decimal cfg now x s r)
        (escalation_done-IsAudited x s r (same_log s.db r.1 orders events h))

  sweep_unpaid-IsAudited :
      (orders : List DueOrder) (s : Sweep)
      → IsAudited s.db
      → IsAudited (sweep_unpaid d decimal now orders s).db
  unfolding sweep_unpaid
  sweep_unpaid-IsAudited [] s h = h
  sweep_unpaid-IsAudited (x ∷ xs) s h =
      let r = apply d (payment_expiry_key decimal x) (payment_command x now) s.db in
      sweep_unpaid-IsAudited xs (payment_expiry_done x s r) (
        subst IsAudited (sym (payment_expiry_done-db d decimal cfg now 0 x s r))
          (apply-IsAudited d (payment_expiry_key decimal x) (payment_command x now) s.db h))

-- However the calls of a pass end: if the last event of each order that has one names the order's
-- status before it, then so it does afterwards.
pub sweep-IsAudited :
    (d : Driver) (decimal : ℕ → String) (cfg : SweeperConfig) (now : ℕ) (db : Db)
    → IsAudited db
    → IsAudited (run_once d decimal cfg now db).db
unfolding run_once
sweep-IsAudited d decimal cfg now db h =
    let half = confirmed_half d decimal cfg now db in
    sweep_unpaid-IsAudited d decimal cfg now (payment_overdue d now cfg.batch half.db) half (
      sweep_due-IsAudited d decimal cfg now (awaiting_confirmation d now cfg.batch db) (start db) h)
