-- ===== src/Orders/Sweeper/Fates.antt =====
-- What a pass of internal/modules/orders/sweeper.go does to the orders and their log.
use binno_pta_2026_evaluatio.Prelude.{
  ℕ, ◌+◌, ◌≤◌, ◌≡◌, ◌≢◌, refl, sym, ◌∙◌, ap, subst, Bool, true, false, Option, some, List, [], ◌∷◌,
  String, ◌⊎◌, inl, inr, Result, ok, err, arith, suc, find_row, ltb, ==-cases, Bool-cases,
}
use binno_pta_2026_evaluatio.Db.{Db, Driver, Order}
use binno_pta_2026_evaluatio.Orders.Status.{
  Status, Trigger, expire, payment_expire, created, awaiting_payment, expired, transition_for,
  permits,
}
use binno_pta_2026_evaluatio.Orders.Status.Paths.{next_status}
use binno_pta_2026_evaluatio.Orders.Errors.{Error}
use binno_pta_2026_evaluatio.Orders.Repository.{
  DueOrder, TransitionCommand, record_escalation, apply, has_id,
}
use binno_pta_2026_evaluatio.Orders.Repository.Escalation.{escalation-frame}
use binno_pta_2026_evaluatio.Orders.Repository.Rows.{status_of, status_in}
use binno_pta_2026_evaluatio.Orders.Repository.Replay.{IsApplied, apply_lem, apply_atomic}
use binno_pta_2026_evaluatio.Orders.Sweeper.{
  SweeperConfig, Sweep, sweep_due, sweep_unpaid, confirmed_half, run_once, awaiting_confirmation,
  payment_overdue, expire_command, payment_command, escalation_key, expiry_key, payment_expiry_key,
  escalation_done, after_escalation, expiry_done, payment_expiry_done, start,
}

-- Some element of the list.
abbrev pub Has : (DueOrder → Type 0) → List DueOrder → Type 0
Has P [] = ⊥
Has P (x ∷ xs) = P x ⊎ Has P xs

-- The trigger leads from one status only, to the end of an order that ran out.
abbrev Expires : Trigger → Status → Type 0
Expires trigger from =
    (s s' : Status) → next_status trigger s ≡ some s' → (s ≡ from) × (s' ≡ expired)

expire-Expires : Expires expire created
unfolding next_status transition_for permits
expire-Expires s s' h = ground arith

payment_expire-Expires : Expires payment_expire awaiting_payment
unfolding next_status transition_for permits
payment_expire-Expires s s' h = ground arith

-- The status of an order stays, or goes from the one status to `expired`, if the order fits.
abbrev pub Fate : Status → Type 0 → ℕ → Db → Db → Type 0
Fate from fits id db db' =
    (status_of id db' ≡ status_of id db)
    ⊎ (fits × (status_of id db ≡ some from) × (status_of id db' ≡ some expired))

apply-Fate :
    (d : Driver) (key : String) (cmd : TransitionCommand) (from : Status) (id : ℕ) (db : Db)
    → Expires cmd.trigger from
    → Fate from (d.parse_uuid cmd.order_id ≡ some id) id db (apply d key cmd db).1
apply-Fate d key cmd from id db only = by_result (apply d key cmd db) refl
  where
    by_applied :
        (j : ℕ) (db' : Db)
        → d.parse_uuid cmd.order_id ≡ some j
        → IsApplied key j cmd db db'
        → Fate from (d.parse_uuid cmd.order_id ≡ some id) id db db'
    by_applied j db' parsed (inl (_, same)) = inl (ap (status_of id) same)
    by_applied j db' parsed (inr (_, (s, s', next, ran))) = elim (==-cases id j) [
      | inl same ↦
          let (is_from, is_expired) = only s s' next in
          inr (
            parsed ∙ ap some (sym same),
            ap (λ i. status_of i db) same ∙ (ran.before ∙ ap some is_from),
            ap (λ i. status_of i db') same ∙ (ran.after ∙ ap some is_expired),
          )
      | inr differ ↦ inl (ap status_in (ran.others id differ))
    ]

    by_result :
        (r : Result Error (Unit {0}) × Db)
        → apply d key cmd db ≡ r
        → Fate from (d.parse_uuid cmd.order_id ≡ some id) id db r.1
    by_result (ok tt, db') h =
        let (j, parsed, applied) = apply_lem d key cmd db {db' = db'} h in
        by_applied j db' parsed applied
    by_result (err e, db') h = inl (ap (status_of id) (apply_atomic d key cmd db h))

-- The fates of two steps, the first for an order that fits `P` and the second for one that fits `Q`.
Fate-trans :
    {P Q : Type 0} (from : Status) (id : ℕ) (a b c : Db)
    → from ≢ expired
    → Fate from P id a b
    → Fate from Q id b c
    → Fate from (P ⊎ Q) id a c
Fate-trans from id a b c passing (inl p) (inl q) = inl (q ∙ p)
Fate-trans from id a b c passing (inl p) (inr (fits, before, after)) =
    inr (inr fits, sym p ∙ before, after)
Fate-trans from id a b c passing (inr (fits, before, after)) (inl q) =
    inr (inl fits, before, q ∙ after)
Fate-trans from id a b c passing (inr (_, _, after)) (inr (_, before, _)) =
    absurd (passing (some_eq (sym before ∙ after)))
  where
    some_eq : {s t : Status} → ◌≡◌ {A = Option Status} (some s) (some t) → s ≡ t
    some_eq h = cc

Fate-map :
    {P Q : Type 0} (from : Status) (id : ℕ) (a b : Db)
    → (P → Q)
    → Fate from P id a b
    → Fate from Q id a b
Fate-map from id a b f (inl p) = inl p
Fate-map from id a b f (inr (fits, before, after)) = inr (f fits, before, after)

Fate-after :
    {P : Type 0} (from : Status) (id : ℕ) (a b c : Db)
    → status_of id b ≡ status_of id a
    → Fate from P id b c
    → Fate from P id a c
Fate-after from id a b c same (inl p) = inl (p ∙ same)
Fate-after from id a b c same (inr (fits, before, after)) = inr (fits, sym same ∙ before, after)

module _ (d : Driver) (decimal : ℕ → String) (cfg : SweeperConfig) (now id : ℕ) where
  -- The order is the one listed, and its grace is over.
  abbrev pub IsExpirable : DueOrder → Type 0
  IsExpirable x = (d.parse_uuid x.order_id ≡ some id) × (x.due_at + cfg.expiry_grace ≤ now)

  pub expiry_done-db :
      (x : DueOrder) (s : Sweep) (r : Result Error (Unit {0}) × Db) → (expiry_done x s r).db ≡ r.1
  unfolding expiry_done
  expiry_done-db x s (ok _, db) = refl
  expiry_done-db x s (err e, db) = refl

  after_escalation-Fate :
      (x : DueOrder) (s : Sweep)
      → Fate created (IsExpirable x) id s.db (after_escalation d decimal cfg now x s).db
  unfolding after_escalation
  after_escalation-Fate x s = elim (Bool-cases (ltb now (x.due_at + cfg.expiry_grace))) [
    | inl early ↦ rw early (inl refl)
    | inr late ↦ rw late (
        subst (Fate created (IsExpirable x) id s.db) (sym (expiry_done-db x s _)) (
          Fate-map created id s.db (apply d (expiry_key decimal x) (expire_command x now) s.db).1
            (λ known. (known, ground (arith, late)))
            (apply-Fate d (expiry_key decimal x) (expire_command x now) created id s.db
              expire-Expires)))
  ]

  escalation_done-Fate :
      (x : DueOrder) (s : Sweep) (r : Result Error Bool × Db)
      → status_of id r.1 ≡ status_of id s.db
      → Fate created (IsExpirable x) id s.db (escalation_done d decimal cfg now x s r).db
  unfolding escalation_done
  escalation_done-Fate x s (err e, db) h = inl h
  escalation_done-Fate x s (ok true, db) h =
      let s' = record s {
        db = db;
        result = record s.result { escalated = suc s.result.escalated };
      } in
      Fate-after created id s.db db (after_escalation d decimal cfg now x s').db h
        (after_escalation-Fate x s')
  escalation_done-Fate x s (ok false, db) h =
      let s' = record s { db = db } in
      Fate-after created id s.db db (after_escalation d decimal cfg now x s').db h
        (after_escalation-Fate x s')

  sweep_due-Fate :
      (orders : List DueOrder) (s : Sweep)
      → Fate created (Has IsExpirable orders) id s.db (sweep_due d decimal cfg now orders s).db
  unfolding sweep_due
  sweep_due-Fate [] s = inl refl
  sweep_due-Fate (x ∷ xs) s =
      let r = record_escalation d (escalation_key decimal x) x now s.db in
      let s' = escalation_done d decimal cfg now x s r in
      Fate-trans created id s.db s'.db (sweep_due d decimal cfg now xs s').db (λ e. cc)
        (escalation_done-Fate x s r (
          ap (λ (os : List Order). status_in (find_row (has_id id) os))
            (escalation-frame d (escalation_key decimal x) x now s.db).0))
        (sweep_due-Fate xs s')

  abbrev pub IsListed : DueOrder → Type 0
  IsListed x = d.parse_uuid x.order_id ≡ some id

  pub payment_expiry_done-db :
      (x : DueOrder) (s : Sweep) (r : Result Error (Unit {0}) × Db)
      → (payment_expiry_done x s r).db ≡ r.1
  unfolding payment_expiry_done
  payment_expiry_done-db x s (ok _, db) = refl
  payment_expiry_done-db x s (err e, db) = refl

  sweep_unpaid-Fate :
      (orders : List DueOrder) (s : Sweep)
      → Fate awaiting_payment (Has IsListed orders) id s.db (sweep_unpaid d decimal now orders s).db
  unfolding sweep_unpaid
  sweep_unpaid-Fate [] s = inl refl
  sweep_unpaid-Fate (x ∷ xs) s =
      let r = apply d (payment_expiry_key decimal x) (payment_command x now) s.db in
      let s' = payment_expiry_done x s r in
      Fate-trans awaiting_payment id s.db s'.db (sweep_unpaid d decimal now xs s').db (λ e. cc)
        (subst (Fate awaiting_payment (IsListed x) id s.db) (sym (payment_expiry_done-db x s r)) (
          apply-Fate d (payment_expiry_key decimal x) (payment_command x now) awaiting_payment id
            s.db payment_expire-Expires))
        (sweep_unpaid-Fate xs s')

-- Each order keeps its status through a pass of the sweeper, however its calls end, or is one of
-- two: it was created, was listed as overdue before the pass, its grace was over, and it is expired
-- now; or it awaited payment, was listed as unpaid once the first loop was done, and it is expired
-- now.
pub run_once-Fate :
    (d : Driver) (decimal : ℕ → String) (cfg : SweeperConfig) (now id : ℕ) (db : Db)
    → let after = (run_once d decimal cfg now db).db in
      (status_of id after ≡ status_of id db)
      ⊎ ((Has (IsExpirable d decimal cfg now id) (awaiting_confirmation d now cfg.batch db)
            × (status_of id db ≡ some created)
            × (status_of id after ≡ some expired))
          ⊎ (Has
                (IsListed d decimal cfg now id)
                (payment_overdue d now cfg.batch (confirmed_half d decimal cfg now db).db)
              × (status_of id db ≡ some awaiting_payment)
              × (status_of id after ≡ some expired)))
unfolding run_once
run_once-Fate d decimal cfg now id db =
    let half = confirmed_half d decimal cfg now db in
    join db half.db (sweep_unpaid d decimal now (payment_overdue d now cfg.batch half.db) half).db
      (sweep_due-Fate d decimal cfg now id (awaiting_confirmation d now cfg.batch db) (start db))
      (sweep_unpaid-Fate d decimal cfg now id (payment_overdue d now cfg.batch half.db) half)
  where
    join :
        {P Q : Type 0} (a b c : Db)
        → Fate created P id a b
        → Fate awaiting_payment Q id b c
        → (status_of id c ≡ status_of id a)
          ⊎ ((P × (status_of id a ≡ some created) × (status_of id c ≡ some expired))
              ⊎ (Q × (status_of id a ≡ some awaiting_payment) × (status_of id c ≡ some expired)))
    join a b c (inl p) (inl q) = inl (q ∙ p)
    join a b c (inl p) (inr (fits, before, after)) = inr (inr (fits, sym p ∙ before, after))
    join a b c (inr (fits, before, after)) (inl q) = inr (inl (fits, before, q ∙ after))
    join a b c (inr (_, _, after)) (inr (_, before, _)) = cc
