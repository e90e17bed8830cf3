-- ===== src/Billing/RefundSweep/Passing.antt =====
-- What a pass of internal/modules/billing/refundsweep.go does to the table of refunds, with
-- `RefundOverdue` of internal/modules/orders/module.go as its callback.
use binno_pta_2026_evaluatio.Prelude.{
  ℕ, suc, ◌+◌, ◌≡◌, refl, sym, ◌∙◌, ap, length, length-append, true, Option, some, List, [], ◌∷◌,
  String, ◌⊎◌, inl, inr, Result, ok, err, arith, update_rows, Option-cases, Bool-cases, ==-cases,
  if◌then◌else◌, subst,
}
use binno_pta_2026_evaluatio.Db.{Db, Driver, Refund}
use binno_pta_2026_evaluatio.Tx.Dedup.{reserve_for_lem}
use binno_pta_2026_evaluatio.Orders.Status.{Trigger, transition_for, permits}
use binno_pta_2026_evaluatio.Orders.Errors.{Error}
use binno_pta_2026_evaluatio.Orders.Repository.{
  TransitionCommand, apply, write_outbox, run_transition, transition, transition_order, settle,
}
use binno_pta_2026_evaluatio.Billing.RefundSweep.{
  is_awaited, is_markable, marked_refund, mark_overdue, overdue_key, RefundPass, Callback,
  notify_order, counted, notified, sweep_refunds, refund_key, run_sweep, sweep_batch, pass_start,
  list_refunds_due, refund_overdue, tolerated,
}
use binno_pta_2026_evaluatio.Billing.RefundSweep.Marking.{mark_overdue_lem}

-- A refund stays as it was, or it waited, is one of those, and is overdue now.
abbrev pub Step : (ℕ → Type 0) → Refund → Refund → Type 0
Step P r q = (q ≡ r) ⊎ (P r.id × (is_awaited r.status ≡ true) × (q ≡ marked_refund r))

-- Row by row, with no row added or lost.
abbrev pub Advance : (ℕ → Type 0) → List Refund → List Refund → Type 0
Advance P [] [] = Unit {0}
Advance P [] (q ∷ qs) = ⊥
Advance P (r ∷ rs) [] = ⊥
Advance P (r ∷ rs) (q ∷ qs) = Step P r q × Advance P rs qs

Step-trans : (P : ℕ → Type 0) (r q t : Refund) → Step P r q → Step P q t → Step P r t
Step-trans P r q t (inl same) (inl same') = inl (same' ∙ same)
Step-trans P r q t (inl same) (inr (p, awaited, set)) = inr (
  subst (λ x. P x.id) same p,
  ap (λ x. is_awaited x.status) (sym same) ∙ awaited,
  set ∙ ap marked_refund same,
)
Step-trans P r q t (inr (p, awaited, set)) (inl same) = inr (p, awaited, same ∙ set)
Step-trans P r q t (inr (p, awaited, set)) (inr (p', awaited', set')) =
    inr (p, awaited, set' ∙ ap marked_refund set)

Advance-refl : (P : ℕ → Type 0) (rs : List Refund) → Advance P rs rs
Advance-refl P [] = tt
Advance-refl P (r ∷ rs) = (inl refl, Advance-refl P rs)

Advance-trans :
    (P : ℕ → Type 0) (rs qs ts : List Refund) → Advance P rs qs → Advance P qs ts → Advance P rs ts
Advance-trans P [] [] [] f g = tt
Advance-trans P [] [] (t ∷ ts) f g = elim g [ ]
Advance-trans P [] (q ∷ qs) ts f g = elim f [ ]
Advance-trans P (r ∷ rs) [] ts f g = elim f [ ]
Advance-trans P (r ∷ rs) (q ∷ qs) [] f g = elim g [ ]
Advance-trans P (r ∷ rs) (q ∷ qs) (t ∷ ts) (f, fs) (g, gs) =
    (Step-trans P r q t f g, Advance-trans P rs qs ts fs gs)

Step-map : (P Q : ℕ → Type 0) (r q : Refund) → ((id : ℕ) → P id → Q id) → Step P r q → Step Q r q
Step-map P Q r q f (inl same) = inl same
Step-map P Q r q f (inr (p, awaited, set)) = inr (f r.id p, awaited, set)

Advance-map :
    (P Q : ℕ → Type 0) (rs qs : List Refund)
    → ((id : ℕ) → P id → Q id)
    → Advance P rs qs
    → Advance Q rs qs
Advance-map P Q [] [] f s = s
Advance-map P Q [] (q ∷ qs) f s = elim s [ ]
Advance-map P Q (r ∷ rs) [] f s = elim s [ ]
Advance-map P Q (r ∷ rs) (q ∷ qs) f (s, ss) = (Step-map P Q r q f s, Advance-map P Q rs qs f ss)

-- `MarkRefundOverdue` on a row.
update-Step :
    (P : ℕ → Type 0) (id : ℕ) (r : Refund)
    → P id
    → Step P r (if is_markable id r then marked_refund r else r)
update-Step P id r p = elim (==-cases r.id id) [
  | inl same ↦ elim (Bool-cases (is_awaited r.status)) [
    | inl awaited ↦ inr (subst P (sym same) p, awaited, ground (arith, same, awaited))
    | inr settled ↦ inl (ground (arith, settled))
  ]
  | inr differ ↦ inl (ground (arith, differ))
]

update-Advance :
    (P : ℕ → Type 0) (id : ℕ) (rs : List Refund)
    → P id
    → Advance P rs (update_rows (is_markable id) marked_refund rs)
update-Advance P id [] p = tt
update-Advance P id (r ∷ rs) p = (update-Step P id r p, update-Advance P id rs p)

-- `RefundOverdue` moves orders only.
abbrev overdue_command : String → ℕ → TransitionCommand
overdue_command order_id now = record {
  order_id = order_id;
  trigger = Trigger.refund_overdue;
  reason = "";
  receipt_url = "";
  pickup_code = "";
  pickup_signature_url = "";
  at = now;
}

apply-refunds :
    (d : Driver) (key order_id : String) (now : ℕ) (db : Db)
    → (apply d key (overdue_command order_id now) db).1.refunds ≡ db.refunds
unfolding apply run_transition transition transition_for permits transition_order settle
    write_outbox
apply-refunds d key order_id now db = elim (Option-cases (d.parse_uuid order_id)) [
  | inl malformed ↦ ground (arith, malformed)
  | inr (id, parsed) ↦ ground (arith, parsed, reserve_for_lem key id now db)
]

tolerated-db : (r : Result Error (Unit {0}) × Db) → (tolerated r).1 ≡ r.1
unfolding tolerated
tolerated-db (ok u, db) = refl
tolerated-db (err e, db) = ground arith

refund_overdue-refunds :
    (d : Driver) (decimal : ℕ → String) (now : ℕ) (order_id : String) (due_at : ℕ) (db : Db)
    → (refund_overdue d decimal now order_id due_at db).1.refunds ≡ db.refunds
unfolding refund_overdue
refund_overdue-refunds d decimal now order_id due_at db =
    rw
      (tolerated-db (
        apply d (refund_key decimal "orders:refund_overdue:" order_id due_at)
          (overdue_command order_id now) db))
      (apply-refunds d (refund_key decimal "orders:refund_overdue:" order_id due_at) order_id now
        db)

mark_overdue-Advance :
    (P : ℕ → Type 0) (d : Driver) (key : String) (refund : Refund) (at : ℕ) (db : Db)
    → P refund.id
    → Advance P db.refunds (mark_overdue d key refund at db).1.refunds
mark_overdue-Advance P d key refund at db p = elim (mark_overdue_lem d key refund at db) [
  | inl same ↦ rw (ap (λ x. x.refunds) same) (Advance-refl P db.refunds)
  | inr (_, _, marked) ↦ rw (ap (λ r. r.1.refunds) marked) (update-Advance P refund.id db.refunds p)
]

-- The call for the order's side of one refund, and the pass after that refund.
abbrev order_side : Driver → (ℕ → String) → ℕ → Refund → RefundPass → Result Error (Unit {0}) × Db
order_side d decimal now r s = refund_overdue d decimal now (d.uuid_text r.order_id) r.due_at s.db

abbrev after_refund : Driver → (ℕ → String) → ℕ → Refund → RefundPass → RefundPass
after_refund d decimal now r s = notified d decimal now r s (order_side d decimal now r s)

-- On its way through the refunds the pass came to this one, and the call for its order succeeded.
abbrev pub IsOrderMoved : Driver → (ℕ → String) → ℕ → List Refund → RefundPass → ℕ → Type 0
IsOrderMoved d decimal now [] s id = ⊥
IsOrderMoved d decimal now (r ∷ rs) s id =
    ((r.id ≡ id) × ((order_side d decimal now r s).0 ≡ ok tt))
    ⊎ IsOrderMoved d decimal now rs (after_refund d decimal now r s) id

counted-db : (s : RefundPass) (r : Result Error (Unit {0}) × Db) → (counted s r).db ≡ r.1
unfolding counted
counted-db s (ok u, db) = refl
counted-db s (err e, db) = refl

notified-Advance :
    (P : ℕ → Type 0) (d : Driver) (decimal : ℕ → String) (now : ℕ) (r : Refund) (s : RefundPass)
    (o : Result Error (Unit {0}) × Db)
    → o.1.refunds ≡ s.db.refunds
    → (o.0 ≡ ok tt → P r.id)
    → Advance P s.db.refunds (notified d decimal now r s o).db.refunds
unfolding notified
notified-Advance P d decimal now r s (err e, db) same give =
    rw (sym same) (Advance-refl P db.refunds)
notified-Advance P d decimal now r s (ok u, db) same give = rw (sym same) (
    rw (ap (λ x. x.refunds) (counted-db s (mark_overdue d (overdue_key d decimal r) r now db)))
      (mark_overdue-Advance P d (overdue_key d decimal r) r now db (give refl)))

after_refund-Advance :
    (d : Driver) (decimal : ℕ → String) (now : ℕ) (r : Refund) (s : RefundPass)
    → Advance
        (λ id. (r.id ≡ id) × ((order_side d decimal now r s).0 ≡ ok tt))
        s.db.refunds
        (after_refund d decimal now r s).db.refunds
after_refund-Advance d decimal now r s =
    notified-Advance (λ id. (r.id ≡ id) × ((order_side d decimal now r s).0 ≡ ok tt)) d decimal now
      r s (order_side d decimal now r s)
      (refund_overdue-refunds d decimal now (d.uuid_text r.order_id) r.due_at s.db) (λ h. (refl, h))

sweep_refunds-Advance :
    (d : Driver) (decimal : ℕ → String) (now : ℕ) (rs : List Refund) (s : RefundPass)
    → Advance
        (IsOrderMoved d decimal now rs s)
        s.db.refunds
        (sweep_refunds d decimal (some (refund_overdue d decimal now)) now rs s).db.refunds
unfolding sweep_refunds notify_order
sweep_refunds-Advance d decimal now [] s = Advance-refl (λ id. ⊥) s.db.refunds
sweep_refunds-Advance d decimal now (r ∷ rs) s =
    let next = after_refund d decimal now r s in
    Advance-trans (IsOrderMoved d decimal now (r ∷ rs) s) s.db.refunds next.db.refunds
      (sweep_refunds d decimal (some (refund_overdue d decimal now)) now rs next).db.refunds
      (Advance-map _ (IsOrderMoved d decimal now (r ∷ rs) s) s.db.refunds next.db.refunds
        (λ id p. inl p) (after_refund-Advance d decimal now r s))
      (Advance-map (IsOrderMoved d decimal now rs next) (IsOrderMoved d decimal now (r ∷ rs) s)
        next.db.refunds
        (sweep_refunds d decimal (some (refund_overdue d decimal now)) now rs next).db.refunds
        (λ id p. inr p) (sweep_refunds-Advance d decimal now rs next))

-- The refunds that a pass has dealt with so far.
abbrev dealt : RefundPass → ℕ
dealt s = s.overdue + length s.failures

counted-dealt :
    (s : RefundPass) (r : Result Error (Unit {0}) × Db) → dealt (counted s r) ≡ suc (dealt s)
unfolding counted
counted-dealt s (ok u, db) = ground arith
counted-dealt s (err e, db) = ground (arith, length-append s.failures (e ∷ []))

notified-dealt :
    (d : Driver) (decimal : ℕ → String) (now : ℕ) (r : Refund) (s : RefundPass)
    (o : Result Error (Unit {0}) × Db)
    → dealt (notified d decimal now r s o) ≡ suc (dealt s)
unfolding notified
notified-dealt d decimal now r s (ok u, db) =
    counted-dealt s (mark_overdue d (overdue_key d decimal r) r now db)
notified-dealt d decimal now r s (err e, db) = ground (arith, length-append s.failures (e ∷ []))

sweep_refunds-dealt :
    (d : Driver) (decimal : ℕ → String) (cb : Option Callback) (now : ℕ) (rs : List Refund)
    (s : RefundPass)
    → dealt (sweep_refunds d decimal cb now rs s) ≡ length rs + dealt s
unfolding sweep_refunds
sweep_refunds-dealt d decimal cb now [] s = ground arith
sweep_refunds-dealt d decimal cb now (r ∷ rs) s =
    let o = notify_order cb (d.uuid_text r.order_id) r.due_at s.db in
    let rest = sweep_refunds-dealt d decimal cb now rs (notified d decimal now r s o) in
    let this = notified-dealt d decimal now r s o in omega arith

-- A pass with `RefundOverdue` as its callback keeps every row of the refunds: a refund stays as it
-- was, or it waited for its money and is overdue now, and then the pass came to it in its listing and
-- the call for its order, made first, succeeded. Each listed refund is counted as marked or adds
-- one failure.
pub run_sweep_orders_first :
    (d : Driver) (decimal : ℕ → String) (batch now : ℕ) (db : Db)
    → Advance
        (IsOrderMoved d decimal now (list_refunds_due now (sweep_batch batch) db) (pass_start db))
        db.refunds
        (run_sweep d decimal (some (refund_overdue d decimal now)) batch now db).db.refunds
      × ((run_sweep d decimal (some (refund_overdue d decimal now)) batch now db).overdue
            + length
                (run_sweep d decimal (some (refund_overdue d decimal now)) batch now db).failures
          ≡ length (list_refunds_due now (sweep_batch batch) db))
unfolding run_sweep
run_sweep_orders_first d decimal batch now db =
    let due = list_refunds_due now (sweep_batch batch) db in
    let counts =
      sweep_refunds-dealt d decimal (some (refund_overdue d decimal now)) now due (pass_start db) in
    (sweep_refunds-Advance d decimal now due (pass_start db), omega arith)
