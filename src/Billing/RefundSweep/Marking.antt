-- ===== src/Billing/RefundSweep/Marking.antt =====
-- What a pass of internal/modules/billing/refundsweep.go does to the refunds.
use binno_pta_2026_evaluatio.Prelude.{
  ℕ, zero, suc, ◌≡◌, ◌≢◌, refl, ap, true, false, none, some, [], ◌∷◌, ◌++◌, String, ◌⊎◌, find_row,
  inl, inr, ok, arith, count_rows, update_rows, Option-cases, Bool-cases,
}
use binno_pta_2026_evaluatio.Db.{Db, Driver, Refund, became_overdue}
use binno_pta_2026_evaluatio.Tx.Dedup.{is_bad_key, reserve_for_lem, add_receipt, has_key}
use binno_pta_2026_evaluatio.Orders.Repository.{write_outbox}
use binno_pta_2026_evaluatio.Billing.RefundSweep.{
  is_markable, marked_refund, mark_overdue, mark_claimed, mark_changed, mark_body,
}

-- The database after a refund is marked under a key.
abbrev pub overdue_db : Driver → String → Refund → ℕ → Db → Db
overdue_db d key refund at db = record (add_receipt key refund.id at db) {
  refunds = update_rows (is_markable refund.id) marked_refund db.refunds;
  outbox =
      db.outbox
      ++ ((record {
        aggregate_id = d.uuid_text refund.order_id;
        payload = became_overdue (d.uuid_text refund.order_id) refund.amount refund.due_at;
      })
          ∷ []);
}

mark_overdue-free :
    (d : Driver) (key : String) (refund : Refund) (at n : ℕ) (db : Db)
    → is_bad_key key ≡ false
    → find_row (has_key key) db.receipts ≡ none
    → count_rows (is_markable refund.id) db.refunds ≡ suc n
    → mark_overdue d key refund at db ≡ (ok tt, overdue_db d key refund at db)
unfolding mark_overdue mark_body mark_claimed mark_changed write_outbox
mark_overdue-free d key refund at n db filled free found = ground (
  arith,
  filled,
  free,
  found,
  reserve_for_lem key refund.id at db,
  d.parse_uuid-uuid_text refund.order_id,
)

mark_overdue-gone :
    (d : Driver) (key : String) (refund : Refund) (at : ℕ) (db : Db)
    → is_bad_key key ≡ false
    → find_row (has_key key) db.receipts ≡ none
    → count_rows (is_markable refund.id) db.refunds ≡ 0
    → mark_overdue d key refund at db ≡ (ok tt, db)
unfolding mark_overdue mark_body mark_claimed mark_changed
mark_overdue-gone d key refund at db filled free found =
    ground (arith, filled, free, found, reserve_for_lem key refund.id at db)

mark_overdue-bound :
    (d : Driver) (key : String) (refund : Refund) (at : ℕ) (db : Db) {r : _}
    → find_row (has_key key) db.receipts ≡ some r
    → (mark_overdue d key refund at db).1 ≡ db
unfolding mark_overdue mark_body mark_claimed
mark_overdue-bound d key refund at db {r = r} bound =
    ground (arith, bound, reserve_for_lem key refund.id at db)

mark_overdue-empty :
    (d : Driver) (key : String) (refund : Refund) (at : ℕ) (db : Db)
    → is_bad_key key ≡ true
    → (mark_overdue d key refund at db).1 ≡ db
unfolding mark_overdue mark_body mark_claimed
mark_overdue-empty d key refund at db empty =
    ground (arith, empty, reserve_for_lem key refund.id at db)

-- Marking a refund changes nothing, or the key was free, an awaited row was there, and it becomes
-- overdue together with its event and the receipt of the key.
pub mark_overdue_lem :
    (d : Driver) (key : String) (refund : Refund) (at : ℕ) (db : Db)
    → ((mark_overdue d key refund at db).1 ≡ db)
      ⊎ ((find_row (has_key key) db.receipts ≡ none)
          × (count_rows (is_markable refund.id) db.refunds ≢ 0)
          × (mark_overdue d key refund at db ≡ (ok tt, overdue_db d key refund at db)))
mark_overdue_lem d key refund at db = elim (Bool-cases (is_bad_key key)) [
  | inl empty ↦ inl (mark_overdue-empty d key refund at db empty)
  | inr filled ↦ elim (Option-cases (find_row (has_key key) db.receipts)) [
    | inl free ↦ by_count filled free (count_rows (is_markable refund.id) db.refunds) refl
    | inr (r, bound) ↦ inl (mark_overdue-bound d key refund at db bound)
  ]
]
  where
    by_count :
        is_bad_key key ≡ false
        → find_row (has_key key) db.receipts ≡ none
        → (n : ℕ) → count_rows (is_markable refund.id) db.refunds ≡ n
        → ((mark_overdue d key refund at db).1 ≡ db)
          ⊎ ((find_row (has_key key) db.receipts ≡ none)
              × (count_rows (is_markable refund.id) db.refunds ≢ 0)
              × (mark_overdue d key refund at db ≡ (ok tt, overdue_db d key refund at db)))
    by_count filled free zero h =
        inl (ap (λ r. r.1) (mark_overdue-gone d key refund at db filled free h))
    by_count filled free (suc n) h =
        inr (free, ground (arith, h), mark_overdue-free d key refund at n db filled free h)
