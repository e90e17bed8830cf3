-- ===== src/Orders/Sweeper/Tests.antt =====
-- Witnesses for the sweeper: the sample order is overdue at 1000, and its grace ends at 1500.
use binno_pta_2026_evaluatio.Prelude.{◌≡◌, refl, some, ◌⊎◌}
use binno_pta_2026_evaluatio.Db.{Db}
use binno_pta_2026_evaluatio.Db.Sample.{sample_driver, sample_db, row}
use binno_pta_2026_evaluatio.Tx.Dedup.{reserve_for}
use binno_pta_2026_evaluatio.Catalog.LinePort.{release_order_lines}
use binno_pta_2026_evaluatio.Orders.Status.{
  created, awaiting_payment, expired, status_eq, transition_for, permits,
}
use binno_pta_2026_evaluatio.Orders.Repository.{
  apply, record_escalation, run_transition, transition, transition_order, settle, write_outbox,
}
use binno_pta_2026_evaluatio.Orders.Repository.Rows.{status_of}
use binno_pta_2026_evaluatio.Orders.Sweeper.{
  SweeperConfig, run_once, sweep_due, sweep_unpaid, awaiting_confirmation, payment_overdue,
  confirmed_half, escalation_key, expiry_key,
}
use binno_pta_2026_evaluatio.Orders.Sweeper.Fates.{Has, IsExpirable, IsListed, run_once-Fate}

abbrev cfg : SweeperConfig
cfg = record { batch = 10; expiry_grace = 500 }

-- Late enough to expire, and within the grace.
abbrev late : Db
late = (run_once sample_driver row cfg 2000 sample_db).db

abbrev early : Db
early = (run_once sample_driver row cfg 1200 sample_db).db

late-expired : status_of 5 late ≡ some expired
unfolding run_once sweep_unpaid payment_overdue sweep_due awaiting_confirmation status_eq
    record_escalation reserve_for escalation_key write_outbox apply transition_for expiry_key
    run_transition permits transition transition_order release_order_lines settle
late-expired = refl

early-created : status_of 5 early ≡ some created
unfolding run_once sweep_unpaid payment_overdue sweep_due awaiting_confirmation status_eq
    record_escalation reserve_for escalation_key write_outbox
early-created = refl

run_once-Fate_example :
    (status_of 5 late ≡ status_of 5 sample_db)
    ⊎ ((Has
            (IsExpirable sample_driver row cfg 2000 5)
            (awaiting_confirmation sample_driver 2000 10 sample_db)
          × (status_of 5 sample_db ≡ some created)
          × (status_of 5 late ≡ some expired))
        ⊎ (Has (IsListed sample_driver row cfg 2000 5) (
              payment_overdue sample_driver 2000 10
                (confirmed_half sample_driver row cfg 2000 sample_db).db)
            × (status_of 5 sample_db ≡ some awaiting_payment)
            × (status_of 5 late ≡ some expired)))
run_once-Fate_example = run_once-Fate sample_driver row cfg 2000 5 sample_db
