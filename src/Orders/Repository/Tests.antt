-- ===== src/Orders/Repository/Tests.antt =====
-- Runs of `Apply` on the sample database, and witnesses.
use binno_pta_2026_evaluatio.Prelude.{
  [], ◌∷◌, ℕ, ◌≡◌, ◌≢◌, refl, some, none, ok, err, Result, arith,
}
use binno_pta_2026_evaluatio.Db.{Db}
use binno_pta_2026_evaluatio.Db.Sample.{sample_driver, sample_db, sample_order, row}
use binno_pta_2026_evaluatio.Orders.Status.{
  Trigger, permits, supplier_confirm, supplier_decline, close_order, awaiting_payment,
  transition_for,
}
use binno_pta_2026_evaluatio.Orders.Errors.{Error, conflict}
use binno_pta_2026_evaluatio.Orders.Repository.{
  TransitionCommand, apply, run_transition, transition, settle, transition_order, write_outbox,
}
use binno_pta_2026_evaluatio.Orders.Repository.Rows.{status_of}
use binno_pta_2026_evaluatio.Tx.Dedup.{reserve_for}
use binno_pta_2026_evaluatio.Catalog.LinePort.{release_order_lines}
use binno_pta_2026_evaluatio.Location.{resolve_seller}
use binno_pta_2026_evaluatio.Billing.Settlement
use binno_pta_2026_evaluatio.Orders.Repository.Replay.{apply_lem, IsApplied}
use binno_pta_2026_evaluatio.Orders.Repository.Tokens.{
  Confirmed, confirm_token-Confirmed, confirm_token_once,
}
use binno_pta_2026_evaluatio.Orders.Repository.Replay.{IsFree}
use binno_pta_2026_evaluatio.Orders.Repository.{confirm_token, consume_confirm_token}
use binno_pta_2026_evaluatio.Orders.Errors.{gone}
use binno_pta_2026_evaluatio.Orders.Repository.{DueOrder}
use binno_pta_2026_evaluatio.Orders.Repository.Once.{apply_once, replay_answer}

abbrev command : Trigger → TransitionCommand
command trigger = record {
  order_id = row 6;
  trigger = trigger;
  reason = "";
  receipt_url = "";
  pickup_code = "";
  pickup_signature_url = "";
  at = 500;
}

abbrev confirmed : Result Error (Unit {0}) × Db
confirmed = apply sample_driver "key" (command supplier_confirm) sample_db

confirmed-ok : confirmed ≡ (ok tt, confirmed.1)
unfolding apply transition_for reserve_for run_transition permits transition transition_order settle
    write_outbox resolve_seller Settlement.issue_invoice
confirmed-ok = refl

confirmed-awaiting_payment : status_of 5 confirmed.1 ≡ some awaiting_payment
unfolding apply transition_for reserve_for run_transition permits transition transition_order settle
    write_outbox resolve_seller Settlement.issue_invoice
confirmed-awaiting_payment = refl

apply_lem_example :
    (id : ℕ) × (sample_driver.parse_uuid (row 6) ≡ some id)
    × IsApplied "key" id (command supplier_confirm) sample_db confirmed.1
apply_lem_example = apply_lem sample_driver "key" (command supplier_confirm) sample_db confirmed-ok

decline-known : transition_for supplier_decline ≢ none
unfolding transition_for
decline-known = ground arith

apply_once_example :
    apply sample_driver "key" (command supplier_decline) confirmed.1
    ≡ (replay_answer 5 5, confirmed.1)
apply_once_example =
    apply_once sample_driver "key" (command supplier_confirm) (command supplier_decline) sample_db 5
      5 confirmed-ok refl decline-known refl

refused-conflict :
    apply sample_driver "key" (command close_order) sample_db ≡ (err conflict, sample_db)
unfolding apply transition_for reserve_for run_transition permits transition transition_order settle
    write_outbox resolve_seller Settlement.issue_invoice
refused-conflict = refl

abbrev declined_run : Result Error (Unit {0} × Db)
declined_run =
    run_transition sample_driver sample_order supplier_decline (command supplier_decline) sample_db

abbrev declined_db : Result Error (Unit {0} × Db) → Db
declined_db (ok (_, db)) = db
declined_db (err _) = sample_db

declined_run-ok :
    run_transition sample_driver sample_order supplier_decline (command supplier_decline) sample_db
    ≡ ok (tt, declined_db declined_run)
unfolding apply transition_for reserve_for run_transition permits transition transition_order settle
    write_outbox resolve_seller release_order_lines
declined_run-ok = refl

abbrev token_db : Db
token_db = record sample_db {
  tokens =
      (record { token_hash = "hash"; order_id = 5; store_id = 1; expires_at = 900; used_at = none })
      ∷ [];
}

abbrev by_token : Result Error (Unit {0}) × Db
by_token = confirm_token sample_driver (λ t. t) "key" (row 6) "hash" 500 token_db

by_token-ok : by_token ≡ (ok tt, by_token.1)
unfolding confirm_token consume_confirm_token transition_for reserve_for run_transition permits
    transition transition_order settle write_outbox resolve_seller Settlement.issue_invoice
by_token-ok = refl

confirm_token-Confirmed_example :
    Confirmed sample_driver "key" "hash" (row 6) 5 500 token_db by_token.1
confirm_token-Confirmed_example =
    confirm_token-Confirmed sample_driver (λ t. t) "key" (row 6) "hash" 5 500 token_db refl refl
      by_token-ok

other_key-IsFree : IsFree "later" by_token.1
unfolding confirm_token consume_confirm_token transition_for reserve_for run_transition permits
    transition transition_order settle write_outbox resolve_seller Settlement.issue_invoice
other_key-IsFree = refl

confirm_token_once_example :
    confirm_token sample_driver (λ t. t) "later" (row 6) "hash" 600 by_token.1
    ≡ (err gone, by_token.1)
confirm_token_once_example =
    confirm_token_once sample_driver (λ t. t) "key" "later" (row 6) (row 6) "hash" 5 5 500 600
      token_db refl refl by_token-ok (omega arith) refl other_key-IsFree refl

abbrev overdue : DueOrder
overdue = record { order_id = row 6; store_id = row 2; buyer_id = row 3; due_at = 100 }
