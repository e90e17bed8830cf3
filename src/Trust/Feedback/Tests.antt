-- ===== src/Trust/Feedback/Tests.antt =====
-- Witnesses for feedback: the buyer of a closed order speaks twice.
use binno_pta_2026_evaluatio.Prelude.{
  ◌≤◌, ◌≡◌, refl, str_eq, true, none, some, List, [], ◌∷◌, arith, ok,
}
use binno_pta_2026_evaluatio.Db.{Db}
use binno_pta_2026_evaluatio.Db.Sample.{sample_driver, sample_db, sample_order, row}
use binno_pta_2026_evaluatio.Authz.{Principal, Role, ensure_self}
use binno_pta_2026_evaluatio.Authz.Owning.{IsCaller}
use binno_pta_2026_evaluatio.Orders.Service.Access.{Named}
use binno_pta_2026_evaluatio.Tx.Dedup.{reserve_for}
use binno_pta_2026_evaluatio.Orders.Status.{closed, status_eq}
use binno_pta_2026_evaluatio.Orders.Repository.{write_outbox}
use binno_pta_2026_evaluatio.Orders.Service.{Request, summary}
use binno_pta_2026_evaluatio.Trust.Feedback.{
  FeedbackInput, give_feedback, is_feedback, store_feedback,
}
use binno_pta_2026_evaluatio.Trust.Feedback.Verdicts.{
  verdicts, give_all, give_all-verdicts, IsGiven, give_feedback-buyer,
}

abbrev buyer : Request
buyer = record {
  driver = sample_driver;
  texts = record {
    is_uuid = λ s. true;
    trim_space = λ s. s;
    parse_url = λ s. none;
    digest = λ s. s;
  };
  owned = [];
  caller = some (record { user_id = row 3; roles = Role.buyer ∷ [] });
  key = "k1";
  at = 50;
}

abbrev after_closing : Db
after_closing = record sample_db { orders = (record sample_order { status = closed }) ∷ [] }

abbrev late : FeedbackInput
late = record {
  order_id = row 6;
  comment = "two days";
  channel = "app";
  had_problem = true;
  tags = "late" ∷ [];
}

abbrev twice : List (Request × FeedbackInput)
twice = (buyer, late) ∷ (record buyer { key = "k2" }, late) ∷ []

give_all-verdicts_example : verdicts 5 (give_all twice after_closing) ≤ 1
give_all-verdicts_example = give_all-verdicts twice 5 after_closing (omega arith)

given : (give_feedback buyer late after_closing).0 ≡ ok tt
unfolding give_feedback is_feedback summary ensure_self status_eq store_feedback reserve_for
    write_outbox
given = refl

give_feedback-buyer_example :
    (n : Named sample_driver (row 6) after_closing) × (n.order.status ≡ closed)
    × (p : Principal) × IsCaller buyer.caller p
    × (str_eq p.user_id (sample_driver.uuid_text n.order.buyer_id) ≡ true)
    × IsGiven "k1" n.order_id n.order.store_id late after_closing
        (give_feedback buyer late after_closing).1
give_feedback-buyer_example = give_feedback-buyer buyer late after_closing given
