-- ===== src/Orders/Service/Tests.antt =====
-- Witnesses for the order service.
use binno_pta_2026_evaluatio.Prelude.{inr, ◌≡◌, refl, true, none, some, [], ◌∷◌, ok, err, Result}
use binno_pta_2026_evaluatio.Db.{Db}
use binno_pta_2026_evaluatio.Db.Sample.{sample_driver, sample_db, sample_order, row}
use binno_pta_2026_evaluatio.Tx.Dedup.{reserve_for}
use binno_pta_2026_evaluatio.Location.{resolve_seller}
use binno_pta_2026_evaluatio.Billing.Settlement
use binno_pta_2026_evaluatio.Authz.{
  Principal, Role, require, ensure_owns_store, store_belongs_to_user,
}
use binno_pta_2026_evaluatio.Orders.Status.{buyer_cancel, transition_for, permits}
use binno_pta_2026_evaluatio.Orders.Errors.{not_found}
use binno_pta_2026_evaluatio.Orders.Repository.{
  apply, run_transition, transition, settle, transition_order, write_outbox,
}
use binno_pta_2026_evaluatio.Orders.Service.{
  Request, ServiceError, failed, confirming, serve, seller_transition, as_buyer, summary, command,
}
use binno_pta_2026_evaluatio.Orders.Service.Access.{serve-IsEntitled, IsSellerOf}
use binno_pta_2026_evaluatio.Orders.Service.Refusals.{stranger-not_found}

-- The user 4 sells for store 1.
abbrev user : Principal
user = record { user_id = row 5; roles = Role.seller ∷ [] }

abbrev request : Request
request = record {
  driver = sample_driver;
  texts = record {
    is_uuid = λ s. true;
    trim_space = λ s. s;
    parse_url = λ s. none;
    digest = λ s. s;
  };
  owned = (record { store_id = 1; user_id = 4 }) ∷ [];
  caller = some user;
  key = "key";
  at = 500;
}

abbrev confirmed : Result ServiceError (Unit {0}) × Db
confirmed = serve request (confirming (row 6)) sample_db

confirmed-ok : confirmed ≡ (ok tt, confirmed.1)
unfolding serve seller_transition summary ensure_owns_store store_belongs_to_user apply
    transition_for reserve_for run_transition permits transition transition_order settle
    write_outbox resolve_seller Settlement.issue_invoice
confirmed-ok = refl

serve-IsEntitled_example : IsSellerOf request (row 6) sample_db
serve-IsEntitled_example = serve-IsEntitled request (confirming (row 6)) sample_db confirmed-ok

signed : require request.caller ≡ ok user
unfolding require
signed = refl

stranger-not_found_example :
    as_buyer request (command (row 6) buyer_cancel "late" 500) sample_db
    ≡ (err (failed not_found), sample_db)
stranger-not_found_example =
    stranger-not_found request (command (row 6) buyer_cancel "late" 500) sample_db user 5 signed
      refl refl (inr (sample_order, refl, refl))

user-required : require request.caller ≡ ok user
unfolding require
user-required = refl
