-- ===== src/Orders/Service/Refusals.antt =====
-- What a step of internal/modules/orders/service.go tells a stranger.
use binno_pta_2026_evaluatio.Prelude.{
  ℕ, ◌≡◌, true, false, none, some, str_eq, arith, ok, err, ◌⊎◌, inl, inr,
}
use binno_pta_2026_evaluatio.Db.{Db, Order}
use binno_pta_2026_evaluatio.Authz.{Principal, require, ensure_self}
use binno_pta_2026_evaluatio.Orders.Errors.{not_found}
use binno_pta_2026_evaluatio.Orders.Repository.{TransitionCommand, get_order}
use binno_pta_2026_evaluatio.Orders.Service.{Request, failed, as_buyer, authorize_buyer, summary}

-- To a caller who did not place it, an order is one that does not exist: the answer of a buyer's
-- step is the same for both, and no table changes.
pub stranger-not_found :
    (r : Request) (cmd : TransitionCommand) (db : Db) (p : Principal) (order : ℕ)
    → require r.caller ≡ ok p
    → r.texts.is_uuid cmd.order_id ≡ true
    → r.driver.parse_uuid cmd.order_id ≡ some order
    → (get_order order db ≡ none)
      ⊎ ((o : Order) × (get_order order db ≡ some o)
          × (str_eq p.user_id (r.driver.uuid_text o.buyer_id) ≡ false))
    → as_buyer r cmd db ≡ (err (failed not_found), db)
unfolding as_buyer authorize_buyer summary ensure_self
stranger-not_found r cmd db p order known valid parsed (inl missing) =
    ground (arith, known, valid, parsed, missing)
stranger-not_found r cmd db p order known valid parsed (inr other) =
    let (o, found, differs) = other in ground (arith, known, valid, parsed, found, differs)
