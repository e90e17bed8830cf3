-- ===== src/Orders/Placement/Tests.antt =====
-- Witnesses for placing an order: eleven pieces of the sample offer, picked up.
use binno_pta_2026_evaluatio.Prelude.{
  ◌≡◌, ◌↔◌, refl, true, false, none, some, List, inl, [], ◌∷◌, ok, err, Result, ◌⊎◌,
}
use binno_pta_2026_evaluatio.Prelude.Int.{pos, wrap64, ◌+ℤ◌, ◌*ℤ◌, is_int64}
use binno_pta_2026_evaluatio.Db.{Db}
use binno_pta_2026_evaluatio.Db.Sample.{sample_driver, sample_db, row}
use binno_pta_2026_evaluatio.Money.{
  multiply, is_nonneg_decimal, nonneg_loop, round_half_up, scale, coefficient,
}
use binno_pta_2026_evaluatio.Tx.Dedup.{is_bad_key, reserve_new}
use binno_pta_2026_evaluatio.Catalog.LinePort.{reserve_order_lines, reserve_line}
use binno_pta_2026_evaluatio.Location.{resolve_seller}
use binno_pta_2026_evaluatio.Orders.Status.{created, supplier_confirm}
use binno_pta_2026_evaluatio.Orders.Errors.{Error, internal}
use binno_pta_2026_evaluatio.Orders.Placement.Placing.{IsPlaced, IsReplay, create_lem}
use binno_pta_2026_evaluatio.Orders.Placement.Validity.{IsRequest, validate_create_iff}
use binno_pta_2026_evaluatio.Orders.Service.{Texts}
use binno_pta_2026_evaluatio.Orders.Placement.Once.{create_once, quietly}
use binno_pta_2026_evaluatio.Orders.Repository.{write_outbox}
use binno_pta_2026_evaluatio.Orders.Repository.Audit.{IsAudited}
use binno_pta_2026_evaluatio.Orders.Placement.Auditing.{
  OrderRequest, creating, applying, confirming, handle_all, handle_all-IsAudited,
}
use binno_pta_2026_evaluatio.Orders.Placement.{
  validate_create, CreateInput, CreateCommand, Drawn, Placed, create, create_claimed, record_order,
  record_notice, create_order, create_items, create_order_item, create_confirm_token,
}

abbrev input : CreateInput
input = record {
  store_id = row 2;
  buyer_type = "individual";
  buyer_tin = "";
  fulfillment = "pickup";
  dropoff_address = "";
  district_id = pos 1;
  items = (record { product_id = row 4; qty = "11" }) ∷ [];
  dropoff = none;
  urgent = false;
}

abbrev order : CreateCommand
order = record { input = input; buyer_id = row 3; at = 500 }

abbrev drawn : Drawn
drawn = record { order_id = 6; token = some "token" }

abbrev done : Result Error Placed × Db
done = create sample_driver (λ s. s) "key" drawn order sample_db

-- The answer, with the deadline after the half hour of the offer's category.
abbrev answer : Placed
answer = record {
  created = record {
    order_id = row 7;
    status = created;
    goods_amount = pos 1100;
    delivery_fee = pos 0;
    total_amount = pos 1100;
    supplier_confirmation_deadline = 1800000000500;
  };
  notice = some (record { order_id = row 7; token = "token"; expires_at = 1800000000500 });
}

done-ok : create sample_driver (λ s. s) "key" drawn order sample_db ≡ (ok answer, done.1)
unfolding create create_claimed reserve_new resolve_seller reserve_order_lines reserve_line multiply
    record_order record_notice create_order create_items create_order_item create_confirm_token
    write_outbox is_nonneg_decimal nonneg_loop round_half_up scale ◌*ℤ◌ coefficient wrap64 ◌+ℤ◌
    is_int64
done-ok = refl

create_lem_example :
    (is_bad_key "key" ≡ false)
    × (IsPlaced sample_driver (λ s. s) "key" drawn order sample_db done.1 answer
        ⊎ IsReplay sample_driver "key" sample_db done.1 answer)
create_lem_example = create_lem sample_driver (λ s. s) "key" drawn order sample_db done-ok

-- The same request without a key.
abbrev unkeyed : Result Error Placed × Db
unkeyed = create sample_driver (λ s. s) "" drawn order sample_db

unkeyed-internal : unkeyed ≡ (err internal, unkeyed.1)
unfolding create reserve_new
unkeyed-internal = refl

-- Another draw and another request under the key.
create_once_example :
    create sample_driver
      (λ s. s)
      "key"
      (record { order_id = 9; token = none })
      (record order { at = 900 })
      done.1
    ≡ (ok (quietly answer), done.1)
create_once_example =
    create_once sample_driver (λ s. s) "key" drawn (record { order_id = 9; token = none }) order
      (record order { at = 900 }) sample_db done-ok

abbrev texts : Texts
texts = record { is_uuid = λ s. true; trim_space = λ s. s; parse_url = λ s. none; digest = λ s. s }

validate_create_iff_example :
    (validate_create texts (λ p. true) input ≡ true) ↔ IsRequest texts (λ p. true) input
validate_create_iff_example = validate_create_iff texts (λ p. true) input

-- An order is placed, confirmed by its link, and confirmed once more.
abbrev requests : List OrderRequest
requests =
    creating "key" drawn order
    ∷ confirming "link" (row 7) "token" 600
    ∷ applying "again" (record {
      order_id = row 7;
      trigger = supplier_confirm;
      reason = "";
      receipt_url = "";
      pickup_code = "";
      pickup_signature_url = "";
      at = 700;
    })
    ∷ []

handle_all-IsAudited_example : IsAudited (handle_all sample_driver (λ s. s) requests sample_db)
handle_all-IsAudited_example =
    handle_all-IsAudited sample_driver (λ s. s) requests sample_db (λ id. inl refl)
