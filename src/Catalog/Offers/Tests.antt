-- ===== src/Catalog/Offers/Tests.antt =====
-- Witnesses for offers: the owner of store 1 revises its offer, and publishes one more.
use binno_pta_2026_evaluatio.Prelude.{
  ℕ, ◌≡◌, refl, true, none, some, List, [], ◌∷◌, arith, ok, All, find_row,
}
use binno_pta_2026_evaluatio.Prelude.Int.{pos}
use binno_pta_2026_evaluatio.Db.{Offer}
use binno_pta_2026_evaluatio.Db.Sample.{sample_driver, sample_db, row}
use binno_pta_2026_evaluatio.Authz.{Role, ensure_owns_store, store_belongs_to_user}
use binno_pta_2026_evaluatio.Money.{is_nonneg_decimal}
use binno_pta_2026_evaluatio.Tx.Dedup.{reserve_for}
use binno_pta_2026_evaluatio.Orders.Repository.{write_outbox}
use binno_pta_2026_evaluatio.Orders.Service.{Request}
use binno_pta_2026_evaluatio.Catalog.Offers.{
  OfferInput, OfferUpdate, revise_offer, update_offer, offer_store,
}
use binno_pta_2026_evaluatio.Catalog.Offers.Stocked.{
  IsOffered, SellerCall, submit, revise, answer_calls, answer_calls-IsOffered,
}
use binno_pta_2026_evaluatio.Catalog.Offers.Updating.{of_id, IsUpdated, revise_offer-owned}
use binno_pta_2026_evaluatio.Authz.Owning.{OwnsStore}

abbrev seller : Request
seller = record {
  driver = sample_driver;
  texts = record {
    is_uuid = λ s. true;
    trim_space = λ s. s;
    parse_url = λ s. none;
    digest = λ s. s;
  };
  owned = (record { store_id = 1; user_id = 4 }) ∷ [];
  caller = some (record { user_id = row 5; roles = Role.seller ∷ [] });
  key = "k1";
  at = 50;
}

abbrev hide : OfferUpdate
hide = record { id = row 8; price = some (pos 120); declared_qty = none; status = some "hidden" }

abbrev another : OfferInput
another = record { store_id = row 2; product_id = row 5; declared_qty = "12"; price = pos 90 }

abbrev calls : List SellerCall
calls = revise seller hide ∷ submit (record seller { key = "k2" }) another 8 ∷ []

answer_calls-IsOffered_example : All IsOffered (answer_calls calls sample_db).offers
answer_calls-IsOffered_example = answer_calls-IsOffered calls sample_db ((omega arith, refl), tt)

revised : (revise_offer seller hide sample_db).0 ≡ ok tt
unfolding revise_offer update_offer offer_store ensure_owns_store store_belongs_to_user reserve_for
    write_outbox is_nonneg_decimal
revised = refl

revise_offer-owned_example :
    (id : ℕ) × (o : Offer) × (sample_driver.parse_uuid (row 8) ≡ some id)
    × (find_row (of_id id) sample_db.offers ≡ some o)
    × OwnsStore sample_driver seller.owned seller.caller o.store_id
    × IsUpdated sample_driver "k1" hide id o sample_db (revise_offer seller hide sample_db).1
revise_offer-owned_example = revise_offer-owned seller hide sample_db revised
