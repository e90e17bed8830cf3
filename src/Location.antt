-- ===== src/Location.antt =====
-- internal/modules/location/saleport.go: may a store sell, and who is billed for it. The texts of
-- the seller's particulars (name, TIN, bank account, phone) are left out.
pub mod Owners
use binno_pta_2026_evaluatio.Prelude.{
  ℕ, not, Option, none, some, List, String, ◌==◌, if◌then◌else◌, find_row,
}
use binno_pta_2026_evaluatio.Db.{Driver, StoreState}

-- `ErrStoreUnavailable` and `ErrOwnerBlocked`.
pub data LocationError : Type 0 where
  store_unavailable owner_blocked : LocationError

pub record Seller : Type 0 where
  pub store_id : String
  pub owner_id : String

-- `Seller{}`.
abbrev pub no_seller : Seller
no_seller = record { store_id = ""; owner_id = "" }

seller_of : Driver → Option StoreState → Seller × Option LocationError
seller_of d none = (no_seller, some store_unavailable)
seller_of d (some state) =
    let seller : Seller = record {
      store_id = d.uuid_text state.store_id;
      owner_id = d.uuid_text state.owner_id;
    } in
    if not state.store_is_active
    then (seller, some store_unavailable)
    else if not state.owner_is_active
    then (seller, some owner_blocked)
    else (seller, none)

lookup_store : Driver → List StoreState → Option ℕ → Seller × Option LocationError
unfolding seller_of
lookup_store d stores none = (no_seller, some store_unavailable)
lookup_store d stores (some id) = seller_of d (find_row (λ s. s.store_id == id) stores)

-- `ResolveSellerForOrder`: the seller comes with a refusal too, once the store is found.
unfoldable pub resolve_seller : Driver → List StoreState → String → Seller × Option LocationError
unfolding lookup_store
resolve_seller d stores store_id = lookup_store d stores (d.parse_uuid store_id)
