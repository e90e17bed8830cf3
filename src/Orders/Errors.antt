-- ===== src/Orders/Errors.antt =====
-- The errors of internal/modules/orders/service.go, and the translations of repository.go from
-- the errors of the modules that it calls.
use binno_pta_2026_evaluatio.Tx.Dedup.{DedupError, key_reuse, key_required}
use binno_pta_2026_evaluatio.Catalog.LinePort.{CatalogError, offer_unavailable, tariff_unavailable}
use binno_pta_2026_evaluatio.Location.{LocationError, store_unavailable, owner_blocked}
use binno_pta_2026_evaluatio.Billing.Settlement.{
  SettlementError, settlement_conflict, settlement_invalid,
}

-- `internal` is any error that no handler tells apart.
pub data Error : Type 0 where
  invalid conflict not_found gone unavailable internal : Error

-- What a statement answers when no row fits, when a constraint refuses it (SQLSTATE 23505, 23503
-- and 23514), and on any other failure.
pub data QueryError : Type 0 where
  no_rows constraint_violation other_failure : QueryError

-- `mapError`.
abbrev pub map_error : QueryError → Error
map_error no_rows = not_found
map_error constraint_violation = conflict
map_error other_failure = internal

-- `mapDedupError`.
abbrev pub map_dedup_error : DedupError → Error
map_dedup_error key_reuse = conflict
map_dedup_error key_required = internal

-- The error that `Create` returns of a dedup error, unchanged.
abbrev pub raw_dedup_error : DedupError → Error
raw_dedup_error key_reuse = internal
raw_dedup_error key_required = internal

-- `mapCatalogError`.
abbrev pub map_catalog_error : CatalogError → Error
map_catalog_error offer_unavailable = conflict
map_catalog_error tariff_unavailable = conflict
map_catalog_error CatalogError.invalid = invalid
map_catalog_error CatalogError.internal = internal

-- The wrapping of a stock adjustment's error, which no handler tells apart.
abbrev pub wrap_stock_error : CatalogError → Error
wrap_stock_error offer_unavailable = internal
wrap_stock_error tariff_unavailable = internal
wrap_stock_error CatalogError.invalid = internal
wrap_stock_error CatalogError.internal = internal

-- `mapLocationError`.
abbrev pub map_location_error : LocationError → Error
map_location_error store_unavailable = conflict
map_location_error owner_blocked = conflict

-- `mapSettlementError`.
abbrev pub map_settlement_error : SettlementError → Error
map_settlement_error settlement_conflict = conflict
map_settlement_error settlement_invalid = invalid
map_settlement_error SettlementError.internal = internal
