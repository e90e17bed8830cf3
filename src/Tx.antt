-- ===== src/Tx.antt =====
-- One database transaction (`BeginTx`, the deferred `Rollback`, `Commit`) over the tables of
-- `Db`, and the receipts of internal/platform/database/dedup/receipt.go. Statements see the
-- writes of the ones before them; failures of the connection are not modelled.
mod Defs
pub mod Dedup
pub use Defs.*
