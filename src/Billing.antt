-- ===== src/Billing.antt =====
-- internal/modules/billing: invoices, payments, refunds and the owners' commission ledger.
pub mod Settlement
pub mod RefundSweep
