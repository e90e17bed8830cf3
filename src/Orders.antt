-- ===== src/Orders.antt =====
-- internal/modules/orders: the life of an order.
pub mod Status
pub mod Errors
pub mod Commission
pub mod Repository
pub mod Service
pub mod Placement
pub mod Sweeper
