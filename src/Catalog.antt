-- ===== src/Catalog.antt =====
-- internal/modules/catalog: offers and the stock that orders hold.
pub mod LinePort
pub mod Offers
pub mod Requests
