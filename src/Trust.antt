-- ===== src/Trust.antt =====
-- internal/modules/trust: what buyers say about closed orders.
pub mod Feedback
