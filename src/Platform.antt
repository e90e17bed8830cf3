-- ===== src/Platform.antt =====
-- internal/platform: what the modules share.
pub mod Breaker
pub mod Outbox
pub mod Io
pub mod Redis
pub mod Otp
pub mod Idempotency
pub mod Mutation
