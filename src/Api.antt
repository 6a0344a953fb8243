-- ===== src/Api.antt =====
-- src/api: the checks that stand before the handlers.
pub mod Auth
pub mod AuditRoute
pub mod RequestSignature
pub mod RateLimiter
pub mod Schemas
