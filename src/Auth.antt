-- ===== src/Auth.antt =====
-- backend/internal/auth and the replay cache of backend/internal/handler/auth: the in-memory parts
-- of authentication.
pub mod RateLimiter
pub mod ReplayCache
pub mod Tokens
