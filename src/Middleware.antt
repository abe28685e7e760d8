-- ===== src/Middleware.antt =====
-- backend/internal/middleware: who a request comes from. A middleware either aborts the request or
-- passes it on with what it learnt.
pub mod Identity
pub mod ApiKey
pub mod IpLimit
