-- ===== src/Server.antt =====
-- The web server's library: web/lib.
pub mod StateStore
pub mod RateLimiter
pub mod Audit
pub mod Sessions
mod Examples
