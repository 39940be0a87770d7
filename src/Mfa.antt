-- ===== src/Mfa.antt =====
-- Multi-factor authentication of the web client: web/src/utils/mfa.ts.
pub mod Base32
pub mod Hotp
pub mod Totp
pub mod EmailCode
pub mod Config
mod Examples
