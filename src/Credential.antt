-- ===== src/Credential.antt =====
-- internal/credential
pub mod Identity
pub mod Store
pub mod Signing
pub mod Exchange
