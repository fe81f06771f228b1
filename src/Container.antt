-- ===== src/Container.antt =====
-- internal/security/container/container.go
pub mod Frame
pub mod Payload
pub mod Header
pub mod HeaderReader
pub mod Recipients
pub mod Envelope
pub mod Rekey
