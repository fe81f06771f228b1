-- ===== src/Checks.antt =====
-- Tests, and the theorems at concrete inputs.
mod Toy
mod Payload
mod Recipients
mod Kdf
mod Keyring
mod Store
mod Names
mod Config
mod Scan
mod Selection
mod App
mod Disk
mod Files
mod Signing
mod Exchange
