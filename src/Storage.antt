-- ===== src/Storage.antt =====
-- internal/storage
pub mod Names
pub mod Paths
pub mod Links
pub mod Limits
pub mod Scan
pub mod Selection
pub mod Files
