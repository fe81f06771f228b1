-- ===== src/App.antt =====
-- internal/app
pub mod Manifest
pub mod Merge
