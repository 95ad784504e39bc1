-- ===== src/Storage.antt =====
-- internal/storage: certificate lineages on disk.
pub mod Version
pub mod Deploy
pub mod Write
mod Tests
