-- ===== src/Storage.antt =====
-- core/storage: helpers of the repositories, and the migrations.
pub mod Tx
pub mod Migrator
pub mod Vector
mod Tests
