-- ===== src/Storage.antt =====
-- The crate `crates/storage`: the layout of the chain database and its operations.
pub mod Paths
pub mod Registry
pub mod Records
pub mod Keys
pub mod Engine
pub mod ChainStore
mod Tests
