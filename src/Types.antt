-- ===== src/Types.antt =====
-- The crate `crates/evm-types`: gas economics and the hex codec.
pub mod Word
pub mod Gas
pub mod Text
pub mod Hex
mod Tests
