-- ===== src/Execution.antt =====
-- The crate `crates/move-execution`: transactions, the node and its chain.
pub mod Errors
pub mod Tx
pub mod Machine
pub mod Action
pub mod ChainSpec
pub mod Node
pub mod Commitment
pub mod Seal
pub mod Replay
pub mod Open
pub mod Precompiles
pub mod TxView
pub mod Faucet
pub mod Contracts
pub mod Call
pub mod Reads
pub mod Trace
mod Tests
