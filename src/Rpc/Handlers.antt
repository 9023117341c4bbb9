-- ===== src/Rpc/Handlers.antt =====
-- The methods of `dispatch_inner` of `crates/server_rpc/src/rpc.rs`, one handler for each.
pub mod Accounts
pub mod Blocks
pub mod Calls
pub mod Logs
pub mod History
