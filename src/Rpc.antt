-- ===== src/Rpc.antt =====
-- What `crates/server_rpc/src/rpc.rs` answers from the node.
pub mod Request
pub mod Forms
pub mod Params
pub mod Logs
pub mod Views
pub mod Response
pub mod Services
pub mod Handlers
pub mod Server
