-- ===== src/Samples.antt =====
-- Concrete parameters, on which the tests run the definitions: a store in memory, an interpreter
-- that checks nonces, and the encodings that they need.
pub mod Serial
pub mod Stores
pub mod Machines
pub mod Nodes
pub mod Keys
pub mod Servers
pub mod Logs
