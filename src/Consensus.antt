-- ===== src/Consensus.antt =====
-- `crates/consensus/src`: the committee, what a commit of the DAG holds, and its execution.
pub mod Driver
pub mod Spawn
pub mod Committee
pub mod Dag
pub mod Commit
mod Tests
