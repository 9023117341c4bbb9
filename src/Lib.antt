-- ===== src/Lib.antt =====
-- Kanari EVM: an Ethereum-compatible chain whose blocks hold one transaction each. A node executes
-- transactions on revm's state in memory, seals a block for each and saves it in RocksDB; alone it
-- seals at once, and as a validator it queues transactions for a DAG whose commits it executes.
--
-- The files and the code that they model:
--   Prelude, Prelude/*: shared names, lists, results, byte strings.
--   Types/Gas: crates/evm-types/src/gas.rs, its functions under their names; Types/Word: the
--     words.
--   Types/Text, Types/Hex: crates/evm-types/src/lib.rs and what it uses of Rust's text functions.
--     A text is the list of its code points.
--   Storage/Records, Storage/Keys, Storage/ChainStore: crates/storage/src/store.rs. The methods of
--     ChainStore take the database as a value, and a write returns the new one. Storage/Engine is
--     the interface of RocksDB and serde: a batch is written whole or not at all, a key reads as
--     the last value put there, and what a codec wrote it reads back. Storage/Registry: db.rs;
--     opens of several threads are the look-up and the creation as steps of their own, and the
--     drop of a handle is one too. Paths are compared by their components, as on Unix.
--   Execution/Tx: PreparedTx and decode of crates/move-execution/src/execution.rs; Execution/Seal:
--     its sealing methods, from send_raw_transaction to seal_raw_with_fee, with block_hash and
--     next_parent_hash of views.rs. Execution/Action is the monad of methods that change the node
--     and may fail: what was changed before a failure stays changed. Execution/Replay and
--     Execution/Open: replay_blocks, open and migrate_legacy_journal; what the file system holds
--     of the old format is an argument.
--   Execution/Node, Execution/ChainSpec, Execution/Commitment, Execution/Errors: node.rs,
--     chainspec.rs and state.rs of the same crate. Execution/Machine is the interface of revm,
--     alloy, the hashes and the sparse Merkle tree of the Kanari SDK: a rebuild of the tree writes
--     none of the chain's keys.
--   Execution/Precompiles: the signature precompiles of precompiles.rs, their provider and the
--     builders of the EVM; the verifiers and revm's standard set of a hardfork are parameters.
--   Execution/TxView, Execution/Faucet: decode_tx_view of views.rs and faucet of faucet.rs.
--   Execution/Contracts: the demo contract of contracts.rs, its init code and its call data;
--     Execution/Contracts/Evm runs the init code, by the EVM's documentation of its opcodes.
--   Execution/Call: call of execution.rs (eth_call here) and its request and result.
--   Execution/Reads: the reads and proofs of state.rs; what they ask revm and the tree is a
--     record.
--   Execution/Trace, Execution/Trace/Steps: trace.rs of the same crate. The tracer gives the bytes
--     that it writes.
--   Json: serde_json's values, with the fields of an object in the order they were put. What
--     prints and parses them is a parameter.
--   Rpc/Logs: the tests of a log filter of crates/server_rpc/src/rpc.rs, and logs_in_range of
--     views.rs. Rpc/Params: the parsing of parameters; a panic of it is an error of its own.
--     Rpc/Views, Rpc/Views/Parts: the JSON of views.rs. Rpc/Response, Rpc/Handlers: the responses,
--     and one function for each arm of dispatch_inner. Rpc/Request: the requests and their methods.
--     Rpc/Server: the dispatch, the batches and the log line that is printed before; a request runs
--     whole, under the node's lock. Rpc/Forms and Rpc/Services: the text forms of alloy, and the
--     record of all parameters.
--   Fork: crates/kanari-node/src/fork.rs; a request is answered by a function of its number and
--     body.
--   Cli, Cli/Spec, Cli/Boot, Cli/Commands: crates/kanari-node/src/main.rs from the parsed flags to
--     the node that is served; what ends the process is an error. The random key, the state file
--     and the log subscriber, which is set once in a process, are arguments. Cli/Reset: cmd_reset,
--     over the listing of the data directory. Storage/Paths: chain_db_dir of store.rs.
--   Execution/Faucet/Keys: the key methods of faucet.rs.
--   Consensus/Committee: crates/consensus/src/committee.rs. A record holds the DAG library's keys;
--     the signers that are drawn at random are a list, and the files are written by the caller.
--   Consensus/Dag, Consensus/Commit: the task of crates/consensus/src/validator.rs that executes
--     commits, and ordered_payloads of ordering.rs. Consensus/Driver: the in-process driver of
--     ordering.rs, whose cores are the DAG library's. Consensus/Spawn: ValidatorNode::spawn up to
--     its tasks.
--   Samples: concrete parameters for the tests; Tests of a part: its theorems at concrete inputs.
--
-- Numbers are natural numbers, with the saturation and the wrap-around of the source's words written
-- out. Hashes, addresses and raw bytes are lists of numbers. The clock is an argument.
--
-- Loops are structural, but for the sweeps of the pending queue (fixation), which run on fuel: one
-- round more than the queue has payloads, which is enough since a sweep that goes on has sealed one.
--
-- Not modelled: the HTTP router with its explorer and metrics pages and CORS headers, the
-- definition of the flags, banners, signals, the DAG library and the networked syncer: they are
-- input and output, or calls of libraries that are not in the repository.
pub mod Prelude
pub mod Types
pub mod Storage
pub mod Execution
pub mod Consensus
pub mod Json
pub mod Fork
pub mod Cli
pub mod Rpc
pub mod Samples
