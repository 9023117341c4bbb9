-- ===== src/Execution/Seal.antt =====
-- `crates/move-execution/src/execution.rs`: execution of one transaction and sealing of its block.
-- A method takes the node and returns it beside the result, also where it fails.
pub mod SameChain
pub mod Steps
pub mod Outcome
pub mod Chain
pub mod Lookup
pub mod Ledger
use kanari_evm.Prelude.{
  ℕ, ◌+◌, Bool, true, false, Option, none, some, List, [], ◌∷◌, ◌++◌, Bytes, ok, err, to_be_bytes,
  ◌==◌, leb, if◌then◌else◌, last?, length,
}
use kanari_evm.Types.Word.{u256_max, saturating_add, as_u64}
use kanari_evm.Types.Gas.{block_gas_limit, base_fee_share}
use kanari_evm.Storage.Keys.{codes}
use kanari_evm.Storage.Records.{SealedBlock, StoredReceipt, StoredLog}
use kanari_evm.Storage.ChainStore.{save_block}
use kanari_evm.Execution.Errors.{text, execution, storage, or_error, from_store}
use kanari_evm.Execution.Tx.{PreparedTx, decode}
use kanari_evm.Execution.Machine.{
  Machine, AccountInfo, ExecutionResult, success, revert, halt, Output,
}
use kanari_evm.Execution.Action.{Action, pure, lift, gets, modify, ◌>>=◌, ◌>>◌}
use kanari_evm.Execution.ChainSpec.{KanariChainSpec}
use kanari_evm.Execution.Commitment.{smt_entries}
use kanari_evm.Execution.Node.{
  KanariNode, Mailbox, fetch_add, block_beneficiary, block_number, pending_base_fee,
}

-- What a result says: success, gas used, the created address and the logs. Reverted logs are
-- discarded.
unfoldable pub execution_summary : ExecutionResult → Bool × ℕ × Option Bytes × List StoredLog
execution_summary (success gas (Output.create output address) logs) = (true, gas, address, logs)
execution_summary (success gas (Output.call output) logs) = (true, gas, none, logs)
execution_summary (revert gas output) = (false, gas, none, [])
execution_summary (halt gas) = (false, gas, none, [])

-- `try_send` on a bounded channel.
unfoldable pub try_send : List Bytes → Mailbox → Option Mailbox
try_send batch box =
    if box.closed
    then none
    else if leb box.capacity (length box.queue)
    then none
    else some (record box { queue = box.queue ++ batch ∷ [] })

module _ (m : Machine) where
  open m use {State, basic, insert_account_info, keccak256, keccak_empty, transact, engine}

  unfoldable pub block_hash : Bytes → ℕ → ℕ → Bytes
  block_hash parent number timestamp =
      keccak256 (parent ++ (to_be_bytes 8 number ++ to_be_bytes 8 timestamp))

  unfoldable pub genesis_hash : Bytes
  genesis_hash = keccak256 (codes "kanari-evm-genesis")

  abbrev hash_or_genesis : Option SealedBlock → Bytes
  hash_or_genesis none = genesis_hash
  hash_or_genesis (some b) = b.hash

  unfoldable pub next_parent_hash : List SealedBlock → Bytes
  next_parent_hash blocks = hash_or_genesis (last? blocks)

  -- `transact_raw`: a failure commits nothing.
  unfoldable pub transact_raw :
      KanariChainSpec → PreparedTx → ℕ → ℕ → ℕ → Action State ExecutionResult
  transact_raw spec prepared number timestamp base_fee db =
      elim (transact db
        (record {
          chain_id = spec.chain_id;
          spec = spec.spec_id;
          number = number;
          timestamp = timestamp;
          basefee = base_fee;
          gas_limit = block_gas_limit;
          beneficiary = block_beneficiary;
        })
        prepared.inner) [
          | ok (result, state) ↦ (ok result, state)
          | err e ↦ (err (execution (text e)), db)
        ]

  abbrev beneficiary_info : Option AccountInfo → AccountInfo
  beneficiary_info none = record { balance = 0; nonce = 0; code_hash = keccak_empty; code = none }
  beneficiary_info (some info) = info

  unfoldable pub credit_beneficiary : ℕ → Action State (Unit {0})
  credit_beneficiary amount = do
    found ← (λ db. (or_error storage (basic db block_beneficiary), db))
    let info = beneficiary_info found
    modify (λ db.
        insert_account_info db block_beneficiary
          (record info { balance = saturating_add u256_max info.balance amount }))

  abbrev on_db : {A : Type 0} → Action State A → Action (KanariNode m) A
  on_db act node = let (r, state) = act node.db in (r, record node { db = state })

  -- The tree is rebuilt in the store and its new root is read.
  unfoldable pub rebuild_smt : Action (KanariNode m) Bytes
  rebuild_smt node = elim (m.rebuild node.store (smt_entries m (m.cached_accounts node.db))) [
    | err e ↦ (err (storage (text e)), node)
    | ok store ↦ (or_error storage (m.root_hash store), record node { store = store })
  ]

  unfoldable pub save_sealed :
      SealedBlock → Bytes → StoredReceipt → Action (KanariNode m) (Unit {0})
  save_sealed block hash receipt node =
      elim (from_store (save_block engine node.store block ((hash, receipt) ∷ []))) [
        | err e ↦ (err e, node)
        | ok store ↦ (
          ok tt,
          record node {
            store = store;
            blocks = node.blocks ++ block ∷ [];
            receipts = (hash, receipt) ∷ node.receipts;
            metrics = record node.metrics {
              blocks_sealed = fetch_add node.metrics.blocks_sealed;
              txs_sealed = fetch_add node.metrics.txs_sealed;
            };
          },
        )
      ]

  -- The base-fee share of a sealed transaction, where it is not zero, goes to the beneficiary.
  unfoldable pub credit_burned : ℕ → ℕ → Action (KanariNode m) (Unit {0})
  unfolding credit_beneficiary
  credit_burned gas_used base_fee =
      let burned : ℕ = base_fee_share gas_used base_fee in
      if burned == 0 then pure tt else on_db (credit_beneficiary burned)

  -- The block and the receipt of an executed transaction.
  unfoldable pub sealed_block : Bytes → ℕ → ℕ → ℕ → Bytes → Bytes → SealedBlock
  sealed_block raw number timestamp base_fee parent_hash state_root = record {
    number = number;
    timestamp = timestamp;
    hash = block_hash parent_hash number timestamp;
    parent_hash = parent_hash;
    txs = raw ∷ [];
    state_root = some state_root;
    base_fee = base_fee;
  }

  unfoldable pub sealed_receipt :
      Bytes → ℕ → Bytes → PreparedTx → Bool × ℕ × Option Bytes × List StoredLog → StoredReceipt
  sealed_receipt hash number sealed_hash prepared (succeeded, gas_used, created, logs) = record {
    tx_hash = hash;
    block_number = number;
    block_hash = sealed_hash;
    gas_used = gas_used;
    success = succeeded;
    sender = prepared.sender;
    to = prepared.to;
    contract_address = created;
    logs = logs;
  }

  -- `seal_raw_with_fee`
  unfoldable pub seal_raw_with_fee : Bytes → ℕ → ℕ → ℕ → Action (KanariNode m) Bytes
  seal_raw_with_fee raw number timestamp base_fee = do
    spec ← gets (λ node. node.spec)
    prepared ← lift (decode m.decode_2718_exact m.recover_signer raw spec.chain_id)
    parent_hash ← gets (λ node. next_parent_hash node.blocks)
    result ← on_db (transact_raw spec prepared number timestamp base_fee)
    let summary = execution_summary result
    credit_burned summary.1 base_fee
    state_root ← rebuild_smt
    let hash = keccak256 raw
    let block = sealed_block raw number timestamp base_fee parent_hash state_root
    save_sealed block hash (sealed_receipt hash number block.hash prepared summary)
    pure hash

  unfoldable pub seal_raw : Bytes → ℕ → ℕ → Action (KanariNode m) Bytes
  seal_raw raw number timestamp = do
    base_fee ← gets (λ node. as_u64 (pending_base_fee m node))
    seal_raw_with_fee raw number timestamp base_fee

  -- `block_number() + 1` on 64-bit words overflows only past the last number.
  unfoldable pub seal_committed : Bytes → ℕ → Action (KanariNode m) Bytes
  seal_committed raw timestamp = do
    number ← gets (λ node. block_number m node + 1)
    seal_raw raw number timestamp

  abbrev pub queued : Bytes → Option Mailbox → Action (KanariNode m) Bytes
  queued raw none node = (err (execution (text "dag mempool full")), node)
  queued raw (some sender) node = (ok (keccak256 raw), record node { dag_sender = some sender })

  abbrev pub send_in_mode : ℕ → Bytes → Option Mailbox → Action (KanariNode m) Bytes
  send_in_mode now_secs raw none node = seal_raw raw (block_number m node + 1) now_secs node
  send_in_mode now_secs raw (some sender) node = queued raw (try_send (raw ∷ []) sender) node

  -- In validator mode the transaction is only queued. The clock's reading is an argument.
  unfoldable pub send_raw_transaction : ℕ → Bytes → Action (KanariNode m) Bytes
  send_raw_transaction now_secs raw node = send_in_mode now_secs raw node.dag_sender node
