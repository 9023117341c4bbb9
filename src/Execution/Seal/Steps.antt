-- ===== src/Execution/Seal/Steps.antt =====
-- The steps of `seal_raw_with_fee` in `crates/move-execution/src/execution.rs`, where they succeed and
-- where they fail.
use Prim.Native.String.{String}
use kanari_evm.Prelude.{
  ℕ, ◌≡◌, [], ◌∷◌, ◌++◌, Bytes, ok, err, inl, inr, Result-cases, ◌==◌, Bool-cases,
}
use kanari_evm.Types.Gas.{base_fee_share, block_gas_limit}
use kanari_evm.Storage.Records.{SealedBlock, StoredReceipt}
use kanari_evm.Storage.ChainStore.{StoreError, save_block}
use kanari_evm.Execution.Errors.{store_error, text, execution, storage, or_error}
use kanari_evm.Execution.Tx.{PreparedTx}
use kanari_evm.Execution.Machine.{Machine, ExecutionResult, KanariEvmParams}
use kanari_evm.Execution.Commitment.{smt_entries}
use kanari_evm.Execution.Node.{KanariNode, fetch_add, block_beneficiary}
use kanari_evm.Execution.Seal.{credit_burned, rebuild_smt, transact_raw, save_sealed}

module _ (m : Machine) where
  open m use {engine, keccak256}

  -- Crediting the beneficiary changes the state in memory and nothing else.
  pub credit_burned_db :
      (gas base_fee : ℕ) (n : KanariNode m)
      → credit_burned m gas base_fee n ≡ (
        (credit_burned m gas base_fee n).0,
        record n { db = (credit_burned m gas base_fee n).1.db },
      )
  unfolding credit_burned
  credit_burned_db gas base_fee n = elim (Bool-cases (base_fee_share gas base_fee == 0)) [
    | inl zero_share ↦ rw zero_share
    | inr share ↦ elim (Result-cases (m.basic n.db block_beneficiary)) [
      | inl (found, e) ↦ rw (share, e)
      | inr (why, e) ↦ rw (share, e)
    ]
  ]

  -- The environment that a transaction of the block runs in.
  abbrev pub block_params : KanariNode m → ℕ → ℕ → ℕ → KanariEvmParams
  block_params n number timestamp base_fee = record {
    chain_id = n.spec.chain_id;
    spec = n.spec.spec_id;
    number = number;
    timestamp = timestamp;
    basefee = base_fee;
    gas_limit = block_gas_limit;
    beneficiary = block_beneficiary;
  }

  pub transact_raw_ok :
      (n : KanariNode m) (prepared : PreparedTx) (number timestamp base_fee : ℕ)
      {result : ExecutionResult} {state : m.State}
      → m.transact n.db (block_params n number timestamp base_fee) prepared.inner
        ≡ ok (result, state)
      → transact_raw m n.spec prepared number timestamp base_fee n.db ≡ (ok result, state)
  unfolding transact_raw
  transact_raw_ok n prepared number timestamp base_fee t = rw (t, transact_raw)

  pub transact_raw_err :
      (n : KanariNode m) (prepared : PreparedTx) (number timestamp base_fee : ℕ) {why : String}
      → m.transact n.db (block_params n number timestamp base_fee) prepared.inner ≡ err why
      → transact_raw m n.spec prepared number timestamp base_fee n.db
        ≡ (err (execution (text why)), n.db)
  unfolding transact_raw
  transact_raw_err n prepared number timestamp base_fee t = rw (t, transact_raw)

  pub rebuild_smt_ok :
      (n : KanariNode m) {store : engine.Db}
      → m.rebuild n.store (smt_entries m (m.cached_accounts n.db)) ≡ ok store
      → rebuild_smt m n ≡ (or_error storage (m.root_hash store), record n { store = store })
  unfolding rebuild_smt
  rebuild_smt_ok n h = rw (h, rebuild_smt)

  pub rebuild_smt_err :
      (n : KanariNode m) {why : String}
      → m.rebuild n.store (smt_entries m (m.cached_accounts n.db)) ≡ err why
      → rebuild_smt m n ≡ (err (storage (text why)), n)
  unfolding rebuild_smt
  rebuild_smt_err n h = rw (h, rebuild_smt)

  unfoldable pub saved_node :
      KanariNode m → SealedBlock → Bytes → StoredReceipt → engine.Db → KanariNode m
  saved_node n block hash receipt store = record n {
    store = store;
    blocks = n.blocks ++ block ∷ [];
    receipts = (hash, receipt) ∷ n.receipts;
    metrics = record n.metrics {
      blocks_sealed = fetch_add n.metrics.blocks_sealed;
      txs_sealed = fetch_add n.metrics.txs_sealed;
    };
  }

  pub save_sealed_ok :
      (n : KanariNode m) (block : SealedBlock) (hash : Bytes) (receipt : StoredReceipt)
      {store : engine.Db}
      → save_block engine n.store block ((hash, receipt) ∷ []) ≡ ok store
      → save_sealed m block hash receipt n ≡ (ok tt, saved_node n block hash receipt store)
  unfolding saved_node save_sealed
  save_sealed_ok n block hash receipt h = rw (h, save_sealed)

  pub save_sealed_err :
      (n : KanariNode m) (block : SealedBlock) (hash : Bytes) (receipt : StoredReceipt)
      {why : StoreError}
      → save_block engine n.store block ((hash, receipt) ∷ []) ≡ err why
      → save_sealed m block hash receipt n ≡ (err (storage (store_error why)), n)
  unfolding save_sealed
  save_sealed_err n block hash receipt h = rw (h, save_sealed)
