-- ===== src/Execution/Node.antt =====
-- `KanariNode` of `crates/move-execution/src/node.rs`: its state and its reads.
use kanari_evm.Prelude.{
  ℕ, ◌+◌, ◌%◌, ◌^◌, Bool, Option, none, some, List, [], ◌∷◌, Bytes, bytes_eq, to_be_bytes, ◌==◌,
  if◌then◌else◌, is_some, last?, find,
}
use kanari_evm.Types.Word.{u256_max, saturating_add, saturating_mul}
use kanari_evm.Types.Gas.{block_gas_limit, calc_next_base_fee}
use kanari_evm.Storage.Records.{SealedBlock, StoredReceipt}
use kanari_evm.Execution.Machine.{Machine}
use kanari_evm.Execution.ChainSpec.{KanariChainSpec, kanari_evm_max_supply_eth}

abbrev pub max_faucet_eth_per_request : ℕ
max_faucet_eth_per_request = 10_000

abbrev pub wei_in_eth : ℕ
wei_in_eth = 1_000_000_000_000_000_000

abbrev pub default_call_gas : ℕ
default_call_gas = 15_000_000

-- 0x7985132aa87aD878a1fCb69Fa62b301f4CDe4ccA
abbrev pub block_beneficiary : Bytes
block_beneficiary = to_be_bytes 20 0x7985132aa87ad878a1fcb69fa62b301f4cde4cca

-- The counters wrap as atomic additions do.
pub record NodeMetrics : Type 0 where
  pub blocks_sealed : ℕ
  pub txs_sealed : ℕ
  pub commits_seen : ℕ

abbrev pub no_metrics : NodeMetrics
no_metrics = record { blocks_sealed = 0; txs_sealed = 0; commits_seen = 0 }

abbrev pub fetch_add : ℕ → ℕ
fetch_add n = (n + 1) % 2 ^ 64

-- The bounded channel to the DAG mempool: the batches that wait in it.
pub record Mailbox : Type 0 where
  pub capacity : ℕ
  pub closed : Bool
  pub queue : List (List Bytes)

-- `receipts.get` of the map from transaction hashes; `insert` puts in front.
unfoldable pub receipts_get : List (Bytes × StoredReceipt) → Bytes → Option StoredReceipt
receipts_get [] hash = none
receipts_get ((h, r) ∷ receipts) hash =
    if bytes_eq h hash then some r else receipts_get receipts hash

abbrev pub number_or_zero : Option SealedBlock → ℕ
number_or_zero none = 0
number_or_zero (some b) = b.number

abbrev pub gas_or_zero : Option StoredReceipt → ℕ
gas_or_zero none = 0
gas_or_zero (some r) = r.gas_used

unfoldable pub latest_number : List SealedBlock → ℕ
latest_number blocks = number_or_zero (last? blocks)

module _ (m : Machine) where
  open m use {State, keccak256}

  pub record KanariNode : Type 0 where
    pub spec : KanariChainSpec
    pub db : State
    pub blocks : List SealedBlock
    pub receipts : List (Bytes × StoredReceipt)
    pub store : m.engine.Db
    pub genesis_root : Bytes
    pub faucet_key : Option Bytes
    pub dag_sender : Option Mailbox
    pub metrics : NodeMetrics

  unfoldable pub chain_id : KanariNode → ℕ
  chain_id node = node.spec.chain_id

  unfoldable pub set_dag_sender : Mailbox → KanariNode → KanariNode
  set_dag_sender sender node = record node { dag_sender = some sender }

  unfoldable pub is_validator_mode : KanariNode → Bool
  is_validator_mode node = is_some node.dag_sender

  unfoldable pub block_number : KanariNode → ℕ
  unfolding latest_number
  block_number node = latest_number node.blocks

  unfoldable pub block_by_number : KanariNode → ℕ → Option SealedBlock
  block_by_number node number = find (λ (b : SealedBlock). b.number == number) node.blocks

  unfoldable pub block_by_hash : KanariNode → Bytes → Option SealedBlock
  block_by_hash node hash = find (λ (b : SealedBlock). bytes_eq b.hash hash) node.blocks

  unfoldable pub receipt : KanariNode → Bytes → Option StoredReceipt
  receipt node hash = receipts_get node.receipts hash

  unfoldable pub gas_of_txs : List (Bytes × StoredReceipt) → List Bytes → ℕ
  gas_of_txs receipts [] = 0
  gas_of_txs receipts (raw ∷ txs) =
      (gas_or_zero (receipts_get receipts (keccak256 raw)) + gas_of_txs receipts txs) % 2 ^ 64

  unfoldable pub block_gas_used : KanariNode → ℕ → ℕ
  unfolding block_by_number gas_of_txs
  block_gas_used node number = elim (block_by_number node number) [
    | none ↦ 0
    | some block ↦ gas_of_txs node.receipts block.txs
  ]

  unfoldable pub pending_base_fee : KanariNode → ℕ
  pending_base_fee node = elim (last? node.blocks) [
    | none ↦ node.spec.base_fee_wei
    | some head ↦ calc_next_base_fee head.base_fee (block_gas_used node head.number) block_gas_limit
  ]

  unfoldable pub tx_record : KanariNode → Bytes → Option (Bytes × Bytes)
  tx_record node hash = elim (receipts_get node.receipts hash) [
    | none ↦ none
    | some r ↦ elim (block_by_number node r.block_number) [
      | none ↦ none
      | some block ↦ elim (find (λ (raw : Bytes). bytes_eq (keccak256 raw) hash) block.txs) [
        | none ↦ none
        | some raw ↦ some (r.sender, raw)
      ]
    ]
  ]

  -- `fold` from zero over the allocations.
  unfoldable pub alloc_total : ℕ → List (Bytes × ℕ) → ℕ
  alloc_total acc [] = acc
  alloc_total acc ((address, balance) ∷ alloc) =
      alloc_total (saturating_add u256_max acc balance) alloc

  unfoldable pub supply : KanariNode → ℕ × ℕ
  unfolding alloc_total
  supply node = (
    alloc_total 0 node.spec.genesis_alloc,
    saturating_mul u256_max kanari_evm_max_supply_eth wei_in_eth,
  )
