-- ===== src/Execution/Trace/Tests.antt =====
-- The replay of a sealed transaction on the sample environment.
use kanari_evm.Prelude.{◌≡◌, refl, [], ◌∷◌, ok, none}
use kanari_evm.Types.Word.{u256_max, saturating_mul}
use kanari_evm.Types.Gas.{base_fee_share}
use kanari_evm.Storage.Records.{SealedBlock, StoredReceipt}
use kanari_evm.Storage.ChainStore.{save_block, receipt_puts}
use kanari_evm.Execution.Node.{KanariNode}
use kanari_evm.Execution.Tx.{decode, envelope_env, check_chain_id}
use kanari_evm.Execution.Seal.{
  seal_raw_with_fee, transact_raw, credit_burned, credit_beneficiary, rebuild_smt, save_sealed,
  sealed_block, sealed_receipt, execution_summary,
}
use kanari_evm.Execution.Trace.{scratch_txs}
use kanari_evm.Execution.Trace.History.{Credited, seal_raw_with_fee-scratch_txs}
use kanari_evm.Samples.Machines.{sample, Accounts}
use kanari_evm.Samples.Nodes.{first_node, first_raw}

abbrev first_block : SealedBlock
first_block = record {
  number = 1;
  timestamp = 100;
  hash = [];
  parent_hash = [];
  txs = first_raw ∷ [];
  state_root = none;
  base_fee = 1_000_000_000;
}

sealing :
    (n : KanariNode sample) × (seal_raw_with_fee sample first_raw 1 100 1_000_000_000 first_node
      ≡ (ok first_raw, n))
unfolding seal_raw_with_fee decode envelope_env check_chain_id transact_raw credit_burned
    credit_beneficiary rebuild_smt save_sealed sealed_block sealed_receipt execution_summary
    save_block receipt_puts base_fee_share
sealing = (_, refl)

seal_raw_with_fee-scratch_txs_example :
    (receipt : StoredReceipt) × (state : Accounts) × (scratch_txs sample first_node.spec first_block
        (first_raw ∷ [])
        first_node.db
      ≡ ok state)
    × (sealing.0.receipts ≡ (first_raw, receipt) ∷ first_node.receipts)
    × Credited sample state (saturating_mul u256_max receipt.gas_used 1_000_000_000) sealing.0.db
seal_raw_with_fee-scratch_txs_example =
    seal_raw_with_fee-scratch_txs sample first_raw first_block first_node sealing.0 first_raw
      sealing.1
