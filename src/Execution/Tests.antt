-- ===== src/Execution/Tests.antt =====
-- The node's theorems on the sample environment: a first transaction is sealed.
use Prim.Native.String.{String}
use kanari_evm.Prelude.{◌+◌, ◌≡◌, refl, some, [], ◌∷◌, Bytes, ok, arith, Result}
use kanari_evm.Types.Gas.{base_fee_share}
use kanari_evm.Types.Word.{as_u64}
use kanari_evm.Storage.Records.{SealedBlock, StoredReceipt}
use kanari_evm.Storage.ChainStore.{save_block, receipt_puts}
use kanari_evm.Execution.Tx.{TxEnvelope, PreparedTx, decode, envelope_env, check_chain_id}
use kanari_evm.Execution.Tx.Decode.{decode_sound, decode_complete, IsFor}
use kanari_evm.Execution.Node.{
  KanariNode, receipt, block_number, block_by_number, tx_record, pending_base_fee,
}
use kanari_evm.Execution.Seal.{
  seal_raw_with_fee, seal_raw, seal_committed, transact_raw, credit_burned, credit_beneficiary,
  rebuild_smt, save_sealed, sealed_block, sealed_receipt, execution_summary,
}
use kanari_evm.Execution.Seal.Outcome.{Outcome, seal_raw_with_fee-Outcome}
use kanari_evm.Execution.Seal.Chain.{IsValid, seal_committed-IsValid}
use kanari_evm.Execution.Seal.Lookup.{seal_committed-tx_record}
use kanari_evm.Execution.TxView.{TxView, decode_tx_view}
use kanari_evm.Execution.TxView.Agreement.{Shows, decode_tx_view-Shows}
use kanari_evm.Samples.Machines.{sample, read_tx}
use kanari_evm.Samples.Nodes.{first_node, first_node-IsValid, first_raw}

abbrev recovered : TxEnvelope → Result String Bytes
recovered tx = ok (9 ∷ [])

decoding : (tx : PreparedTx) × (decode read_tx recovered first_raw 1 ≡ ok tx)
unfolding decode envelope_env check_chain_id
decoding = (_, refl)

decode_sound_example :
    (envelope : TxEnvelope) × (sender : Bytes) × (read_tx first_raw ≡ ok envelope)
    × (recovered envelope ≡ ok sender)
    × IsFor sender envelope 1 decoding.0
decode_sound_example = decode_sound read_tx recovered first_raw 1 decoding.0 decoding.1

reading : (envelope : TxEnvelope) × (read_tx first_raw ≡ ok envelope)
reading = (_, refl)

decode_complete_example : (tx : PreparedTx) × (decode read_tx recovered first_raw 1 ≡ ok tx)
unfolding reading
decode_complete_example =
    decode_complete read_tx recovered first_raw 1 (9 ∷ []) reading.0 reading.1 refl refl

seal_raw_with_fee-Outcome_example :
    Outcome sample first_node first_raw 1 100 1_000_000_000
      (seal_raw_with_fee sample first_raw 1 100 1_000_000_000 first_node)
seal_raw_with_fee-Outcome_example =
    seal_raw_with_fee-Outcome sample first_raw 1 100 1_000_000_000 first_node

seal_committed-IsValid_example : IsValid sample (seal_committed sample first_raw 100 first_node).1
seal_committed-IsValid_example =
    seal_committed-IsValid sample first_raw 100 first_node first_node-IsValid (omega arith)

sealing :
    (n : KanariNode sample) × (seal_committed sample first_raw 100 first_node ≡ (ok first_raw, n))
unfolding seal_committed seal_raw seal_raw_with_fee decode envelope_env check_chain_id transact_raw
    credit_burned credit_beneficiary rebuild_smt save_sealed sealed_block sealed_receipt
    execution_summary save_block receipt_puts base_fee_share pending_base_fee
sealing = (_, refl)

seal_committed-tx_record_example :
    (block : SealedBlock) × (r : StoredReceipt) × (first_raw ≡ first_raw)
    × (block_by_number sample sealing.0 (block_number sample first_node + 1) ≡ some block)
    × (block.timestamp ≡ 100)
    × (block.base_fee ≡ as_u64 (pending_base_fee sample first_node))
    × (receipt sample sealing.0 first_raw ≡ some r)
    × (r.block_number ≡ block.number)
    × (r.block_hash ≡ block.hash)
    × (tx_record sample sealing.0 first_raw ≡ some (r.sender, first_raw))
seal_committed-tx_record_example =
    seal_committed-tx_record sample first_raw 100 first_node sealing.0 first_raw first_node-IsValid
      sealing.1

decode_tx_view-Shows_example :
    (view : TxView) × (decode_tx_view read_tx first_raw 1_000_000_000 ≡ some view)
    × Shows view decoding.0
decode_tx_view-Shows_example =
    decode_tx_view-Shows read_tx recovered first_raw 1 1_000_000_000 decoding.0 decoding.1
