-- ===== src/Rpc/Views.antt =====
-- The JSON views of `crates/move-execution/src/views.rs`: blocks, transactions, receipts and logs.
pub mod Parts
pub mod Shape
use kanari_evm.Prelude.{
  ℕ, zero, suc, Bool, true, false, Option, none, some, List, [], ◌∷◌, ◌++◌, Bytes, bytes_eq,
  to_be_bytes, ◌==◌, ◌&&◌, if◌then◌else◌, is_some, not,
}
use kanari_evm.Types.Text.{Text}
use kanari_evm.Types.Hex.{hex_prefixed, quantity_u64, quantity_u256}
use kanari_evm.Types.Gas.{block_gas_limit}
use kanari_evm.Storage.Keys.{codes}
use kanari_evm.Storage.Records.{SealedBlock, StoredReceipt, StoredLog}
use kanari_evm.Json.{
  Value, null, boolean, string, array, object, Items, nil, cons, Fields, end, field, texts, of_list,
  lit, text_or_null,
}
use kanari_evm.Execution.Machine.{Machine}
use kanari_evm.Execution.Node.{
  KanariNode, block_beneficiary, block_by_number, block_by_hash, receipt, tx_record, gas_of_txs,
}
use kanari_evm.Execution.Seal.{genesis_hash}
use kanari_evm.Execution.TxView.{TxView, decode_tx_view}
use kanari_evm.Rpc.Forms.{Forms}
use kanari_evm.Rpc.Logs.{SealedLog, numbered_logs}
use kanari_evm.Rpc.Views.Parts.{
  fee_of, b256_zero, zero_bytes, logs_bloom, sha3_uncles, empty_root, map_text, all_texts,
  null_if_none, render_sealed_log, render_logs, block_fields, empty_block_view,
}

module _ (forms : Forms) where
  open forms use {address_text, b256_text}

  module _ (m : Machine) where
    open m use {keccak256}

    abbrev pub base_fee_at : KanariNode m → ℕ → ℕ
    base_fee_at node block = fee_of node.spec.base_fee_wei (block_by_number m node block)

    abbrev tx_fields : Bytes → StoredReceipt → Bytes → TxView → Value
    tx_fields hash r sender view = object (
        field (codes "hash") (string (b256_text hash)) (
          field (codes "nonce") (string (quantity_u64 view.nonce)) (
            field (codes "blockHash") (string (b256_text r.block_hash)) (
              field (codes "blockNumber") (string (quantity_u64 r.block_number)) (
                field (codes "transactionIndex") (lit "0x0") (
                  field (codes "from") (string (address_text sender)) (
                    field (codes "to") (text_or_null (map_text address_text view.to)) (
                      field (codes "value") (string (quantity_u256 view.value)) (
                        field (codes "gasPrice") (string (quantity_u256 view.effective_gas_price)) (
                          field (codes "gas") (string (quantity_u64 view.gas_limit)) (
                            field (codes "input") (string (hex_prefixed view.input)) (
                              field (codes "type") (string (quantity_u64 view.tx_type)) (
                                field (codes "chainId") (string (quantity_u64 view.chain_id))
                                  end)))))))))))))

    unfoldable pub tx_view : KanariNode m → Bytes → Option Value
    tx_view node hash = elim (receipt m node hash) [
      | none ↦ none
      | some r ↦ elim (tx_record m node hash) [
        | none ↦ none
        | some (sender, raw) ↦
            elim (decode_tx_view m.decode_2718_exact raw (base_fee_at node r.block_number)) [
              | none ↦ none
              | some view ↦ some (tx_fields hash r sender view)
            ]
      ]
    ]

    -- The type and the price of the sealed bytes where they decode, and else those of EIP-1559 at
    -- the base fee.
    abbrev pub type_and_price : ℕ → Option (Bytes × Bytes) → ℕ × ℕ
    type_and_price base_fee none = (2, base_fee)
    type_and_price base_fee (some (sender, raw)) =
        elim (decode_tx_view m.decode_2718_exact raw base_fee) [
          | none ↦ (2, base_fee)
          | some view ↦ (view.tx_type, view.effective_gas_price)
        ]

    abbrev pub receipt_log : StoredReceipt → ℕ → StoredLog → SealedLog
    receipt_log r i log = record {
      block_number = r.block_number;
      block_hash = r.block_hash;
      tx_hash = r.tx_hash;
      log_index = i;
      log = log;
    }

    abbrev pub receipt_logs_from : StoredReceipt → ℕ → List StoredLog → List Value
    receipt_logs_from r i [] = []
    receipt_logs_from r i (log ∷ logs) =
        render_sealed_log forms (receipt_log r i log) ∷ receipt_logs_from r (suc i) logs

    abbrev status_text : Bool → Value
    status_text true = lit "0x1"
    status_text false = lit "0x0"

    abbrev pub receipt_fields : StoredReceipt → ℕ × ℕ → Fields
    receipt_fields r (tx_type, price) =
        field (codes "transactionHash") (string (b256_text r.tx_hash)) (
          field (codes "transactionIndex") (lit "0x0") (
            field (codes "blockNumber") (string (quantity_u64 r.block_number)) (
              field (codes "blockHash") (string (b256_text r.block_hash)) (
                field (codes "from") (string (address_text r.sender)) (
                  field (codes "to") (text_or_null (map_text address_text r.to)) (
                    field (codes "contractAddress")
                      (text_or_null (map_text address_text r.contract_address))
                      (field (codes "cumulativeGasUsed") (string (quantity_u64 r.gas_used)) (
                        field (codes "gasUsed") (string (quantity_u64 r.gas_used)) (
                          field (codes "effectiveGasPrice") (string (quantity_u256 price)) (
                            field (codes "status") (status_text r.success) (
                              field (codes "type") (string (quantity_u64 tx_type)) (
                                field (codes "logs")
                                  (array (of_list (receipt_logs_from r 0 r.logs)))
                                  (field (codes "logsBloom") logs_bloom end)))))))))))))

    unfoldable pub receipt_view : KanariNode m → Bytes → Option Value
    unfolding render_sealed_log
    receipt_view node hash = elim (receipt m node hash) [
      | none ↦ none
      | some r ↦ some (
          object (
            receipt_fields r
              (type_and_price (base_fee_at node r.block_number) (tx_record m node hash))))
    ]

    abbrev full_views : KanariNode m → List Bytes → List Value
    full_views node [] = []
    full_views node (raw ∷ txs) = null_if_none (tx_view node (keccak256 raw)) ∷ full_views node txs

    abbrev hash_values : List Bytes → List Value
    hash_values [] = []
    hash_values (raw ∷ txs) = string (b256_text (keccak256 raw)) ∷ hash_values txs

    abbrev pub tx_items : KanariNode m → Bool → List Bytes → Items
    tx_items node true txs = of_list (full_views node txs)
    tx_items node false txs = of_list (hash_values txs)

    abbrev root_or_zero : Option Bytes → Bytes
    root_or_zero none = b256_zero
    root_or_zero (some root) = root

    abbrev pub sealed_view : KanariNode m → Bool → SealedBlock → Value
    sealed_view node full_txs b =
        block_fields forms b.number b.hash b.parent_hash (root_or_zero b.state_root)
          (gas_of_txs m node.receipts b.txs) b.timestamp b.base_fee (tx_items node full_txs b.txs)

    abbrev pub genesis_view : KanariNode m → Value
    genesis_view node =
        empty_block_view forms 0 (genesis_hash m) b256_zero 0 node.genesis_root
          node.spec.base_fee_wei

    -- Block 0 is made up where no block has that number.
    unfoldable pub block_view : KanariNode m → ℕ → Bool → Option Value
    unfolding empty_block_view tx_view gas_of_txs
    block_view node number full_txs =
        if number == 0 && not (is_some (block_by_number m node 0))
        then some (genesis_view node)
        else elim (block_by_number m node number) [
          | none ↦ none
          | some b ↦ some (sealed_view node full_txs b)
        ]

    unfoldable pub block_view_by_hash : KanariNode m → Bytes → Bool → Option Value
    unfolding block_view
    block_view_by_hash node hash full_txs =
        if bytes_eq hash (genesis_hash m) && not (is_some (block_by_number m node 0))
        then some (genesis_view node)
        else elim (block_by_hash m node hash) [
          | none ↦ none
          | some b ↦ block_view node b.number full_txs
        ]
