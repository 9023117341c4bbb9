-- ===== src/Rpc/Views/Parts.antt =====
-- The views of blocks and logs of `crates/move-execution/src/views.rs` from their parts.
use kanari_evm.Prelude.{ℕ, zero, suc, false, Option, none, some, List, [], ◌∷◌, Bytes, to_be_bytes}
use kanari_evm.Types.Text.{Text}
use kanari_evm.Types.Hex.{hex_prefixed, quantity_u64, quantity_u256}
use kanari_evm.Types.Gas.{block_gas_limit}
use kanari_evm.Storage.Keys.{codes}
use kanari_evm.Storage.Records.{SealedBlock}
use kanari_evm.Json.{
  Value, null, boolean, string, array, object, Items, nil, Fields, end, field, texts, lit,
}
use kanari_evm.Execution.Node.{block_beneficiary}
use kanari_evm.Rpc.Forms.{Forms}
use kanari_evm.Rpc.Logs.{SealedLog}

abbrev pub fee_of : ℕ → Option SealedBlock → ℕ
fee_of default none = default
fee_of default (some b) = b.base_fee

abbrev pub b256_zero : Bytes
b256_zero = to_be_bytes 32 0

-- `"00".repeat(n)`
unfoldable pub zero_bytes : ℕ → Text
zero_bytes zero = []
zero_bytes (suc n) = b'0' ∷ b'0' ∷ zero_bytes n

abbrev pub logs_bloom : Value
logs_bloom = string (b'0' ∷ b'x' ∷ zero_bytes 256)

abbrev pub sha3_uncles : Value
sha3_uncles = lit "0x1dcc4de8dec75d7aab85b567b6ccd41ad312451b948a741f0a22ef665e9a5c"

abbrev pub empty_root : Value
empty_root = lit "0x56e81f171bcc55a6ff8345e692c0f86e5b48e01b996cadc001622fb5e363b421"

abbrev pub map_text : (Bytes → Text) → Option Bytes → Option Text
map_text f none = none
map_text f (some bytes) = some (f bytes)

abbrev pub all_texts : (Bytes → Text) → List Bytes → List Text
all_texts f [] = []
all_texts f (b ∷ rest) = f b ∷ all_texts f rest

abbrev pub null_if_none : Option Value → Value
null_if_none none = null
null_if_none (some v) = v

module _ (forms : Forms) where
  open forms use {address_text, b256_text}

  unfoldable pub render_sealed_log : SealedLog → Value
  render_sealed_log l = object (
      field (codes "removed") (boolean false) (
        field (codes "logIndex") (string (quantity_u64 l.log_index)) (
          field (codes "transactionIndex") (lit "0x0") (
            field (codes "transactionHash") (string (b256_text l.tx_hash)) (
              field (codes "blockNumber") (string (quantity_u64 l.block_number)) (
                field (codes "blockHash") (string (b256_text l.block_hash)) (
                  field (codes "address") (string (address_text l.log.address)) (
                    field (codes "data") (string (hex_prefixed l.log.content)) (
                      field (codes "topics") (array (texts (all_texts b256_text l.log.topics)))
                        end)))))))))

  abbrev pub render_logs : List SealedLog → List Value
  render_logs [] = []
  render_logs (l ∷ logs) = render_sealed_log l ∷ render_logs logs

  -- The fields from `gasLimit` on, of the genesis block and of a sealed one.
  abbrev block_tail : ℕ → ℕ → ℕ → Items → Fields
  block_tail gas_used timestamp base_fee txs =
      field (codes "gasLimit") (string (quantity_u64 block_gas_limit)) (
        field (codes "gasUsed") (string (quantity_u64 gas_used)) (
          field (codes "timestamp") (string (quantity_u64 timestamp)) (
            field (codes "extraData") (lit "0x") (
              field (codes "mixHash") (string (b256_text b256_zero)) (
                field (codes "baseFeePerGas") (string (quantity_u256 base_fee)) (
                  field (codes "transactions") (array txs)
                    (field (codes "uncles") (array nil) end)))))))

  abbrev pub block_fields : ℕ → Bytes → Bytes → Bytes → ℕ → ℕ → ℕ → Items → Value
  block_fields number hash parent_hash state_root gas_used timestamp base_fee txs = object (
      field (codes "number") (string (quantity_u64 number)) (
        field (codes "hash") (string (b256_text hash)) (
          field (codes "parentHash") (string (b256_text parent_hash)) (
            field (codes "nonce") (lit "0x0000000000000000") (
              field (codes "sha3Uncles") sha3_uncles (
                field (codes "logsBloom") logs_bloom (
                  field (codes "transactionsRoot") empty_root (
                    field (codes "stateRoot") (string (b256_text state_root)) (
                      field (codes "receiptsRoot") empty_root (
                        field (codes "miner") (string (address_text block_beneficiary)) (
                          field (codes "difficulty") (lit "0x0") (
                            field (codes "totalDifficulty") (lit "0x0")
                              (block_tail gas_used timestamp base_fee txs)))))))))))))

  unfoldable pub empty_block_view : ℕ → Bytes → Bytes → ℕ → Bytes → ℕ → Value
  empty_block_view number hash parent_hash timestamp state_root base_fee_wei =
      block_fields number hash parent_hash state_root 0 timestamp base_fee_wei nil
