-- ===== src/Execution/Open/Tests.antt =====
-- A sample chain of one block, opened again.
use kanari_evm.Prelude.{
  ◌≡◌, ◌<◌, ◌^◌, subst, refl, none, some, [], ◌∷◌, ok, length, arith, bytes_eq, to_le_bytes,
  from_le_bytes, to_be_bytes,
}
use kanari_evm.Types.Gas.{base_fee_share}
use kanari_evm.Types.Text.{padded_hex, hex_char}
use kanari_evm.Types.Hex.{hex_encode}
use kanari_evm.Storage.Engine.{last_put}
use kanari_evm.Storage.Records.{SealedBlock}
use kanari_evm.Storage.Keys.{block_key, receipt_key, tx_index_key}
use kanari_evm.Storage.ChainStore.{
  init_meta, stored_chain_id, get_u64, stored_u64, height, load_blocks, load_blocks_from,
  load_block, stored_json, save_block, receipt_puts, stored_genesis_alloc, stored_alloc,
  load_faucet_key, stored_key,
}
use kanari_evm.Storage.ChainStore.History.{Holds}
use kanari_evm.Execution.ChainSpec.{apply_genesis, apply_alloc, apply_code, apply_storage}
use kanari_evm.Execution.Commitment.{smt_entries}
use kanari_evm.Execution.Tx.{decode, envelope_env, check_chain_id}
use kanari_evm.Execution.Node.{KanariNode, pending_base_fee, block_number, latest_number}
use kanari_evm.Execution.Seal.{
  seal_raw_with_fee, seal_raw, seal_committed, transact_raw, credit_burned, credit_beneficiary,
  rebuild_smt, save_sealed, sealed_block, sealed_receipt, execution_summary, next_parent_hash,
  block_hash, genesis_hash,
}
use kanari_evm.Execution.Seal.Chain.{IsValid, IsChain, seal_committed-IsValid}
use kanari_evm.Execution.Replay.{replay_txs, replay_blocks, check_replayed, check_root}
use kanari_evm.Execution.Replay.Restored.{AllRooted, replay_txs-rewinds}
use kanari_evm.Execution.Open.{new_node, open_node, open_stored, set_genesis}
use kanari_evm.Execution.Open.Reopened.{open_node-restores}
use kanari_evm.Samples.Stores.{Memory, memory, no_entries}
use kanari_evm.Samples.Machines.{sample}
use kanari_evm.Samples.Nodes.{sample_spec, first_raw}

initial : (db : Memory) × (init_meta memory no_entries 1 [] ≡ ok db)
unfolding init_meta
initial = (_, refl)

abbrev old_node : KanariNode sample
old_node = new_node sample sample_spec initial.0

old_node-IsValid : IsValid sample old_node
unfolding initial height get_u64 stored_u64 load_blocks load_blocks_from last_put bytes_eq
old_node-IsValid = record { chain = tt; stored = record { top = refl; loaded = refl } }

abbrev grown : KanariNode sample
grown = (seal_committed sample first_raw 100 old_node).1

grown-IsValid : IsValid sample grown
grown-IsValid = seal_committed-IsValid sample first_raw 100 old_node old_node-IsValid (omega arith)

grown-AllRooted : AllRooted grown.blocks
unfolding seal_committed seal_raw seal_raw_with_fee decode envelope_env check_chain_id transact_raw
    credit_burned credit_beneficiary rebuild_smt save_sealed sealed_block sealed_receipt
    execution_summary save_block receipt_puts base_fee_share pending_base_fee
grown-AllRooted = ((_, refl), tt)

grown-chain_id : stored_chain_id memory grown.store ≡ ok (some 1)
unfolding seal_committed seal_raw seal_raw_with_fee decode envelope_env check_chain_id transact_raw
    credit_burned credit_beneficiary rebuild_smt save_sealed sealed_block sealed_receipt
    execution_summary save_block receipt_puts base_fee_share pending_base_fee next_parent_hash
    block_hash genesis_hash block_number latest_number initial init_meta last_put bytes_eq block_key
    receipt_key tx_index_key padded_hex hex_encode hex_char to_le_bytes from_le_bytes to_be_bytes
    stored_chain_id get_u64 stored_u64 stored_genesis_alloc stored_alloc load_faucet_key stored_key
    height load_blocks load_blocks_from load_block stored_json apply_genesis apply_alloc apply_code
    apply_storage smt_entries replay_txs replay_blocks check_replayed check_root open_node
    open_stored set_genesis
grown-chain_id = refl

reopening :
    (n : KanariNode sample) × (open_node sample none (new_node sample sample_spec grown.store)
      ≡ (ok tt, n))
unfolding seal_committed seal_raw seal_raw_with_fee decode envelope_env check_chain_id transact_raw
    credit_burned credit_beneficiary rebuild_smt save_sealed sealed_block sealed_receipt
    execution_summary save_block receipt_puts base_fee_share pending_base_fee next_parent_hash
    block_hash genesis_hash block_number latest_number initial init_meta last_put bytes_eq block_key
    receipt_key tx_index_key padded_hex hex_encode hex_char to_le_bytes from_le_bytes to_be_bytes
    stored_chain_id get_u64 stored_u64 stored_genesis_alloc stored_alloc load_faucet_key stored_key
    height load_blocks load_blocks_from load_block stored_json apply_genesis apply_alloc apply_code
    apply_storage smt_entries replay_txs replay_blocks check_replayed check_root open_node
    open_stored set_genesis
reopening = (_, refl)

grown-fits : length grown.blocks < 2 ^ 64
unfolding seal_committed seal_raw seal_raw_with_fee decode envelope_env check_chain_id transact_raw
    credit_burned credit_beneficiary rebuild_smt save_sealed sealed_block sealed_receipt
    execution_summary save_block receipt_puts base_fee_share pending_base_fee next_parent_hash
    block_hash genesis_hash block_number latest_number initial init_meta last_put bytes_eq block_key
    receipt_key tx_index_key padded_hex hex_encode hex_char to_le_bytes from_le_bytes to_be_bytes
    stored_chain_id get_u64 stored_u64 stored_genesis_alloc stored_alloc load_faucet_key stored_key
    height load_blocks load_blocks_from load_block stored_json apply_genesis apply_alloc apply_code
    apply_storage smt_entries replay_txs replay_blocks check_replayed check_root open_node
    open_stored set_genesis
grown-fits = omega arith

open_node-restores_example : (reopening.0.blocks ≡ grown.blocks) × IsValid sample reopening.0
open_node-restores_example =
    open_node-restores sample none sample_spec grown.store 1 grown.blocks reopening.0 grown-chain_id
      grown-IsValid.stored grown-IsValid.chain grown-AllRooted grown-fits reopening.1

grown_block : (b : SealedBlock) × (grown.blocks ≡ b ∷ [])
unfolding seal_committed seal_raw seal_raw_with_fee decode envelope_env check_chain_id transact_raw
    credit_burned credit_beneficiary rebuild_smt save_sealed sealed_block sealed_receipt
    execution_summary save_block receipt_puts base_fee_share pending_base_fee next_parent_hash
    block_hash genesis_hash block_number latest_number initial init_meta last_put bytes_eq block_key
    receipt_key tx_index_key padded_hex hex_encode hex_char to_le_bytes from_le_bytes to_be_bytes
    stored_chain_id get_u64 stored_u64 stored_genesis_alloc stored_alloc load_faucet_key stored_key
    height load_blocks load_blocks_from load_block stored_json apply_genesis apply_alloc apply_code
    apply_storage smt_entries replay_txs replay_blocks check_replayed check_root open_node
    open_stored set_genesis
grown_block = (_, refl)

replaying :
    (n : KanariNode sample) × (replay_txs sample grown_block.0 grown_block.0.txs
        (new_node sample sample_spec grown.store)
      ≡ (ok tt, n))
unfolding seal_committed seal_raw seal_raw_with_fee decode envelope_env check_chain_id transact_raw
    credit_burned credit_beneficiary rebuild_smt save_sealed sealed_block sealed_receipt
    execution_summary save_block receipt_puts base_fee_share pending_base_fee next_parent_hash
    block_hash genesis_hash block_number latest_number grown_block initial init_meta last_put
    bytes_eq block_key receipt_key tx_index_key padded_hex hex_encode hex_char to_le_bytes
    from_le_bytes to_be_bytes stored_chain_id get_u64 stored_u64 stored_genesis_alloc stored_alloc
    load_faucet_key stored_key height load_blocks load_blocks_from load_block stored_json
    apply_genesis apply_alloc apply_code apply_storage smt_entries replay_txs replay_blocks
    check_replayed check_root open_node open_stored set_genesis
replaying = (_, refl)

replay_txs-rewinds_example :
    (height memory replaying.0.store ≡ ok 1)
    × (load_blocks memory replaying.0.store ≡ ok (grown_block.0 ∷ []))
replay_txs-rewinds_example =
    replay_txs-rewinds sample grown_block.0 [] (new_node sample sample_spec grown.store) replaying.0
      refl (subst (Holds memory grown.store) grown_block.1 grown-IsValid.stored)
      (subst (IsChain sample) grown_block.1 grown-IsValid.chain)
      (subst AllRooted grown_block.1 grown-AllRooted) replaying.1
