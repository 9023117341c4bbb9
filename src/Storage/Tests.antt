-- ===== src/Storage/Tests.antt =====
-- The chain store's theorems on a store in memory that takes one block.
use kanari_evm.Prelude.{
  ◌≡◌, refl, none, some, List, [], ◌∷◌, Bytes, ok, arith, ◌==◌, if◌then◌else◌, true,
}
use kanari_evm.Storage.Records.{SealedBlock, StoredReceipt}
use kanari_evm.Storage.ChainStore.{save_block, load_block, load_receipt, receipt_puts}
use kanari_evm.Storage.ChainStore.Puts.{receipt_at}
use kanari_evm.Storage.ChainStore.Saved.{load_block-save_block, load_receipt-save_block}
use kanari_evm.Storage.ChainStore.History.{Holds, Holds-save_block}
use kanari_evm.Samples.Stores.{Memory, memory, no_entries}
use kanari_evm.Samples.Nodes.{no_entries-Holds}

abbrev tx_hash : Bytes
tx_hash = 0xab ∷ 0x01 ∷ []

abbrev first_block : SealedBlock
first_block = record {
  number = 1;
  timestamp = 100;
  hash = 5 ∷ [];
  parent_hash = [];
  txs = (7 ∷ []) ∷ [];
  state_root = none;
  base_fee = 1_000_000_000;
}

abbrev first_receipt : StoredReceipt
first_receipt = record {
  tx_hash = tx_hash;
  block_number = 1;
  block_hash = 5 ∷ [];
  gas_used = 21000;
  success = true;
  sender = 9 ∷ [];
  to = none;
  contract_address = none;
  logs = [];
}

abbrev receipts : List (Bytes × StoredReceipt)
receipts = (tx_hash, first_receipt) ∷ []

saving : (db : Memory) × (save_block memory no_entries first_block receipts ≡ ok db)
unfolding save_block receipt_puts
saving = (_, refl)

load_block-save_block_example :
    load_block memory saving.0 1
    ≡ (if first_block.number == 1 then ok (some first_block) else load_block memory no_entries 1)
load_block-save_block_example =
    load_block-save_block memory no_entries saving.0 first_block receipts saving.1 1 (omega arith)
      (omega arith)

load_receipt-save_block_example :
    load_receipt memory saving.0 tx_hash ≡ elim (receipt_at tx_hash receipts) [
      | none ↦ load_receipt memory no_entries tx_hash
      | some r ↦ ok (some r)
    ]
load_receipt-save_block_example =
    load_receipt-save_block memory no_entries saving.0 first_block receipts saving.1 tx_hash
      (omega arith, (omega arith, tt)) ((omega arith, (omega arith, tt)), tt)

Holds-save_block_example : Holds memory saving.0 (first_block ∷ [])
Holds-save_block_example =
    Holds-save_block memory no_entries saving.0 first_block receipts saving.1 (omega arith) []
      no_entries-Holds refl
