-- ===== src/Storage/ChainStore.antt =====
-- `ChainStore` of `crates/storage/src/store.rs`. The handle's database is passed as a value: an
-- operation that writes returns the new one.
pub mod Batches
pub mod Puts
pub mod Saved
pub mod History
pub mod Meta
use Prim.Native.String.{String}
use kanari_evm.Prelude.{
  ℕ, zero, suc, ◌+◌, ◌≡◌, Bool, true, false, Option, none, some, List, [], ◌∷◌, ◌++◌, Bytes, Result,
  ok, err, ◌>>=◌, map_err, length, to_le_bytes, from_le_bytes, ◌==◌, if◌then◌else◌,
}
use kanari_evm.Storage.Records.{SealedBlock, StoredReceipt}
use kanari_evm.Storage.Keys.{
  block_key, receipt_key, tx_index_key, meta_chain_id, meta_genesis, meta_height, meta_faucet_key,
}
use kanari_evm.Storage.Engine.{Batch, Codec, Engine}

pub data StoreError : Type 0 where
  backend : String → StoreError
  chain_mismatch : ℕ → ℕ → StoreError

abbrev pub StoreResult : Type 0 → Type 0
StoreResult = Result StoreError

-- `u64::from_le_bytes` of an entry of eight bytes; any other length is corrupt.
unfoldable pub stored_u64 : String → Option Bytes → StoreResult (Option ℕ)
stored_u64 message none = ok none
stored_u64 message (some bytes) =
    if length bytes == 8 then ok (some (from_le_bytes bytes)) else err (backend message)

-- A JSON entry, where there is one.
unfoldable pub stored_json : {A : Type 0} → Codec A → Option Bytes → StoreResult (Option A)
stored_json codec none = ok none
stored_json codec (some bytes) = do
  value ← map_err backend (codec.from_slice bytes)
  ok (some value)

unfoldable pub stored_alloc :
    Codec (List (Bytes × ℕ)) → Option Bytes → StoreResult (List (Bytes × ℕ))
stored_alloc codec none = ok []
stored_alloc codec (some bytes) = map_err backend (codec.from_slice bytes)

unfoldable pub stored_key : Option Bytes → StoreResult (Option Bytes)
stored_key none = ok none
stored_key (some bytes) =
    if length bytes == 32 then ok (some bytes) else err (backend "corrupt faucet key")

abbrev pub or_zero : Option ℕ → ℕ
or_zero none = 0
or_zero (some n) = n

abbrev pub is_none {ℓ} : {A : Type ℓ} → Option A → Bool
is_none none = true
is_none (some a) = false

abbrev push_block : Option SealedBlock → List SealedBlock → List SealedBlock
push_block none rest = rest
push_block (some b) rest = b ∷ rest

module _ (e : Engine) where
  open e use {Db, get, write, block_codec, receipt_codec, alloc_codec}

  unfoldable pub get_u64 : Db → Bytes → StoreResult (Option ℕ)
  unfolding stored_u64
  get_u64 db key = do raw ← map_err backend (get db key); stored_u64 "corrupt meta entry" raw

  unfoldable pub is_fresh : Db → StoreResult Bool
  is_fresh db = do stored ← get_u64 db meta_height; ok (is_none stored)

  -- The puts for the receipts: the receipt and the index entry of each transaction.
  unfoldable pub receipt_puts : ℕ → List (Bytes × StoredReceipt) → StoreResult Batch
  receipt_puts number [] = ok []
  receipt_puts number ((hash, receipt) ∷ receipts) = do
    receipt_bytes ← map_err backend (receipt_codec.to_vec receipt)
    rest ← receipt_puts number receipts
    ok ((receipt_key hash, receipt_bytes) ∷ (tx_index_key hash, to_le_bytes 8 number) ∷ rest)

  unfoldable pub save_block : Db → SealedBlock → List (Bytes × StoredReceipt) → StoreResult Db
  save_block db block receipts = do
    block_bytes ← map_err backend (block_codec.to_vec block)
    puts ← receipt_puts block.number receipts
    map_err backend (
        write db (
          (block_key block.number, block_bytes)
          ∷ (puts ++ (meta_height, to_le_bytes 8 block.number) ∷ [])))

  unfoldable pub load_block : Db → ℕ → StoreResult (Option SealedBlock)
  unfolding stored_json
  load_block db number = do
    raw ← map_err backend (get db (block_key number))
    stored_json block_codec raw

  -- The loop from `number`, `rounds` blocks long; numbers with no entry are skipped.
  unfoldable pub load_blocks_from : Db → ℕ → ℕ → StoreResult (List SealedBlock)
  load_blocks_from db zero number = ok []
  load_blocks_from db (suc rounds) number = do
    block ← load_block db number
    rest ← load_blocks_from db rounds (suc number)
    ok (push_block block rest)

  unfoldable pub height : Db → StoreResult ℕ
  height db = do stored ← get_u64 db meta_height; ok (or_zero stored)

  unfoldable pub load_blocks : Db → StoreResult (List SealedBlock)
  load_blocks db = do top ← height db; load_blocks_from db top 1

  unfoldable pub load_receipt : Db → Bytes → StoreResult (Option StoredReceipt)
  unfolding stored_json
  load_receipt db hash = do
    raw ← map_err backend (get db (receipt_key hash))
    stored_json receipt_codec raw

  unfoldable pub block_number_for_tx : Db → Bytes → StoreResult (Option ℕ)
  unfolding stored_u64
  block_number_for_tx db hash = do
    raw ← map_err backend (get db (tx_index_key hash))
    stored_u64 "corrupt tx index entry" raw

  unfoldable pub init_meta : Db → ℕ → List (Bytes × ℕ) → StoreResult Db
  init_meta db chain_id genesis_alloc = do
    alloc_bytes ← map_err backend (alloc_codec.to_vec genesis_alloc)
    map_err backend
        (write db ((meta_chain_id, to_le_bytes 8 chain_id) ∷ (meta_genesis, alloc_bytes) ∷ []))

  unfoldable pub stored_chain_id : Db → StoreResult (Option ℕ)
  stored_chain_id db = get_u64 db meta_chain_id

  unfoldable pub stored_genesis_alloc : Db → StoreResult (List (Bytes × ℕ))
  unfolding stored_alloc
  stored_genesis_alloc db = do
    raw ← map_err backend (get db meta_genesis)
    stored_alloc alloc_codec raw

  unfoldable pub set_faucet_key : Db → Bytes → StoreResult Db
  set_faucet_key db secret = map_err backend (write db ((meta_faucet_key, secret) ∷ []))

  unfoldable pub load_faucet_key : Db → StoreResult (Option Bytes)
  unfolding stored_key
  load_faucet_key db = do raw ← map_err backend (get db meta_faucet_key); stored_key raw
