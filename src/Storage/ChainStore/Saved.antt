-- ===== src/Storage/ChainStore/Saved.antt =====
-- What every read returns after `save_block`.
use Prim.Native.String.{String}
use kanari_evm.Prelude.{
  ℕ, ◌^◌, ◌<◌, ◌≡◌, refl, false, Option, none, some, List, ◌∷◌, Bytes, bytes_eq, ok, ◌>>=◌, map_err,
  >>=-eq-ok, map_err-eq-ok, to_le_bytes, length-to_le_bytes, from_le_bytes-to_le_bytes, ◌==◌,
  if◌then◌else◌, inl, inr, Bool-cases,
}
use kanari_evm.Types.Hex.RoundTrip.{IsBytes}
use kanari_evm.Storage.Records.{SealedBlock, StoredReceipt}
use kanari_evm.Storage.Keys.{codes, block_key, receipt_key, tx_index_key, meta_height}
use kanari_evm.Storage.Keys.Distinct.{bytes_eq-block_key}
use kanari_evm.Storage.Engine.{Engine, last_put, after_put}
use kanari_evm.Storage.ChainStore.{
  backend, receipt_puts, save_block, load_block, height, load_receipt, block_number_for_tx,
  stored_u64, stored_json, get_u64, stored_chain_id, stored_genesis_alloc, load_faucet_key,
}
use kanari_evm.Storage.ChainStore.Batches.{
  after_put-if, block_key-IsOtherKey, block_key-meta, block_key-meta_height, block_key-receipt_key,
  block_key-tx_index_key, last_put-block_batch, meta-IsOtherKey, meta_height-block_key,
  meta_height-receipt_key, meta_height-tx_index_key, or_else-none,
}
use kanari_evm.Storage.ChainStore.Puts.{
  receipt_at, HashesAreBytes, last_put-receipt_puts, HoldsReceipt, last_put-receipt_key,
  index_entry, last_put-tx_index_key, IsSaved,
}

stored_u64-to_le_bytes :
    (message : String) (n : ℕ)
    → n < 2 ^ 64
    → stored_u64 message (some (to_le_bytes 8 n)) ≡ ok (some n)
unfolding stored_u64
stored_u64-to_le_bytes message n h =
    rw (length-to_le_bytes 8 n, from_le_bytes-to_le_bytes 8 n h) refl

module _ (e : Engine) where
  open e use {Db, get, write, get-write, block_codec, receipt_codec}

  save_block-IsSaved :
      (db db' : Db) (block : SealedBlock) (receipts : List (Bytes × StoredReceipt))
      → save_block e db block receipts ≡ ok db'
      → IsSaved e db db' block receipts
  unfolding save_block
  save_block-IsSaved db db' block receipts h =
      let (bytes, v, h1) = >>=-eq-ok (map_err backend (block_codec.to_vec block)) _ h in
      let (puts, r, h2) = >>=-eq-ok (receipt_puts e block.number receipts) _ h1 in
      record {
        bytes = bytes;
        puts = puts;
        encoded = map_err-eq-ok backend (block_codec.to_vec block) v;
        receipt_puts_ok = r;
        written = map_err-eq-ok backend _ h2;
      }

  module _ (db db' : Db) (block : SealedBlock) (receipts : List (Bytes × StoredReceipt))
      (saved : save_block e db block receipts ≡ ok db') where
    facts : IsSaved e db db' block receipts
    facts = save_block-IsSaved db db' block receipts saved

    get-block_key :
        (n : ℕ)
        → n < 2 ^ 64
        → block.number < 2 ^ 64
        → get db' (block_key n)
          ≡ (if block.number == n then ok (some facts.bytes) else get db (block_key n))
    get-block_key n p q =
        rw
          (
            get-write db db' _ (block_key n) facts.written,
            last_put-block_batch block.number facts.bytes facts.puts (to_le_bytes 8 block.number)
                (block_key n),
            meta_height-block_key n,
            last_put-receipt_puts e block.number receipts facts.puts (block_key n)
                (block_key-IsOtherKey n) facts.receipt_puts_ok,
            bytes_eq-block_key block.number n q p,
          )
          (after_put-if ok (block.number == n) facts.bytes (get db (block_key n)))

    get-meta_height : get db' meta_height ≡ ok (some (to_le_bytes 8 block.number))
    get-meta_height =
        rw
          (
            get-write db db' _ meta_height facts.written,
            last_put-block_batch block.number facts.bytes facts.puts (to_le_bytes 8 block.number)
                meta_height,
            last_put-receipt_puts e block.number receipts facts.puts meta_height (meta-IsOtherKey _)
                facts.receipt_puts_ok,
            block_key-meta_height block.number,
          )
          (unfold bytes_eq in refl)

    get-other_meta :
        (key : Bytes)
        → bytes_eq meta_height (b'm' ∷ key) ≡ false
        → get db' (b'm' ∷ key) ≡ get db (b'm' ∷ key)
    get-other_meta key other =
        rw
          (
            get-write db db' _ (b'm' ∷ key) facts.written,
            last_put-block_batch block.number facts.bytes facts.puts (to_le_bytes 8 block.number)
                (b'm' ∷ key),
            last_put-receipt_puts e block.number receipts facts.puts (b'm' ∷ key)
                (meta-IsOtherKey key) facts.receipt_puts_ok,
            other,
            block_key-meta block.number key,
          )
          refl

    -- Reading a block: the saved one at its number, the former entry at any other number.
    pub load_block-save_block :
        (n : ℕ)
        → n < 2 ^ 64
        → block.number < 2 ^ 64
        → load_block e db' n ≡ (if block.number == n then ok (some block) else load_block e db n)
    unfolding load_block
    load_block-save_block n p q = elim (Bool-cases (block.number == n)) [
      | inl same ↦
          rw (get-block_key n p q, same)
            (rw (block_codec.from_slice-to_vec block facts.bytes facts.encoded))
      | inr other ↦ rw (get-block_key n p q, other)
    ]

    -- The height is the number of the saved block.
    pub height-save_block : block.number < 2 ^ 64 → height e db' ≡ ok block.number
    unfolding height get_u64
    height-save_block q =
        rw (get-meta_height, stored_u64-to_le_bytes "corrupt meta entry" block.number q)

    get-receipt_key :
        (g : Bytes)
        → get db' (receipt_key g)
          ≡ after_put (last_put facts.puts (receipt_key g)) ok (get db (receipt_key g))
    get-receipt_key g =
        rw
          (
            get-write db db' _ (receipt_key g) facts.written,
            last_put-block_batch block.number facts.bytes facts.puts (to_le_bytes 8 block.number)
                (receipt_key g),
            meta_height-receipt_key g,
            block_key-receipt_key block.number g,
            or_else-none,
          )
          refl

    get-tx_index_key :
        (g : Bytes)
        → get db' (tx_index_key g)
          ≡ after_put (last_put facts.puts (tx_index_key g)) ok (get db (tx_index_key g))
    get-tx_index_key g =
        rw
          (
            get-write db db' _ (tx_index_key g) facts.written,
            last_put-block_batch block.number facts.bytes facts.puts (to_le_bytes 8 block.number)
                (tx_index_key g),
            meta_height-tx_index_key g,
            block_key-tx_index_key block.number g,
            or_else-none,
          )
          refl

    -- Reading a receipt: the last one saved with the block for the hash, or else the former entry.
    pub load_receipt-save_block :
        (g : Bytes)
        → IsBytes g
        → HashesAreBytes receipts
        → load_receipt e db' g
          ≡ elim (receipt_at g receipts) [ none ↦ load_receipt e db g | some r ↦ ok (some r) ]
    unfolding load_receipt
    load_receipt-save_block g b all = rw (get-receipt_key g) (
        loaded (receipt_at g receipts) (last_put facts.puts (receipt_key g))
          (last_put-receipt_key e block.number receipts facts.puts g b all facts.receipt_puts_ok))
      where
        loaded :
            (o : Option StoredReceipt) (found : Option Bytes)
            → HoldsReceipt e o found
            → (map_err backend (after_put found ok (get db (receipt_key g))) >>= λ raw.
                stored_json receipt_codec raw)
              ≡ elim o [ none ↦ load_receipt e db g | some r ↦ ok (some r) ]
        loaded none found h = rw h
        loaded (some r) found h = rw (h.2) (rw (receipt_codec.from_slice-to_vec r h.0 h.1))

    -- The block number of a transaction: that of the saved block for its receipts, or else the
    -- former entry.
    block_number_for_tx-save_block :
        (g : Bytes)
        → IsBytes g
        → HashesAreBytes receipts
        → block.number < 2 ^ 64
        → block_number_for_tx e db' g ≡ elim (receipt_at g receipts) [
          | none ↦ block_number_for_tx e db g
          | some r ↦ ok (some block.number)
        ]
    unfolding block_number_for_tx
    block_number_for_tx-save_block g b all q =
        rw
          (
            get-tx_index_key g,
            last_put-tx_index_key e block.number receipts facts.puts g b all facts.receipt_puts_ok,
          )
          (indexed (receipt_at g receipts))
      where
        indexed :
            (o : Option StoredReceipt)
            → (map_err backend (after_put (index_entry block.number o) ok (get db (tx_index_key g)))
                >>= λ raw. stored_u64 "corrupt tx index entry" raw)
              ≡ elim o [ none ↦ block_number_for_tx e db g | some r ↦ ok (some block.number) ]
        indexed none = refl
        indexed (some r) = stored_u64-to_le_bytes "corrupt tx index entry" block.number q

    -- The chain id, the genesis allocation and the faucet key stay as they were.
    meta-save_block :
        (stored_chain_id e db' ≡ stored_chain_id e db)
        × (stored_genesis_alloc e db' ≡ stored_genesis_alloc e db)
        × (load_faucet_key e db' ≡ load_faucet_key e db)
    unfolding stored_chain_id get_u64 stored_genesis_alloc load_faucet_key
    meta-save_block = (
      rw (get-other_meta (codes ":chain_id") (unfold bytes_eq in refl)),
      rw (get-other_meta (codes ":genesis") (unfold bytes_eq in refl)),
      rw (get-other_meta (codes ":faucet_key") (unfold bytes_eq in refl)),
    )
