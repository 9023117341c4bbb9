-- ===== src/Storage/ChainStore/Puts.antt =====
-- What the puts of `save_block` for the receipts leave at each key.
use kanari_evm.Prelude.{
  ℕ, ◌≡◌, refl, Bool, true, false, Option, none, some, List, [], ◌∷◌, ◌++◌, Bytes, bytes_eq, ok,
  map_err, >>=-eq-ok, map_err-eq-ok, to_le_bytes, if◌then◌else◌, arith,
}
use kanari_evm.Types.Hex.RoundTrip.{IsBytes}
use kanari_evm.Storage.Records.{SealedBlock, StoredReceipt}
use kanari_evm.Storage.Keys.{block_key, receipt_key, tx_index_key, meta_height}
use kanari_evm.Storage.Engine.{Batch, Engine, last_put}
use kanari_evm.Storage.ChainStore.{backend, receipt_puts}
use kanari_evm.Storage.ChainStore.Batches.{
  IsOtherKey, last_put-cons_ne, last_put-pair_first, last_put-pair_second, or_else,
  receipt_key-receipt_key, receipt_key-tx_index_key, tx_index_key-receipt_key,
  tx_index_key-tx_index_key,
}

-- The receipt that the list holds last for a hash.
abbrev pub receipt_at : Bytes → List (Bytes × StoredReceipt) → Option StoredReceipt
receipt_at g [] = none
receipt_at g ((h, r) ∷ receipts) = elim (receipt_at g receipts) [
  | some later ↦ some later
  | none ↦ if bytes_eq h g then some r else none
]

-- Every hash of the list is a byte string.
abbrev pub HashesAreBytes : List (Bytes × StoredReceipt) → Type 0
HashesAreBytes [] = Unit {0}
HashesAreBytes ((h, r) ∷ receipts) = IsBytes h × HashesAreBytes receipts

-- The index entry of a hash, against the list of receipts.
abbrev pub index_entry : ℕ → Option StoredReceipt → Option Bytes
index_entry number none = none
index_entry number (some r) = some (to_le_bytes 8 number)

index_entry-cons :
    (number : ℕ) (old : Option StoredReceipt) (same : Bool) (receipt : StoredReceipt)
    → or_else (index_entry number old) (if same then some (to_le_bytes 8 number) else none)
      ≡ index_entry number (or_else old (if same then some receipt else none))
index_entry-cons number none true receipt = refl
index_entry-cons number none false receipt = refl
index_entry-cons number (some r) same receipt = refl

module _ (e : Engine) where
  open e use {Db, get, write, block_codec, receipt_codec}

  receipt_puts-cons :
      (number : ℕ) (hash : Bytes) (receipt : StoredReceipt)
      (receipts : List (Bytes × StoredReceipt)) (puts : Batch)
      → receipt_puts e number ((hash, receipt) ∷ receipts) ≡ ok puts
      → (bytes : Bytes) × (rest : Batch) × (receipt_codec.to_vec receipt ≡ ok bytes)
        × (receipt_puts e number receipts ≡ ok rest)
        × (puts ≡ (receipt_key hash, bytes) ∷ (tx_index_key hash, to_le_bytes 8 number) ∷ rest)
  unfolding receipt_puts
  receipt_puts-cons number hash receipt receipts puts h =
      let (bytes, v, h1) = >>=-eq-ok (map_err backend (receipt_codec.to_vec receipt)) _ h in
      let (rest, r, h2) = >>=-eq-ok (receipt_puts e number receipts) _ h1 in
      (bytes, rest, map_err-eq-ok backend (receipt_codec.to_vec receipt) v, r, cc h2)

  receipt_puts-nil : (number : ℕ) (puts : Batch) → receipt_puts e number [] ≡ ok puts → puts ≡ []
  unfolding receipt_puts
  receipt_puts-nil number puts h = cc

  -- The receipts' puts leave every key of another kind alone.
  pub last_put-receipt_puts :
      (number : ℕ) (receipts : List (Bytes × StoredReceipt)) (puts : Batch) (key : Bytes)
      → IsOtherKey key
      → receipt_puts e number receipts ≡ ok puts
      → last_put puts key ≡ none
  last_put-receipt_puts number [] puts key o h =
      rw (receipt_puts-nil number puts h) (unfold last_put in refl)
  last_put-receipt_puts number ((hash, receipt) ∷ receipts) puts key o h =
      let (bytes, rest, v, r, split) = receipt_puts-cons number hash receipt receipts puts h in
      rw
        (
          split,
          last_put-cons_ne (receipt_key hash) bytes
              ((tx_index_key hash, to_le_bytes 8 number) ∷ rest) key (o.no_receipt hash),
          last_put-cons_ne (tx_index_key hash) (to_le_bytes 8 number) rest key (o.no_index hash),
        )
        (last_put-receipt_puts number receipts rest key o r)

  -- What a batch holds for the receipt of a hash, against the list of receipts.
  abbrev pub HoldsReceipt : Option StoredReceipt → Option Bytes → Type 0
  HoldsReceipt none found = found ≡ none
  HoldsReceipt (some r) found =
      (bytes : Bytes) × (receipt_codec.to_vec r ≡ ok bytes) × (found ≡ some bytes)

  HoldsReceipt-cons :
      (old : Option StoredReceipt) (found : Option Bytes) (same : Bool) (receipt : StoredReceipt)
      (bytes : Bytes)
      → receipt_codec.to_vec receipt ≡ ok bytes
      → HoldsReceipt old found
      → HoldsReceipt
          (or_else old (if same then some receipt else none))
          (or_else found (if same then some bytes else none))
  HoldsReceipt-cons none found true receipt bytes v h = (bytes, v, rw h)
  HoldsReceipt-cons none found false receipt bytes v h = rw h
  HoldsReceipt-cons (some r) found same receipt bytes v h = (h.0, h.1, rw (h.2))

  receipt_at-cons :
      (g h : Bytes) (r : StoredReceipt) (receipts : List (Bytes × StoredReceipt))
      → receipt_at g ((h, r) ∷ receipts)
        ≡ or_else (receipt_at g receipts) (if bytes_eq h g then some r else none)
  receipt_at-cons g h r receipts = ground arith

  -- At a receipt key they leave the encoding of the last receipt for the hash.
  pub last_put-receipt_key :
      (number : ℕ) (receipts : List (Bytes × StoredReceipt)) (puts : Batch) (g : Bytes)
      → IsBytes g
      → HashesAreBytes receipts
      → receipt_puts e number receipts ≡ ok puts
      → HoldsReceipt (receipt_at g receipts) (last_put puts (receipt_key g))
  last_put-receipt_key number [] puts g b all h =
      rw (receipt_puts-nil number puts h) (unfold last_put in refl)
  last_put-receipt_key number ((hash, receipt) ∷ receipts) puts g b all h =
      let (bytes, rest, v, r, split) = receipt_puts-cons number hash receipt receipts puts h in
      rw
        (
          receipt_at-cons g hash receipt receipts,
          split,
          last_put-pair_first (receipt_key hash) bytes (tx_index_key hash) (to_le_bytes 8 number)
              rest (receipt_key g) (tx_index_key-receipt_key hash g),
          receipt_key-receipt_key hash g all.0 b,
        )
        (HoldsReceipt-cons (receipt_at g receipts) (last_put rest (receipt_key g)) (bytes_eq hash g)
          receipt bytes v (last_put-receipt_key number receipts rest g b all.1 r))

  -- At an index key they leave the block number where the list has a receipt for the hash.
  pub last_put-tx_index_key :
      (number : ℕ) (receipts : List (Bytes × StoredReceipt)) (puts : Batch) (g : Bytes)
      → IsBytes g
      → HashesAreBytes receipts
      → receipt_puts e number receipts ≡ ok puts
      → last_put puts (tx_index_key g) ≡ index_entry number (receipt_at g receipts)
  last_put-tx_index_key number [] puts g b all h =
      rw (receipt_puts-nil number puts h) (unfold last_put in refl)
  last_put-tx_index_key number ((hash, receipt) ∷ receipts) puts g b all h =
      let (bytes, rest, v, r, split) = receipt_puts-cons number hash receipt receipts puts h in
      rw
        (
          receipt_at-cons g hash receipt receipts,
          split,
          last_put-pair_second (receipt_key hash) bytes (tx_index_key hash) (to_le_bytes 8 number)
              rest (tx_index_key g) (receipt_key-tx_index_key hash g),
          tx_index_key-tx_index_key hash g all.0 b,
          last_put-tx_index_key number receipts rest g b all.1 r,
        )
        (index_entry-cons number (receipt_at g receipts) (bytes_eq hash g) receipt)

  -- A block that was saved: its encoding, the receipts' puts and the write.
  pub record IsSaved (db db' : Db) (block : SealedBlock) (receipts : List (Bytes × StoredReceipt))
      : Type 0 where
    pub bytes : Bytes
    pub puts : Batch
    pub encoded : block_codec.to_vec block ≡ ok bytes
    pub receipt_puts_ok : receipt_puts e block.number receipts ≡ ok puts
    pub written :
        write db (
          (block_key block.number, bytes)
          ∷ (puts ++ (meta_height, to_le_bytes 8 block.number) ∷ []))
        ≡ ok db'
