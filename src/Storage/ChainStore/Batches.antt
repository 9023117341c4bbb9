-- ===== src/Storage/ChainStore/Batches.antt =====
-- What a batch leaves at a key, and which keys of `save_block` differ.
use kanari_evm.Prelude.{
  ℕ, ◌≡◌, refl, Bool, true, false, Option, none, some, [], ◌∷◌, ◌++◌, Bytes, bytes_eq,
  if◌then◌else◌, arith,
}
use kanari_evm.Types.Hex.RoundTrip.{IsBytes}
use kanari_evm.Storage.Keys.{block_key, receipt_key, tx_index_key, meta_height}
use kanari_evm.Storage.Keys.Distinct.{bytes_eq-hex_encode}
use kanari_evm.Storage.Engine.{Batch, last_put, after_put}

abbrev pub or_else {ℓ} : {A : Type ℓ} → Option A → Option A → Option A
or_else none o = o
or_else (some a) o = some a

pub last_put-append :
    (b c : Batch) (key : Bytes) → last_put (b ++ c) key ≡ or_else (last_put c key) (last_put b key)
unfolding last_put
last_put-append [] c key = ground arith
last_put-append ((k, v) ∷ b) c key = ground (arith, last_put-append b c key)

-- A key of some other kind than a receipt or an index entry.
pub record IsOtherKey (key : Bytes) : Type 0 where
  pub no_receipt : (h : Bytes) → bytes_eq (receipt_key h) key ≡ false
  pub no_index : (h : Bytes) → bytes_eq (tx_index_key h) key ≡ false

pub block_key-IsOtherKey : (n : ℕ) → IsOtherKey (block_key n)
unfolding block_key receipt_key tx_index_key bytes_eq
block_key-IsOtherKey n = record { no_receipt = λ h. refl; no_index = λ h. refl }

pub meta-IsOtherKey : (key : Bytes) → IsOtherKey (b'm' ∷ key)
unfolding receipt_key tx_index_key bytes_eq
meta-IsOtherKey key = record { no_receipt = λ h. refl; no_index = λ h. refl }

pub last_put-cons_ne :
    (k v : Bytes) (b : Batch) (key : Bytes)
    → bytes_eq k key ≡ false
    → last_put ((k, v) ∷ b) key ≡ last_put b key
unfolding last_put
last_put-cons_ne k v b key h = ground arith

pub last_put-pair_first :
    (j v k w : Bytes) (b : Batch) (key : Bytes)
    → bytes_eq k key ≡ false
    → last_put ((j, v) ∷ (k, w) ∷ b) key
      ≡ or_else (last_put b key) (if bytes_eq j key then some v else none)
unfolding last_put
last_put-pair_first j v k w b key h = ground arith

pub last_put-pair_second :
    (j v k w : Bytes) (b : Batch) (key : Bytes)
    → bytes_eq j key ≡ false
    → last_put ((j, v) ∷ (k, w) ∷ b) key
      ≡ or_else (last_put b key) (if bytes_eq k key then some w else none)
unfolding last_put
last_put-pair_second j v k w b key h = ground arith

pub receipt_key-receipt_key :
    (h g : Bytes) → IsBytes h → IsBytes g → bytes_eq (receipt_key h) (receipt_key g) ≡ bytes_eq h g
unfolding receipt_key bytes_eq
receipt_key-receipt_key h g p q = bytes_eq-hex_encode h g p q

pub tx_index_key-tx_index_key :
    (h g : Bytes)
    → IsBytes h
    → IsBytes g
    → bytes_eq (tx_index_key h) (tx_index_key g) ≡ bytes_eq h g
unfolding tx_index_key bytes_eq
tx_index_key-tx_index_key h g p q = bytes_eq-hex_encode h g p q

pub tx_index_key-receipt_key : (h g : Bytes) → bytes_eq (tx_index_key h) (receipt_key g) ≡ false
unfolding receipt_key tx_index_key bytes_eq
tx_index_key-receipt_key h g = refl

pub receipt_key-tx_index_key : (h g : Bytes) → bytes_eq (receipt_key h) (tx_index_key g) ≡ false
unfolding receipt_key tx_index_key bytes_eq
receipt_key-tx_index_key h g = refl

pub last_put-cons :
    (k v : Bytes) (b : Batch) (key : Bytes)
    → last_put ((k, v) ∷ b) key ≡ or_else (last_put b key) (if bytes_eq k key then some v else none)
unfolding last_put
last_put-cons k v b key = ground arith

-- The batch of a block: its own entry, the receipts' puts and the height.
pub last_put-block_batch :
    (n : ℕ) (v : Bytes) (puts : Batch) (h : Bytes) (key : Bytes)
    → last_put ((block_key n, v) ∷ (puts ++ (meta_height, h) ∷ [])) key
      ≡ or_else
          (or_else (if bytes_eq meta_height key then some h else none) (last_put puts key))
          (if bytes_eq (block_key n) key then some v else none)
last_put-block_batch n v puts h key =
    rw
      (
        last_put-cons (block_key n) v (puts ++ (meta_height, h) ∷ []) key,
        last_put-append puts ((meta_height, h) ∷ []) key,
        last_put-cons meta_height h [] key,
      )
      (unfold last_put in refl)

pub meta_height-block_key : (n : ℕ) → bytes_eq meta_height (block_key n) ≡ false
unfolding block_key bytes_eq
meta_height-block_key n = refl

pub block_key-meta_height : (n : ℕ) → bytes_eq (block_key n) meta_height ≡ false
unfolding block_key bytes_eq
block_key-meta_height n = refl

pub meta_height-receipt_key : (g : Bytes) → bytes_eq meta_height (receipt_key g) ≡ false
unfolding receipt_key bytes_eq
meta_height-receipt_key g = refl

pub meta_height-tx_index_key : (g : Bytes) → bytes_eq meta_height (tx_index_key g) ≡ false
unfolding tx_index_key bytes_eq
meta_height-tx_index_key g = refl

pub block_key-receipt_key : (n : ℕ) (g : Bytes) → bytes_eq (block_key n) (receipt_key g) ≡ false
unfolding block_key receipt_key bytes_eq
block_key-receipt_key n g = refl

pub block_key-tx_index_key : (n : ℕ) (g : Bytes) → bytes_eq (block_key n) (tx_index_key g) ≡ false
unfolding block_key tx_index_key bytes_eq
block_key-tx_index_key n g = refl

pub block_key-meta : (n : ℕ) (key : Bytes) → bytes_eq (block_key n) (b'm' ∷ key) ≡ false
unfolding block_key bytes_eq
block_key-meta n key = refl

pub after_put-if {ℓ} :
    {A : Type ℓ} (found : Option Bytes → A) (b : Bool) (v : Bytes) (unchanged : A)
    → after_put (if b then some v else none) found unchanged
      ≡ (if b then found (some v) else unchanged)
after_put-if found true v unchanged = refl
after_put-if found false v unchanged = refl

pub or_else-none {ℓ} : {A : Type ℓ} (o : Option A) → or_else o none ≡ o
or_else-none none = refl
or_else-none (some a) = refl
