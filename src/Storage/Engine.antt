-- ===== src/Storage/Engine.antt =====
-- What the chain store uses of RocksDB and of serde: an interface with the behaviour that their
-- documentation promises.
use Prim.Native.String.{String}
use kanari_evm.Prelude.{
  ℕ, ◌≡◌, Option, none, some, List, [], ◌∷◌, Bytes, bytes_eq, Result, ok, if◌then◌else◌,
}
use kanari_evm.Storage.Records.{SealedBlock, StoredReceipt}

-- A `WriteBatch`: the puts in order.
abbrev pub Batch : Type 0
Batch = List (Bytes × Bytes)

-- The value that a batch leaves at a key: the last one put there.
unfoldable pub last_put : Batch → Bytes → Option Bytes
last_put [] key = none
last_put ((k, v) ∷ batch) key = elim (last_put batch key) [
  | some w ↦ some w
  | none ↦ if bytes_eq k key then some v else none
]

abbrev pub after_put {ℓ} : {A : Type ℓ} → Option Bytes → (Option Bytes → A) → A → A
after_put (some v) found unchanged = found (some v)
after_put none found unchanged = unchanged

-- `serde_json::to_vec` and `from_slice` at one type.
pub record Codec (A : Type 0) : Type 0 where
  pub to_vec : A → Result String Bytes
  pub from_slice : Bytes → Result String A
  pub from_slice-to_vec : (a : A) (bytes : Bytes) → to_vec a ≡ ok bytes → from_slice bytes ≡ ok a

-- A write batch is applied whole, or it fails and there is no new database.
pub record Engine : Type 1 where
  pub Db : Type 0
  pub get : Db → Bytes → Result String (Option Bytes)
  pub write : Db → Batch → Result String Db
  pub get-write :
      (db db' : Db) (batch : Batch) (key : Bytes)
      → write db batch ≡ ok db'
      → get db' key ≡ after_put (last_put batch key) ok (get db key)
  pub block_codec : Codec SealedBlock
  pub receipt_codec : Codec StoredReceipt
  pub alloc_codec : Codec (List (Bytes × ℕ))
