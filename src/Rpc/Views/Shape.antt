-- ===== src/Rpc/Views/Shape.antt =====
-- Fields of the views.
use kanari_evm.Prelude.{◌≡◌, refl, some, Bytes, bytes_eq}
use kanari_evm.Types.Hex.{quantity_u64}
use kanari_evm.Storage.Keys.{codes}
use kanari_evm.Storage.Records.{StoredReceipt}
use kanari_evm.Json.{string, object, Fields, get}
use kanari_evm.Execution.Machine.{Machine}
use kanari_evm.Execution.Node.{KanariNode, receipt, tx_record}
use kanari_evm.Rpc.Forms.{Forms}
use kanari_evm.Rpc.Views.{receipt_view, receipt_fields, type_and_price, base_fee_at}

module _ (forms : Forms) (m : Machine) where
  -- The view of a receipt shows its hash and its block.
  pub receipt_view-fields :
      (n : KanariNode m) (hash : Bytes) (r : StoredReceipt)
      → receipt m n hash ≡ some r
      → (fields : Fields) × (receipt_view forms m n hash ≡ some (object fields))
        × (get (codes "transactionHash") fields ≡ some (string (forms.b256_text r.tx_hash)))
        × (get (codes "blockNumber") fields ≡ some (string (quantity_u64 r.block_number)))
  unfolding receipt_view get bytes_eq
  receipt_view-fields n hash r found = (
    receipt_fields forms m r
        (type_and_price forms m (base_fee_at forms m n r.block_number) (tx_record m n hash)),
    rw (receipt_view, found) refl,
    refl,
    refl,
  )
