-- ===== src/Rpc/Handlers/Accounts.antt =====
-- The methods that read an account: `eth_getCode`, `eth_getBalance`, `eth_getTransactionCount`,
-- `eth_getStorageAt` and `kanari_getSmtProof`. The block parameter is ignored.
use kanari_evm.Prelude.{List, ok, err, ◌>>=◌, get_elem?}
use kanari_evm.Types.Hex.{hex_prefixed, quantity_u64, quantity_u256, bytes32_hex}
use kanari_evm.Storage.Keys.{codes}
use kanari_evm.Json.{
  Value, boolean, string, array, object, field, end, texts, text_or_null, as_array, items_or_empty,
  present,
}
use kanari_evm.Execution.Commitment.{balance_of, nonce_of}
use kanari_evm.Execution.Node.{KanariNode}
use kanari_evm.Execution.Reads.{SmtProof, code_of, storage_of, smt_proof}
use kanari_evm.Rpc.Params.{Parsed, parse_some, parse_address, parse_u256}
use kanari_evm.Rpc.Response.{Reply, want, of_parsed, of_node}
use kanari_evm.Rpc.Services.{Services}
use kanari_evm.Rpc.Views.Parts.{all_texts, map_text}

abbrev pub arguments : Value → List Value
arguments params = items_or_empty (as_array params)

-- Both are parsed before either error is told, and the address's comes first.
abbrev pub both : {A B : Type 0} → Parsed A → Parsed B → Reply (A × B)
both (ok a) (ok b) = ok (a, b)
both (err e) _ = of_parsed (err e)
both (ok a) (err e) = of_parsed (err e)

module _ (s : Services) where
  open s use {machine, backend, forms}

  unfoldable pub get_code : Value → KanariNode machine → Reply Value
  get_code params node = do
    addr_v ← want "want [address, block]" (get_elem? (arguments params) 0)
    addr ← of_parsed (parse_address forms addr_v)
    code ← of_node (code_of machine backend node.db addr)
    ok (string (hex_prefixed code))

  unfoldable pub get_balance : Value → KanariNode machine → Reply Value
  get_balance params node = do
    addr_v ← want "want [address, block]" (get_elem? (arguments params) 0)
    addr ← of_parsed (parse_address forms addr_v)
    balance ← of_node (balance_of machine node.db addr)
    ok (string (quantity_u256 balance))

  unfoldable pub get_transaction_count : Value → KanariNode machine → Reply Value
  get_transaction_count params node = do
    addr_v ← want "want [address, block]" (get_elem? (arguments params) 0)
    addr ← of_parsed (parse_address forms addr_v)
    nonce ← of_node (nonce_of machine node.db addr)
    ok (string (quantity_u64 nonce))

  unfoldable pub get_storage_at : Value → KanariNode machine → Reply Value
  get_storage_at params node = do
    addr_v ← want "want [address, slot, block?]" (get_elem? (arguments params) 0)
    slot_v ← want "want [address, slot, block?]" (get_elem? (arguments params) 1)
    place ← both (parse_address forms addr_v) (parse_u256 forms slot_v)
    value ← of_node (storage_of machine backend node.db place.0 place.1)
    ok (string (bytes32_hex value))

  abbrev proof_view : SmtProof → Value
  proof_view p = object (
      field (codes "root") (string (forms.b256_text p.root)) (
        field (codes "key") (string (forms.b256_text p.key)) (
          field (codes "value") (text_or_null (map_text hex_prefixed p.value)) (
            field (codes "exists") (boolean p.exists) (
              field (codes "leaf") (string (forms.b256_text p.leaf)) (
                field (codes "proof") (array (texts (all_texts forms.b256_text p.siblings)))
                  end))))))

  unfoldable pub get_smt_proof : Value → KanariNode machine → Reply Value
  get_smt_proof params node = do
    addr_v ← want "want [address, slot?]" (get_elem? (arguments params) 0)
    address ← of_parsed (parse_address forms addr_v)
    slot ← of_parsed (parse_some (parse_u256 forms) (present (get_elem? (arguments params) 1)))
    p ← of_node (smt_proof machine backend address slot node)
    ok (proof_view p)
