-- ===== src/Storage/Keys.antt =====
-- `mod keys` of `crates/storage/src/store.rs`.
pub mod Order
pub mod Distinct
use Prim.Native.Char.{code}
use Prim.Native.String.{String}
use kanari_evm.Prelude.{ℕ, [], ◌∷◌, Bytes}
use kanari_evm.Types.Text.{padded_hex}
use kanari_evm.Types.Hex.{hex_encode}

-- The bytes of an ASCII literal.
abbrev pub codes : String → Bytes
codes String.[] = []
codes (String.◌∷◌ c s) = code c ∷ codes s

abbrev pub meta_chain_id : Bytes
meta_chain_id = codes "m:chain_id"

abbrev pub meta_genesis : Bytes
meta_genesis = codes "m:genesis"

abbrev pub meta_height : Bytes
meta_height = codes "m:height"

abbrev pub meta_faucet_key : Bytes
meta_faucet_key = codes "m:faucet_key"

unfoldable pub block_key : ℕ → Bytes
block_key number = b'b' ∷ b':' ∷ padded_hex 16 number

unfoldable pub receipt_key : Bytes → Bytes
receipt_key hash = b'r' ∷ b':' ∷ hex_encode hash

unfoldable pub tx_index_key : Bytes → Bytes
tx_index_key hash = b't' ∷ b':' ∷ hex_encode hash
