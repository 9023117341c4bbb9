-- ===== src/Rpc/Forms.antt =====
-- The text forms of addresses, hashes, byte strings and 256-bit words, which are alloy's.
use kanari_evm.Prelude.{ℕ, Option, Bytes}
use kanari_evm.Types.Text.{Text}

pub record Forms : Type 0 where
  -- `parse::<Address>`, `parse::<B256>`, `parse::<Bytes>`
  pub parse_address : Text → Option Bytes
  pub parse_b256 : Text → Option Bytes
  pub parse_bytes : Text → Option Bytes
  -- `to_string` of an address, with its checksum, and of a hash.
  pub address_text : Bytes → Text
  pub b256_text : Bytes → Text
  -- `U256::from_str_radix(_, 16)`
  pub u256_from_str_radix16 : Text → Option ℕ
