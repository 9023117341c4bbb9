-- ===== src/Storage/Records.antt =====
-- The stored records of `crates/storage/src/store.rs`. Hashes, addresses and raw transactions are
-- byte strings; numbers of 64 and 256 bits are natural numbers.
use kanari_evm.Prelude.{ℕ, Bool, Option, List, Bytes}

pub record SealedBlock : Type 0 where
  pub number : ℕ
  pub timestamp : ℕ
  pub hash : Bytes
  pub parent_hash : Bytes
  pub txs : List Bytes
  pub state_root : Option Bytes
  pub base_fee : ℕ

pub record StoredLog : Type 0 where
  pub address : Bytes
  pub topics : List Bytes
  pub content : Bytes

pub record StoredReceipt : Type 0 where
  pub tx_hash : Bytes
  pub block_number : ℕ
  pub block_hash : Bytes
  pub gas_used : ℕ
  pub success : Bool
  pub sender : Bytes
  pub to : Option Bytes
  pub contract_address : Option Bytes
  pub logs : List StoredLog

-- The base fee of a block that was written before the field existed.
abbrev pub default_base_fee_wei : ℕ
default_base_fee_wei = 1_000_000_000
