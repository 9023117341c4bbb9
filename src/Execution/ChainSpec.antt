-- ===== src/Execution/ChainSpec.antt =====
-- `crates/move-execution/src/chainspec.rs`: the chain's parameters and its genesis state.
use kanari_evm.Prelude.{
  ℕ, max, Bool, ◌||◌, Option, none, some, List, [], ◌∷◌, Bytes, bytes_eq, to_be_bytes,
  if◌then◌else◌, is_some, is_empty, find,
}
use kanari_evm.Types.Gas.{genesis_base_fee_wei}
use kanari_evm.Execution.Machine.{Machine, AccountInfo}

abbrev pub kanari_evm_dev_chain_id : ℕ
kanari_evm_dev_chain_id = 19088

-- 0xc88c539aa6f67daedaea7aff75fe1f8848d6cec2
abbrev pub dev_funded_account : Bytes
dev_funded_account = to_be_bytes 20 0xc88c539aa6f67daedaea7aff75fe1f8848d6cec2

abbrev pub dev_funded_balance : ℕ
dev_funded_balance = 11_000_000_000_000_000_000_000_000

abbrev pub kanari_evm_max_supply_eth : ℕ
kanari_evm_max_supply_eth = 11_000_000

-- The hardfork is an opaque number.
pub record KanariChainSpec : Type 0 where
  pub chain_id : ℕ
  pub spec_id : ℕ
  pub genesis_alloc : List (Bytes × ℕ)
  pub genesis_code : List (Bytes × Bytes)
  pub genesis_storage : List (Bytes × ℕ × ℕ)
  pub base_fee_wei : ℕ

unfoldable pub with_alloc : ℕ → ℕ → List (Bytes × ℕ) → KanariChainSpec
with_alloc chain_id spec_id genesis_alloc = record {
  chain_id = chain_id;
  spec_id = spec_id;
  genesis_alloc = genesis_alloc;
  genesis_code = [];
  genesis_storage = [];
  base_fee_wei = genesis_base_fee_wei;
}

-- `devnet`, at the hardfork that the caller names.
unfoldable pub devnet : ℕ → KanariChainSpec
unfolding with_alloc
devnet genesis_spec =
    with_alloc kanari_evm_dev_chain_id genesis_spec ((dev_funded_account, dev_funded_balance) ∷ [])

unfoldable pub with_base_fee : ℕ → KanariChainSpec → KanariChainSpec
with_base_fee base_fee_wei spec = record spec { base_fee_wei = max base_fee_wei 1 }

module _ (m : Machine) where
  open m use {State, insert_account_info, insert_account_storage, hash_slow, keccak_empty}

  -- The account of an allocation, with the code that the specification lists first for it, if any.
  unfoldable pub genesis_account : ℕ → Option (Bytes × Bytes) → AccountInfo
  genesis_account balance none = record {
    balance = balance;
    nonce = 0;
    code_hash = keccak_empty;
    code = none;
  }
  genesis_account balance (some (address, code)) =
      if is_empty code
      then record { balance = balance; nonce = 0; code_hash = keccak_empty; code = none }
      else record { balance = balance; nonce = 0; code_hash = hash_slow code; code = some code }

  unfoldable pub apply_alloc : List (Bytes × Bytes) → List (Bytes × ℕ) → State → State
  unfolding genesis_account
  apply_alloc codes [] db = db
  apply_alloc codes ((address, balance) ∷ alloc) db = apply_alloc codes alloc (
      insert_account_info db address (
        genesis_account balance (find (λ (entry : Bytes × Bytes). bytes_eq entry.0 address) codes)))

  abbrev allocated : List (Bytes × ℕ) → Bytes → Bool
  allocated alloc address = is_some (find (λ (entry : Bytes × ℕ). bytes_eq entry.0 address) alloc)

  unfoldable pub apply_code : List (Bytes × ℕ) → List (Bytes × Bytes) → State → State
  apply_code alloc [] db = db
  apply_code alloc ((address, code) ∷ codes) db = apply_code alloc codes (
      if is_empty code || allocated alloc address
      then db
      else insert_account_info db address
          (record { balance = 0; nonce = 0; code_hash = hash_slow code; code = some code }))

  unfoldable pub apply_storage : List (Bytes × ℕ × ℕ) → State → State
  apply_storage [] db = db
  apply_storage ((address, slot, value) ∷ slots) db =
      apply_storage slots (insert_account_storage db address slot value)

  unfoldable pub apply_genesis : KanariChainSpec → State → State
  unfolding apply_alloc apply_code apply_storage
  apply_genesis spec db = apply_storage spec.genesis_storage (
      apply_code spec.genesis_alloc spec.genesis_code
        (apply_alloc spec.genesis_code spec.genesis_alloc db))
