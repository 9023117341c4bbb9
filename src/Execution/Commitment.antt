-- ===== src/Execution/Commitment.antt =====
-- The state commitment of `crates/move-execution/src/state.rs`: the entries of the tree, and the
-- point reads of the state.
use kanari_evm.Prelude.{
  ℕ, Bool, ◌&&◌, Option, none, some, List, [], ◌∷◌, ◌++◌, Bytes, bytes_eq, to_be_bytes, ok, ◌>>=◌,
  ◌==◌, if◌then◌else◌,
}
use kanari_evm.Storage.Keys.{codes}
use kanari_evm.Execution.Errors.{NodeResult, storage, or_error}
use kanari_evm.Execution.Machine.{Machine, AccountInfo, CachedAccount}

abbrev pub smt_domain : Bytes
smt_domain = codes "kanari-evm-smt-v1"

-- `balance_be32 || nonce_be8 || code_hash`
unfoldable pub encode_account : AccountInfo → Bytes
encode_account info = to_be_bytes 32 info.balance ++ (to_be_bytes 8 info.nonce ++ info.code_hash)

abbrev balance_or_zero : Option AccountInfo → ℕ
balance_or_zero none = 0
balance_or_zero (some info) = info.balance

abbrev nonce_or_zero : Option AccountInfo → ℕ
nonce_or_zero none = 0
nonce_or_zero (some info) = info.nonce

module _ (m : Machine) where
  open m use {State, basic, blake3, keccak_empty, cached_accounts}

  unfoldable pub balance_of : State → Bytes → NodeResult ℕ
  balance_of db address = do info ← or_error storage (basic db address); ok (balance_or_zero info)

  unfoldable pub nonce_of : State → Bytes → NodeResult ℕ
  nonce_of db address = do info ← or_error storage (basic db address); ok (nonce_or_zero info)

  unfoldable pub smt_account_key : Bytes → Bytes
  smt_account_key address = blake3 (smt_domain ++ 0 ∷ address)

  unfoldable pub smt_storage_key : Bytes → ℕ → Bytes
  smt_storage_key address slot = blake3 (smt_domain ++ 1 ∷ (address ++ to_be_bytes 32 slot))

  unfoldable pub slot_entries : Bytes → List (ℕ × ℕ) → List (Bytes × Bytes)
  slot_entries address [] = []
  slot_entries address ((slot, value) ∷ slots) =
      (smt_storage_key address slot, to_be_bytes 32 value) ∷ slot_entries address slots

  abbrev is_empty_account : AccountInfo → Bool
  is_empty_account info =
      info.balance == 0 && info.nonce == 0 && bytes_eq info.code_hash keccak_empty

  -- The loop of `rebuild_smt`: accounts with nothing in them are skipped.
  unfoldable pub smt_entries : List CachedAccount → List (Bytes × Bytes)
  unfolding slot_entries
  smt_entries [] = []
  smt_entries (account ∷ accounts) =
      let rest : List (Bytes × Bytes) = smt_entries accounts in
      if is_empty_account account.info
      then rest
      else (smt_account_key account.address, encode_account account.info)
        ∷ (slot_entries account.address account.slots ++ rest)
