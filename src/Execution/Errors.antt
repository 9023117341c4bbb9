-- ===== src/Execution/Errors.antt =====
-- `NodeError` of `crates/move-execution/src/node.rs`. A message built by `format!` is a constructor
-- that carries what the text shows.
use Prim.Native.String.{String}
use kanari_evm.Prelude.{ℕ, Bytes, Result, ok, err}
use kanari_evm.Storage.ChainStore.{StoreError}

pub data Message : Type 0 where
  text : String → Message
  store_error : StoreError → Message
  replay_diverged state_root_mismatch missing_block : ℕ → Message
  chain_id_mismatch legacy_chain_id_mismatch : ℕ → ℕ → Message
  unknown_transaction missing_raw_tx : Bytes → Message

pub data NodeError : Type 0 where
  invalid_transaction bad_signature execution storage : Message → NodeError
  unsupported_tx_type unsupported_blob_transactions no_faucet_configured : NodeError
  wrong_chain_id : ℕ → ℕ → NodeError

abbrev pub NodeResult : Type 0 → Type 0
NodeResult = Result NodeError

-- `impl From<StoreError> for NodeError`
abbrev pub from_store {ℓ} : {A : Type ℓ} → Result StoreError A → Result NodeError A
from_store (ok a) = ok a
from_store (err e) = err (storage (store_error e))

-- `map_err(|e| NodeError::Storage(e.to_string()))` and its kin.
abbrev pub or_error {ℓ} :
    {A : Type ℓ} → (Message → NodeError) → Result String A → Result NodeError A
or_error wrap (ok a) = ok a
or_error wrap (err e) = err (wrap (text e))
