-- ===== src/Execution/Machine.antt =====
-- What the node uses of other libraries: revm's database and interpreter, alloy's decoder, Keccak,
-- and the sparse Merkle tree of the Kanari SDK, which shares the chain's database.
use Prim.Native.String.{String}
use kanari_evm.Prelude.{ℕ, ◌≡◌, Option, List, [], ◌∷◌, Bytes, Result, ok}
use kanari_evm.Storage.Engine.{Engine}
use kanari_evm.Storage.Records.{StoredLog}
use kanari_evm.Execution.Tx.{TxEnvelope, TxEnv}

pub record AccountInfo : Type 0 where
  pub balance : ℕ
  pub nonce : ℕ
  pub code_hash : Bytes
  pub code : Option Bytes

pub data Output : Type 0 where
  call : Bytes → Output
  create : Bytes → Option Bytes → Output

-- revm's `ExecutionResult`, with the gas that the transaction used.
pub data ExecutionResult : Type 0 where
  success : ℕ → Output → List StoredLog → ExecutionResult
  revert : ℕ → Bytes → ExecutionResult
  halt : ℕ → ExecutionResult

-- `KanariEvmParams` of `crates/move-execution/src/precompiles.rs`.
pub record KanariEvmParams : Type 0 where
  pub chain_id : ℕ
  pub spec : ℕ
  pub number : ℕ
  pub timestamp : ℕ
  pub basefee : ℕ
  pub gas_limit : ℕ
  pub beneficiary : Bytes

-- An entry of the account cache: the account and its storage slots.
pub record CachedAccount : Type 0 where
  pub address : Bytes
  pub info : AccountInfo
  pub slots : List (ℕ × ℕ)

-- A key of the chain's data, and none of the tree's, which begin with `n:` and `d:`.
abbrev pub IsChainKey : Bytes → Type 0
IsChainKey [] = ⊥
IsChainKey (b ∷ key) = (b ≡ b'n' → ⊥) × (b ≡ b'd' → ⊥)

pub record Machine : Type 1 where
  pub engine : Engine
  pub keccak256 : Bytes → Bytes
  pub keccak_empty : Bytes
  pub blake3 : Bytes → Bytes
  -- The hash of bytecode.
  pub hash_slow : Bytes → Bytes
  pub decode_2718_exact : Bytes → Result String TxEnvelope
  pub recover_signer : TxEnvelope → Result String Bytes
  -- `InMemoryDB`: the state in memory. What `basic` only caches is not told apart.
  pub State : Type 0
  pub empty_state : State
  pub basic : State → Bytes → Result String (Option AccountInfo)
  pub insert_account_info : State → Bytes → AccountInfo → State
  pub insert_account_storage : State → Bytes → ℕ → ℕ → State
  pub cached_accounts : State → List CachedAccount
  -- `transact` and `commit`: the result and the state after it.
  pub transact : State → KanariEvmParams → TxEnv → Result String (ExecutionResult × State)
  -- The tree: a rebuild writes only its own keys, and the root is that of the entries.
  pub rebuild : engine.Db → List (Bytes × Bytes) → Result String engine.Db
  pub root_hash : engine.Db → Result String Bytes
  pub get-rebuild :
      (db db' : engine.Db) (entries : List (Bytes × Bytes)) (key : Bytes)
      → rebuild db entries ≡ ok db'
      → IsChainKey key
      → engine.get db' key ≡ engine.get db key
