-- ===== src/Execution/Reads.antt =====
-- The reads of `crates/move-execution/src/state.rs` beside the account: bytecode, storage slots and
-- proofs of the tree. The database's cache of bytecode and the tree's proofs are parameters.
use Prim.Native.String.{String}
use kanari_evm.Prelude.{
  ℕ, Bool, Option, none, some, List, [], Bytes, bytes_eq, Result, ok, ◌>>=◌, if◌then◌else◌,
}
use kanari_evm.Execution.Errors.{NodeResult, storage, or_error}
use kanari_evm.Execution.Machine.{Machine, AccountInfo}
use kanari_evm.Execution.Commitment.{smt_account_key, smt_storage_key}
use kanari_evm.Execution.Node.{KanariNode}

-- `cache.contracts.get`, the original bytes of what it gives; `storage`; `get` and `proof` of the
-- tree: whether the key is in it, the leaf and the siblings.
pub record Backend (m : Machine) : Type 0 where
  pub contracts : m.State → Bytes → Option Bytes
  pub slot_value : m.State → Bytes → ℕ → Result String ℕ
  pub tree_get : m.engine.Db → Bytes → Result String (Option Bytes)
  pub tree_proof : m.engine.Db → Bytes → Result String (Bool × Bytes × List Bytes)

pub record SmtProof : Type 0 where
  pub root : Bytes
  pub key : Bytes
  pub value : Option Bytes
  pub exists : Bool
  pub leaf : Bytes
  pub siblings : List Bytes

abbrev pub bytes_or_empty : Option Bytes → Bytes
bytes_or_empty none = []
bytes_or_empty (some bytes) = bytes

module _ (m : Machine) (b : Backend m) where
  open b use {contracts, slot_value, tree_get, tree_proof}

  -- The code that an account carries, and else the cached code of its hash.
  abbrev pub account_code : m.State → AccountInfo → Option Bytes → Bytes
  account_code db info (some code) = code
  account_code db info none = bytes_or_empty (contracts db info.code_hash)

  abbrev pub code_or_empty : m.State → Option AccountInfo → Bytes
  code_or_empty db none = []
  code_or_empty db (some info) =
      if bytes_eq info.code_hash m.keccak_empty then [] else account_code db info info.code

  unfoldable pub code_of : m.State → Bytes → NodeResult Bytes
  code_of db address = do info ← or_error storage (m.basic db address); ok (code_or_empty db info)

  unfoldable pub storage_of : m.State → Bytes → ℕ → NodeResult ℕ
  storage_of db address slot = or_error storage (slot_value db address slot)

  unfoldable pub state_root : KanariNode m → NodeResult Bytes
  state_root node = or_error storage (m.root_hash node.store)

  abbrev pub proof_key : Bytes → Option ℕ → Bytes
  proof_key address none = smt_account_key m address
  proof_key address (some slot) = smt_storage_key m address slot

  unfoldable pub smt_proof : Bytes → Option ℕ → KanariNode m → NodeResult SmtProof
  unfolding state_root smt_account_key smt_storage_key
  smt_proof address slot node = do
    let key = proof_key address slot
    value ← or_error storage (tree_get node.store key)
    found ← or_error storage (tree_proof node.store key)
    root ← state_root node
    ok (record {
      root = root;
      key = key;
      value = value;
      exists = found.0;
      leaf = found.1;
      siblings = found.2;
    })
