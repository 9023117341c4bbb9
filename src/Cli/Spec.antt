-- ===== src/Cli/Spec.antt =====
-- The options of a start and the genesis specification of `run` in `crates/kanari-node/src/main.rs`.
use kanari_evm.Prelude.{
  ℕ, Bool, true, false, Option, none, some, List, [], ◌∷◌, ◌++◌, Bytes, Result, ok, err,
}
use kanari_evm.Types.Word.{u128_max, saturating_mul}
use kanari_evm.Types.Text.{Text}
use kanari_evm.Storage.Keys.{codes}
use kanari_evm.Execution.ChainSpec.{
  KanariChainSpec, with_alloc, devnet, kanari_evm_dev_chain_id, dev_funded_account,
  dev_funded_balance,
}
use kanari_evm.Execution.Node.{wei_in_eth}
use kanari_evm.Fork.{SlotRef}
use kanari_evm.Cli.{Fatal, bad_flag, NetworkMode, network_text, LogLevel}

pub record ForkGenesisExtra : Type 0 where
  pub alloc : List (Bytes × ℕ)
  pub code : List (Bytes × Bytes)
  pub storage : List (Bytes × ℕ × ℕ)

-- The address and the paths of the server are left out.
pub record StartOptions : Type 0 where
  pub network : NetworkMode
  pub faucets : List (Bytes × ℕ)
  pub faucet_key : Option Bytes
  pub log_level : LogLevel
  pub chain_id_override : Option ℕ
  pub genesis_extra : ForkGenesisExtra

pub record ForkOptions : Type 0 where
  pub rpc_url : Option Text
  pub block : Text
  pub accounts : List Bytes
  pub slots : List SlotRef
  pub faucet_key : Option Bytes
  pub log_level : LogLevel

abbrev pub fork_faucet_eth : ℕ
fork_faucet_eth = 1_000_000

abbrev pub check_network : NetworkMode → Result Fatal (Unit {0})
check_network NetworkMode.devnet = ok tt
check_network NetworkMode.testnet =
    err (bad_flag "--network" (codes (network_text NetworkMode.testnet)))
check_network NetworkMode.mainnet =
    err (bad_flag "--network" (codes (network_text NetworkMode.mainnet)))

abbrev pub faucet_alloc : List (Bytes × ℕ) → List (Bytes × ℕ)
faucet_alloc [] = []
faucet_alloc ((addr, eth) ∷ faucets) =
    (addr, saturating_mul u128_max eth wei_in_eth) ∷ faucet_alloc faucets

-- `--faucet` only applies to fresh state.
abbrev pub start_alloc : Bool → List (Bytes × ℕ) → List (Bytes × ℕ)
start_alloc true faucets = (dev_funded_account, dev_funded_balance) ∷ faucet_alloc faucets
start_alloc false faucets = (dev_funded_account, dev_funded_balance) ∷ []

abbrev pub base_spec : ℕ → Bool → List (Bytes × ℕ) → KanariChainSpec
base_spec genesis_spec fresh [] = devnet genesis_spec
base_spec genesis_spec fresh (f ∷ faucets) =
    with_alloc kanari_evm_dev_chain_id genesis_spec (start_alloc fresh (f ∷ faucets))

abbrev pub chain_or : Option ℕ → ℕ → ℕ
chain_or none own = own
chain_or (some chain_id) own = chain_id

abbrev pub with_imports : Bool → StartOptions → KanariChainSpec → KanariChainSpec
with_imports false opts spec = spec
with_imports true opts spec = record spec {
  chain_id = chain_or opts.chain_id_override spec.chain_id;
  genesis_alloc = spec.genesis_alloc ++ opts.genesis_extra.alloc;
  genesis_code = opts.genesis_extra.code;
  genesis_storage = opts.genesis_extra.storage;
}

-- The specification that the node is opened with, at the hardfork of the genesis.
unfoldable pub start_spec : ℕ → Bool → StartOptions → KanariChainSpec
start_spec genesis_spec fresh opts =
    with_imports fresh opts (base_spec genesis_spec fresh opts.faucets)
