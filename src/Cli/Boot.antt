-- ===== src/Cli/Boot.antt =====
-- `run`, `run_fork` and `run_validator` of `crates/kanari-node/src/main.rs`, up to the node that is
-- served. Whether the state file exists, what it holds and a new key of the faucet are arguments,
-- and the directories can be created.
pub mod Exit
pub mod Key
pub mod Ready
use Prim.Native.String.{String}
use kanari_evm.Prelude.{
  ℕ, Bool, true, false, not, Option, none, some, List, [], ◌∷◌, ◌++◌, Bytes, Result, ok, err, ok_or,
  map_err, ◌>>=◌, ◌>>◌,
}
use kanari_evm.Types.Word.{u128_max, saturating_mul}
use kanari_evm.Types.Text.{Text}
use kanari_evm.Json.{Value}
use kanari_evm.Storage.Keys.{codes}
use kanari_evm.Storage.ChainStore.{stored_chain_id}
use kanari_evm.Execution.Errors.{NodeResult, from_store}
use kanari_evm.Execution.Machine.{Machine}
use kanari_evm.Execution.ChainSpec.{
  KanariChainSpec, with_alloc, devnet, kanari_evm_dev_chain_id, dev_funded_account,
  dev_funded_balance,
}
use kanari_evm.Execution.Node.{KanariNode, wei_in_eth}
use kanari_evm.Execution.Open.{LegacyFiles, new_node, open_node}
use kanari_evm.Execution.Faucet.{Wallet}
use kanari_evm.Execution.Faucet.Keys.{install_faucet_key, reload_faucet_key, faucet_address}
use kanari_evm.Fork.{SlotRef, ForkedGenesis, fetch_fork_genesis}
use kanari_evm.Rpc.Forms.{Forms}
use kanari_evm.Cli.{
  Fatal, message, bad_flag, fork_failed, node_failed, NetworkMode, network_text, LogLevel, info,
  level_text, Logging, init_logging, exit_with,
}
use kanari_evm.Cli.Spec.{
  ForkGenesisExtra, ForkOptions, StartOptions, base_spec, chain_or, check_network, faucet_alloc,
  fork_faucet_eth, start_alloc, start_spec, with_imports,
}

-- A fork's options of the start: its faucet is funded twice, by name and among the imports.
abbrev pub fork_start : ForkOptions → Bytes → Bytes → ForkedGenesis → StartOptions
fork_start opts faucet_addr faucet_secret forked = record {
  network = NetworkMode.devnet;
  faucets = (faucet_addr, fork_faucet_eth) ∷ [];
  faucet_key = some faucet_secret;
  log_level = info;
  chain_id_override = some forked.chain_id;
  genesis_extra = record { alloc = forked.alloc; code = forked.code; storage = forked.storage };
}

abbrev pub mint : Bool → Bytes → ForkedGenesis → ForkedGenesis
mint false faucet_addr forked = forked
mint true faucet_addr forked = record forked {
  alloc = forked.alloc ++ (faucet_addr, saturating_mul u128_max fork_faucet_eth wei_in_eth) ∷ [];
}

abbrev nothing_imported : ℕ → ForkedGenesis
nothing_imported chain_id = record { chain_id = chain_id; alloc = []; code = []; storage = [] }

module _ (m : Machine) (w : Wallet) (logging : Logging) where
  open m use {engine}
  open w use {Signer, from_bytes, address}
  open logging use {Global}

  abbrev pub signer_of : String → Bytes → Result Fatal Signer
  signer_of why secret = exit_with why (from_bytes secret)

  -- The key that the node is given: the flag's, or a new one on fresh state.
  abbrev pub faucet_secret : Option Bytes → Bool → Bytes → Result Fatal (Option Bytes)
  faucet_secret (some secret) fresh generated =
      signer_of "invalid --faucet-key secret" secret >>= λ signer. ok (some secret)
  faucet_secret none true generated = ok (some generated)
  faucet_secret none false generated = ok none

  -- A step that ends the process where it fails.
  abbrev pub or_exit :
      {A : Type 0} → String → NodeResult A × KanariNode m → Result Fatal (KanariNode m)
  or_exit why (ok a, node) = ok node
  or_exit why (err e, node) = err (node_failed why e)

  -- An address of a loaded key that cannot be derived is a panic.
  abbrev pub derivable : NodeResult (Option Bytes) → KanariNode m → Result Fatal (KanariNode m)
  derivable (ok address) node = ok node
  derivable (err e) node = err (node_failed "address derivable" e)

  abbrev pub after_reload : NodeResult Bool × KanariNode m → Result Fatal (KanariNode m)
  after_reload (err e, node) = err (node_failed "failed to load faucet key" e)
  after_reload (ok false, node) = ok node
  after_reload (ok true, node) = derivable (faucet_address m w node) node

  -- The given key is stored, or else the stored one is loaded.
  abbrev pub take_key : Option Bytes → KanariNode m → Result Fatal (KanariNode m)
  take_key (some secret) node =
      or_exit "failed to store faucet key" (install_faucet_key m secret node)
  take_key none node = after_reload (reload_faucet_key m node)

  -- `run`, to the node that is served over the database.
  unfoldable pub run :
      ℕ
      → Bool
      → Option LegacyFiles
      → Bytes
      → Global
      → StartOptions
      → engine.Db
      → Result Fatal (KanariNode m)
  unfolding init_logging start_spec
  run genesis_spec exists files generated global opts store = do
    init_logging logging (level_text opts.log_level) global
    check_network opts.network
    secret ← faucet_secret opts.faucet_key (not exists) generated
    node ←
        or_exit "failed to open node"
          (open_node m files (new_node m (start_spec genesis_spec (not exists) opts) store))
    take_key secret node

  abbrev check_shared : Option Bytes → KanariNode m → Result Fatal (KanariNode m)
  check_shared none node = ok node
  check_shared (some secret) node = do
    after ← take_key (some secret) node
    signer_of "invalid --faucet-key secret" secret
    ok after

  -- `run_validator`, from the opening of the node to the one that joins the mesh: it creates no key.
  unfoldable pub run_validator :
      ℕ → Option LegacyFiles → Option Bytes → engine.Db → Result Fatal (KanariNode m)
  run_validator genesis_spec files faucet_key store = do
    node ←
        or_exit "failed to open node" (open_node m files (new_node m (devnet genesis_spec) store))
    check_shared faucet_key node

  abbrev stored_chain : engine.Db → Result Fatal ℕ
  stored_chain store = elim (from_store (stored_chain_id engine store)) [
    | err e ↦ err (node_failed "failed to read store" e)
    | ok found ↦ ok_or (message "chain database missing chain id") found
  ]

  abbrev pub key_or_new : Option Bytes → Bytes → Result Fatal Bytes
  key_or_new none generated = ok generated
  key_or_new (some secret) generated =
      signer_of "invalid --faucet-key secret" secret >>= λ signer. ok secret

  module _ (forms : Forms) (post : Text → ℕ → Value → Result String Value) where
    -- A fresh fork is fetched; another's chain id is read from the database.
    abbrev pub fork_state : Bool → ForkOptions → engine.Db → Result Fatal ForkedGenesis
    fork_state false opts store = stored_chain store >>= λ chain_id. ok (nothing_imported chain_id)
    fork_state true opts store = do
      url ← ok_or (message "fresh fork needs --rpc-url (reopen skips fetching)") opts.rpc_url
      map_err fork_failed (fetch_fork_genesis forms (post url) opts.block opts.accounts opts.slots)

    unfoldable pub run_fork :
        ℕ
        → Bool
        → Option LegacyFiles
        → Bytes
        → Global
        → ForkOptions
        → engine.Db
        → Result Fatal (KanariNode m)
    unfolding init_logging run
    run_fork genesis_spec exists files generated global opts store = do
      global' ← init_logging logging (level_text opts.log_level) global
      forked ← fork_state (not exists) opts store
      secret ← key_or_new opts.faucet_key generated
      signer ← signer_of "bad faucet key" secret
      let minted = mint (not exists) (address signer) forked
      run genesis_spec exists files generated global'
          (fork_start opts (address signer) secret minted) store
