-- ===== src/Cli/Commands.antt =====
-- The commands of `main` in `crates/kanari-node/src/main.rs` that serve a node, after clap has parsed
-- their flags. The server's address and the paths are left out.
pub mod Forked
mod Tests
use Prim.Native.String.{String}
use kanari_evm.Prelude.{
  ℕ, Bool, Option, none, some, List, [], ◌∷◌, Bytes, Result, ok, err, ok_or, map_err, ◌>>=◌, ◌>>◌,
}
use kanari_evm.Types.Text.{Text, trim}
use kanari_evm.Json.{Value}
use kanari_evm.Execution.Machine.{Machine}
use kanari_evm.Execution.Node.{KanariNode}
use kanari_evm.Execution.Open.{LegacyFiles}
use kanari_evm.Execution.Faucet.{Wallet}
use kanari_evm.Rpc.Forms.{Forms}
use kanari_evm.Fork.{SlotRef, parse_slot}
use kanari_evm.Cli.{
  Fatal, message, bad_flag, fork_failed, NetworkMode, LogLevel, Logging, init_logging, exit_with,
  ValidatorCli, ValidatorFileConfig, resolve_validator_config, parse_secret, parse_faucet_args,
}
use kanari_evm.Cli.Boot.{run, run_fork, run_validator}
use kanari_evm.Cli.Spec.{ForkGenesisExtra}

-- What the machine holds where a command is started: whether the state file exists and what it holds
-- of the old format, a new key of the faucet, and the hardfork of the genesis.
pub record Surroundings : Type 0 where
  pub genesis_spec : ℕ
  pub exists : Bool
  pub files : Option LegacyFiles
  pub generated : Bytes

pub record StartArgs : Type 0 where
  pub network : NetworkMode
  pub faucet : List (List Text)
  pub faucet_key : Option Text
  pub log_level : LogLevel

pub record ForkArgs : Type 0 where
  pub rpc_url : Option Text
  pub block : Text
  pub account : List Text
  pub slot : List Text
  pub faucet_key : Option Text
  pub log_level : LogLevel

abbrev pub no_imports : ForkGenesisExtra
no_imports = record { alloc = []; code = []; storage = [] }

abbrev pub parse_all : {A B : Type 0} → (A → Result Fatal B) → List A → Result Fatal (List B)
parse_all parse [] = ok []
parse_all parse (a ∷ args) = do b ← parse a; rest ← parse_all parse args; ok (b ∷ rest)

module _ (m : Machine) (w : Wallet) (logging : Logging) (forms : Forms) where
  open m use {engine}
  open logging use {Global}

  abbrev pub parse_key : Option Text → Result Fatal (Option Bytes)
  parse_key none = ok none
  parse_key (some hex) = parse_secret forms hex >>= λ secret. ok (some secret)

  unfoldable pub start_command :
      Surroundings → Global → StartArgs → engine.Db → Result Fatal (KanariNode m)
  unfolding run parse_faucet_args
  start_command at global args store = do
    faucets ← parse_faucet_args forms args.faucet
    secret ← parse_key args.faucet_key
    run m w logging at.genesis_spec at.exists at.files at.generated global
        (record {
          network = args.network;
          faucets = faucets;
          faucet_key = secret;
          log_level = args.log_level;
          chain_id_override = none;
          genesis_extra = no_imports;
        })
        store

  unfoldable pub local_command :
      Surroundings → Global → LogLevel → engine.Db → Result Fatal (KanariNode m)
  unfolding run
  local_command at global log_level store =
      run m w logging at.genesis_spec at.exists at.files at.generated global
        (record {
          network = NetworkMode.devnet;
          faucets = [];
          faucet_key = none;
          log_level = log_level;
          chain_id_override = none;
          genesis_extra = no_imports;
        })
        store

  abbrev pub parse_account : Text → Result Fatal Bytes
  parse_account a = ok_or (bad_flag "invalid --account address" a) (forms.parse_address (trim a))

  abbrev pub parse_slot_flag : Text → Result Fatal SlotRef
  parse_slot_flag s = map_err fork_failed (parse_slot forms s)

  -- The remote node answers the requests at its URL.
  unfoldable pub fork_command :
      (Text → ℕ → Value → Result String Value)
      → Surroundings
      → Global
      → ForkArgs
      → engine.Db
      → Result Fatal (KanariNode m)
  unfolding run_fork
  fork_command post at global args store = do
    accounts ← parse_all parse_account args.account
    slots ← parse_all parse_slot_flag args.slot
    secret ← parse_key args.faucet_key
    run_fork m w logging forms post at.genesis_spec at.exists at.files at.generated global
        (record {
          rpc_url = args.rpc_url;
          block = args.block;
          accounts = accounts;
          slots = slots;
          faucet_key = secret;
          log_level = args.log_level;
        })
        store

  unfoldable pub validator_command :
      Surroundings
      → Global
      → ValidatorCli
      → ValidatorFileConfig
      → engine.Db
      → Result Fatal (KanariNode m)
  unfolding resolve_validator_config init_logging run_validator
  validator_command at global cli file store = do
    resolved ← exit_with "missing setting" (resolve_validator_config cli file)
    init_logging logging resolved.log_level global
    secret ← parse_key resolved.faucet_key
    run_validator m w logging at.genesis_spec at.files secret store
