-- ===== src/Cli.antt =====
-- The settings of `crates/kanari-node/src/main.rs`: the merge of a validator's flags and its file, and
-- the parsing of repeated flags. Leaving the process is an error.
pub mod Spec
pub mod Boot
pub mod Commands
pub mod Reset
use Prim.Native.String.{String}
use kanari_evm.Prelude.{
  ℕ, ◌≡◌, ◌+◌, ◌-◌, ◌%◌, ◌^◌, Bool, true, false, ◌||◌, Option, none, some, List, [], ◌∷◌, ◌++◌,
  Bytes, bytes_eq, Result, ok, err, ok_or, ◌>>=◌, map, length, drop, ltb, if◌then◌else◌,
}
use kanari_evm.Types.Word.{u128_max}
use kanari_evm.Types.Text.{Text, trim, parse_decimal}
use kanari_evm.Storage.Keys.{codes}
use kanari_evm.Execution.Errors.{NodeError}
use kanari_evm.Fork.{ForkError}
use kanari_evm.Rpc.Forms.{Forms}

-- What the process ends with.
pub data Fatal : Type 0 where
  message : String → Fatal
  bad_flag : String → Text → Fatal
  fork_failed : ForkError → Fatal
  node_failed : String → NodeError → Fatal

pub data NetworkMode : Type 0 where
  devnet testnet mainnet : NetworkMode

unfoldable pub network_text : NetworkMode → String
network_text devnet = "devnet"
network_text testnet = "testnet"
network_text mainnet = "mainnet"

pub data LogLevel : Type 0 where
  trace debug info warn error : LogLevel

unfoldable pub level_text : LogLevel → Text
level_text trace = codes "trace"
level_text debug = codes "debug"
level_text info = codes "info"
level_text warn = codes "warn"
level_text error = codes "error"

-- What `init_logging` uses of tracing_subscriber: a process has one global subscriber, so what has set
-- it refuses to set it again.
pub record Logging : Type 1 where
  pub Global : Type 0
  pub try_new : Text → Result String (Unit {0})
  pub try_init : Global → Result String Global
  pub try_init-try_init :
      (g g' : Global) → try_init g ≡ ok g' → (e : String) × (try_init g' ≡ err e)

abbrev pub filter_text : Text → Text
filter_text level =
    codes "kanari_evm_consensus="
    ++ level
    ++ codes ",kanari_evm_rpc="
    ++ level
    ++ codes ",kanari_evm_node="
    ++ level
    ++ codes ",kanari_evm_move_execution="
    ++ level

abbrev pub exit_with {ℓ} : {A : Type ℓ} → String → Result String A → Result Fatal A
exit_with why (ok a) = ok a
exit_with why (err e) = err (message why)

unfoldable pub init_logging : (l : Logging) → Text → l.Global → Result Fatal l.Global
init_logging l level global = exit_with "invalid log level" (l.try_new (filter_text level)) >>= λ u.
    exit_with "logging already initialized" (l.try_init global)

-- Paths are texts.
pub record ValidatorFileConfig : Type 0 where
  pub committee : Option Text
  pub key : Option Text
  pub data_dir : Option Text
  pub rpc_host : Option Text
  pub rpc_port : Option ℕ
  pub log_level : Option Text
  pub faucet_key : Option Text

pub record ValidatorCli : Type 0 where
  pub committee : Option Text
  pub key : Option Text
  pub data_dir : Option Text
  pub rpc_port : Option ℕ
  pub rpc_host : Option Text
  pub faucet_key : Option Text
  pub log_level : Option LogLevel

pub record ResolvedValidator : Type 0 where
  pub committee : Text
  pub key : Text
  pub data_dir : Option Text
  pub rpc_port : Option ℕ
  pub rpc_host : Text
  pub faucet_key : Option Text
  pub log_level : Text

-- `or` and `unwrap_or_else`
abbrev pub or_other : {A : Type 0} → Option A → Option A → Option A
or_other (some a) other = some a
or_other none other = other

abbrev pub or_default : {A : Type 0} → A → Option A → A
or_default default none = default
or_default default (some a) = a

abbrev pub told_level : Option LogLevel → Option Text
told_level none = none
told_level (some l) = some (level_text l)

unfoldable pub resolve_validator_config :
    ValidatorCli → ValidatorFileConfig → Result String ResolvedValidator
resolve_validator_config cli file = do
  committee ←
      ok_or "--committee is required (or set committee in --config)"
        (or_other cli.committee file.committee)
  key ← ok_or "--key is required (or set key in --config)" (or_other cli.key file.key)
  ok (record {
    committee = committee;
    key = key;
    data_dir = or_other cli.data_dir file.data_dir;
    rpc_port = or_other cli.rpc_port file.rpc_port;
    rpc_host = or_default (codes "127.0.0.1") (or_other cli.rpc_host file.rpc_host);
    faucet_key = or_other cli.faucet_key file.faucet_key;
    log_level = or_default (codes "info") (or_other (told_level cli.log_level) file.log_level);
  })

-- The data directories, from the home directory where the environment has one.
abbrev pub in_home : Text → Option Text → Text → Text
in_home name none own = own
in_home name (some home) own = home ++ codes "/.kanari/" ++ name

unfoldable pub default_data_dir : Option Text → Text
default_data_dir home = in_home (codes "evm-devnet") home (codes "./.kanari-evm-devnet")

unfoldable pub default_fork_dir : Option Text → Text
default_fork_dir home = in_home (codes "evm-fork") home (codes "./.kanari-evm-fork")

-- The port after the validator's own, in 16 bits.
abbrev pub validator_port : Option ℕ → ℕ → ℕ
validator_port none own_port = (own_port + 1) % 2 ^ 16
validator_port (some port) own_port = port

-- `s.ends_with(p)`
unfoldable pub ends_with : Text → Text → Bool
ends_with [] p = bytes_eq [] p
ends_with (c ∷ s) p = bytes_eq (c ∷ s) p || ends_with s p

-- The entries of the data directory that a reset removes.
unfoldable pub is_state_entry : Text → Bool
unfolding ends_with
is_state_entry name =
    bytes_eq name (codes "state.json")
    || ends_with name (codes ".chain.db")
    || ends_with name (codes ".faucet.key")
    || ends_with name (codes ".smt")

module _ (forms : Forms) where
  open forms use {parse_address, parse_b256}

  unfoldable pub parse_secret : Text → Result Fatal Bytes
  parse_secret hex =
      ok_or (message "invalid --faucet-key: want 32-byte 0x hex") (parse_b256 (trim hex))

  abbrev pub faucet_amount : List Text → Result Fatal ℕ
  faucet_amount [] = ok 100
  faucet_amount (next ∷ more) =
      ok_or (bad_flag "invalid faucet amount" next) (parse_decimal u128_max next)

  abbrev pub faucet_arg : List Text → Result Fatal (Bytes × ℕ)
  faucet_arg [] = err (message "--faucet needs an address")
  faucet_arg (addr ∷ rest) = do
    address ← ok_or (bad_flag "invalid faucet address" addr) (parse_address (trim addr))
    amount ← faucet_amount rest
    ok (address, amount)

  unfoldable pub parse_faucet_args : List (List Text) → Result Fatal (List (Bytes × ℕ))
  parse_faucet_args [] = ok []
  parse_faucet_args (group ∷ raw) = do
    first ← faucet_arg group
    rest ← parse_faucet_args raw
    ok (first ∷ rest)
