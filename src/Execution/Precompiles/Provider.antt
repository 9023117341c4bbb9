-- ===== src/Execution/Precompiles/Provider.antt =====
-- `KanariPrecompiles` of `crates/move-execution/src/precompiles.rs` and the environment of both
-- builders of the EVM. revm's standard set of a hardfork, and what it makes of a precompile's result,
-- are parameters.
pub mod Served
use Prim.Native.String.{String}
use kanari_evm.Prelude.{
  ℕ, Bool, true, false, Option, none, some, List, [], ◌∷◌, Bytes, bytes_eq, Result, ok, err, ◌==◌,
  if◌then◌else◌, map, to_be_bytes,
}
use kanari_evm.Execution.Machine.{KanariEvmParams}
use kanari_evm.Execution.Precompiles.{PrecompileHalt, falcon512_verify_run, dilithium3_verify_run}

-- `u64_to_address`
abbrev pub falcon512_verify_address : Bytes
falcon512_verify_address = to_be_bytes 20 0x100

abbrev pub dilithium3_verify_address : Bytes
dilithium3_verify_address = to_be_bytes 20 0x101

-- What `eth_precompile_fn` and revm make of an Ethereum precompile's result under a gas limit and a
-- reservoir, and the standard set of a hardfork; its list holds an address once.
pub record Revm : Type 1 where
  pub Output : Type 0
  pub eth_output : ℕ → ℕ → Result PrecompileHalt (ℕ × Bytes) → Result String Output
  pub standard : ℕ → List (Bytes × (Bytes → ℕ → ℕ → Result String Output))

pub record CallInputs : Type 0 where
  pub bytecode_address : Bytes
  pub input : Bytes
  pub gas_limit : ℕ
  pub reservoir : ℕ

-- The configuration and the block of an EVM.
pub record EvmEnv : Type 0 where
  pub chain_id : ℕ
  pub spec : ℕ
  pub number : ℕ
  pub timestamp : ℕ
  pub beneficiary : Bytes
  pub basefee : ℕ
  pub gas_limit : ℕ
  pub difficulty : ℕ
  pub prevrandao : Option Bytes

abbrev pub evm_env : KanariEvmParams → EvmEnv
evm_env params = record {
  chain_id = params.chain_id;
  spec = params.spec;
  number = params.number;
  timestamp = params.timestamp;
  beneficiary = params.beneficiary;
  basefee = params.basefee;
  gas_limit = params.gas_limit;
  difficulty = 0;
  prevrandao = some (to_be_bytes 32 0);
}

module _ (r : Revm) (falcon dilithium : Bytes → Bytes → Bytes → Bool) where
  open r use {Output, eth_output, standard}

  -- A precompile on its input, the gas limit and the reservoir.
  abbrev pub Precompile : Type 0
  Precompile = Bytes → ℕ → ℕ → Result String Output

  abbrev pub falcon512_verify_fn : Precompile
  falcon512_verify_fn input gas_limit reservoir =
      eth_output gas_limit reservoir (falcon512_verify_run falcon input gas_limit)

  abbrev pub dilithium3_verify_fn : Precompile
  dilithium3_verify_fn input gas_limit reservoir =
      eth_output gas_limit reservoir (dilithium3_verify_run dilithium input gas_limit)

  abbrev pub kanari_custom_precompiles : List (Bytes × Precompile)
  kanari_custom_precompiles =
      (falcon512_verify_address, falcon512_verify_fn)
      ∷ (dilithium3_verify_address, dilithium3_verify_fn)
      ∷ []

  -- `extend` of a map: an address that is there already is given the new precompile.
  abbrev pub extend :
      List (Bytes × Precompile) → List (Bytes × Precompile) → List (Bytes × Precompile)
  extend inner [] = inner
  extend inner ((address, precompile) ∷ more) = extend ((address, precompile) ∷ inner) more

  abbrev pub get_precompile : List (Bytes × Precompile) → Bytes → Option Precompile
  get_precompile [] address = none
  get_precompile ((own, precompile) ∷ inner) address =
      if bytes_eq own address then some precompile else get_precompile inner address

  pub record KanariPrecompiles : Type 0 where
    pub inner : List (Bytes × Precompile)
    pub spec : ℕ

  -- `new`
  abbrev pub new_provider : ℕ → KanariPrecompiles
  new_provider spec = record {
    inner = extend (standard spec) kanari_custom_precompiles;
    spec = spec;
  }

  unfoldable pub set_spec : ℕ → KanariPrecompiles → Bool × KanariPrecompiles
  set_spec spec p = if spec == p.spec then (false, p) else (true, new_provider spec)

  abbrev pub executed : CallInputs → Option Precompile → Result String (Option Output)
  executed inputs none = ok none
  executed inputs (some precompile) =
      some_output (precompile inputs.input inputs.gas_limit inputs.reservoir)
    where
      some_output : Result String Output → Result String (Option Output)
      some_output (ok output) = ok (some output)
      some_output (err e) = err e

  -- `run`
  unfoldable pub run_precompile : KanariPrecompiles → CallInputs → Result String (Option Output)
  run_precompile p inputs = executed inputs (get_precompile p.inner inputs.bytecode_address)

  unfoldable pub warm_addresses : KanariPrecompiles → List Bytes
  warm_addresses p = map (λ (entry : Bytes × Precompile). entry.0) p.inner

  -- An EVM: its environment, its inspector and its precompiles.
  pub record KanariEvm (I : Type 0) : Type 0 where
    pub env : EvmEnv
    pub inspector : I
    pub precompiles : KanariPrecompiles

  unfoldable pub build_kanari_evm : KanariEvmParams → KanariEvm (Unit {0})
  build_kanari_evm params = record {
    env = evm_env params;
    inspector = tt;
    precompiles = new_provider params.spec;
  }

  unfoldable pub build_kanari_evm_traced : {I : Type 0} → KanariEvmParams → I → KanariEvm I
  build_kanari_evm_traced params inspector = record {
    env = evm_env params;
    inspector = inspector;
    precompiles = new_provider params.spec;
  }
