-- ===== src/Execution/Precompiles/Tests.antt =====
-- A small input of the precompiles' layout.
use kanari_evm.Prelude.{◌≡◌, ◌↔◌, Bool, true, none, [], ◌∷◌, Bytes, ok, arith, ℕ, Result, err}
use kanari_evm.Execution.Precompiles.{run_pqc_verify, bool_word, PrecompileHalt}
use kanari_evm.Execution.Precompiles.Provider.{
  Revm, CallInputs, falcon512_verify_address, new_provider, set_spec, run_precompile,
}
use kanari_evm.Execution.Precompiles.Provider.Served.{served, run_precompile-set_spec}
use kanari_evm.Execution.Precompiles.Layout.{layout}
use kanari_evm.Execution.Precompiles.Run.{Accepted, run_pqc_verify_iff}

abbrev sig : Bytes
sig = 4 ∷ []

abbrev input : Bytes
input = layout (1 ∷ 2 ∷ []) (3 ∷ []) sig

abbrev always : Bytes → Bytes → Bytes → Bool
always pubkey msg signature = true

run_pqc_verify_iff_example :
    (run_pqc_verify input 5000 3000 2 none always ≡ ok (3000, bool_word true))
    ↔ Accepted input 2 none always
run_pqc_verify_iff_example =
    run_pqc_verify_iff input 2 none always 5000 3000
      (
        omega arith,
        (
          omega arith,
          (
            omega arith,
            (omega arith, (omega arith, (omega arith, (omega arith, (omega arith, tt))))),
          ),
        ),
      )
      (omega arith)

-- A hardfork that has a precompile of its own at the address of the first signature precompile.
abbrev taken : Revm
taken = record {
  Output = Bytes;
  eth_output = λ gas_limit reservoir result. ok (result_bytes result);
  standard = λ spec. (falcon512_verify_address, λ input gas_limit reservoir. ok input) ∷ [];
}
  where
    result_bytes : Result PrecompileHalt (ℕ × Bytes) → Bytes
    result_bytes (ok (gas, output)) = output
    result_bytes (err halt) = []

abbrev falcon_call : CallInputs
falcon_call = record {
  bytecode_address = falcon512_verify_address;
  input = input;
  gas_limit = 5000;
  reservoir = 0;
}

run_precompile-set_spec_example :
    run_precompile taken always always
      (set_spec taken always always 7 (new_provider taken always always 3)).1
      falcon_call
    ≡ served taken always always 7 falcon_call
run_precompile-set_spec_example = run_precompile-set_spec taken always always 3 7 falcon_call
