-- ===== src/Execution/Precompiles/Provider/Served.antt =====
-- Which precompile answers a call.
use Prim.Native.String.{String}
use kanari_evm.Prelude.{
  ℕ, ◌≡◌, refl, sym, ap, Bool, true, false, Option, some, Bytes, bytes_eq, Result, ◌==◌,
  if◌then◌else◌, arith,
}
use kanari_evm.Execution.Precompiles.Provider.{
  Revm, CallInputs, falcon512_verify_address, dilithium3_verify_address, falcon512_verify_fn,
  dilithium3_verify_fn, new_provider, set_spec, run_precompile, executed, get_precompile,
}

module _ (r : Revm) (falcon dilithium : Bytes → Bytes → Bytes → Bool) where
  open r use {Output, standard}

  -- The signature precompiles at their addresses, and the hardfork's at any other.
  abbrev pub served : ℕ → CallInputs → Result String (Option Output)
  served spec inputs = executed r falcon dilithium inputs (
      if bytes_eq dilithium3_verify_address inputs.bytecode_address
      then some (dilithium3_verify_fn r falcon dilithium)
      else if bytes_eq falcon512_verify_address inputs.bytecode_address
      then some (falcon512_verify_fn r falcon dilithium)
      else get_precompile r falcon dilithium (standard spec) inputs.bytecode_address)

  -- A provider whose hardfork is set is that hardfork's, whether it was before or not.
  set_spec-new_provider :
      (before spec : ℕ)
      → (set_spec r falcon dilithium spec (new_provider r falcon dilithium before)).1
        ≡ new_provider r falcon dilithium spec
  unfolding set_spec
  set_spec-new_provider before spec = go (spec == before) refl
    where
      go :
          (same : Bool)
          → (spec == before) ≡ same
          → (set_spec r falcon dilithium spec (new_provider r falcon dilithium before)).1
            ≡ new_provider r falcon dilithium spec
      go true e =
          let k : spec ≡ before = ground arith in
          rw e (ap (new_provider r falcon dilithium) (sym k))
      go false e = rw e refl

  -- After any change of the hardfork a call is answered by the signature precompile at its address,
  -- also where the hardfork has one of its own there, and by the hardfork's at any other.
  pub run_precompile-set_spec :
      (before spec : ℕ) (inputs : CallInputs)
      → run_precompile r falcon dilithium
          (set_spec r falcon dilithium spec (new_provider r falcon dilithium before)).1
          inputs
        ≡ served spec inputs
  unfolding run_precompile set_spec
  run_precompile-set_spec before spec inputs = rw (set_spec-new_provider before spec) refl
