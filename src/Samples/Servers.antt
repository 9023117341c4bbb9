-- ===== src/Samples/Servers.antt =====
-- What a server uses, on the sample environment: texts are the bytes themselves, code and slots are
-- absent, and the tracer writes one summary line.
use kanari_evm.Prelude.{none, some, [], ◌∷◌, Bytes, ok, false}
use kanari_evm.Types.Word.{u256_max}
use kanari_evm.Types.Text.{from_str_radix16}
use kanari_evm.Json.{null}
use kanari_evm.Execution.Machine.{Output, success}
use kanari_evm.Execution.Faucet.{Wallet}
use kanari_evm.Execution.Reads.{Backend}
use kanari_evm.Execution.Trace.{Tracer}
use kanari_evm.Rpc.Forms.{Forms}
use kanari_evm.Rpc.Services.{Services}
use kanari_evm.Samples.Machines.{sample}

abbrev pub plain_forms : Forms
plain_forms = record {
  parse_address = λ t. some t;
  parse_b256 = λ t. some t;
  parse_bytes = λ t. some t;
  address_text = λ bytes. bytes;
  b256_text = λ bytes. bytes;
  u256_from_str_radix16 = from_str_radix16 u256_max;
}

abbrev pub plain_wallet : Wallet
plain_wallet = record {
  Signer = Bytes;
  from_bytes = λ secret. ok secret;
  address = λ signer. signer;
  sign = λ signer tx. ok (tx.nonce ∷ []);
}

abbrev pub empty_backend : Backend sample
empty_backend = record {
  contracts = λ db hash. none;
  slot_value = λ db address slot. ok 0;
  tree_get = λ db key. ok none;
  tree_proof = λ db key. ok (false, [], []);
}

abbrev pub quiet_tracer : Tracer sample
quiet_tracer = record {
  inspect = λ db params tx. ok (success 21000 (Output.call []) [], []);
  from_utf8 = λ bytes. ok bytes;
  from_str = λ t. ok null;
}

abbrev pub server : Services
server = record {
  machine = sample;
  wallet = plain_wallet;
  backend = empty_backend;
  tracer = quiet_tracer;
  forms = plain_forms;
}
