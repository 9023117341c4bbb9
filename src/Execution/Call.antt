-- ===== src/Execution/Call.antt =====
-- `KanariNode::call` of `crates/move-execution/src/execution.rs`, here `eth_call`: it commits nothing. The
-- time is an argument.
pub mod Agreement
mod Tests
use kanari_evm.Prelude.{
  ℕ, Bool, true, false, Option, none, some, [], Bytes, Result, ok, err, to_be_bytes,
}
use Prim.Native.String.{String}
use kanari_evm.Types.Word.{as_u64}
use kanari_evm.Types.Gas.{block_gas_limit}
use kanari_evm.Execution.Errors.{NodeResult, text, execution}
use kanari_evm.Execution.Tx.{TxKind, TxEnv}
use kanari_evm.Execution.Machine.{
  Machine, KanariEvmParams, ExecutionResult, success, revert, halt, Output,
}
use kanari_evm.Execution.Commitment.{nonce_of}
use kanari_evm.Execution.Node.{
  KanariNode, block_number, pending_base_fee, default_call_gas, block_beneficiary,
}

pub record CallRequest : Type 0 where
  pub sender : Option Bytes
  pub to : Option Bytes
  pub data_bytes : Option Bytes
  pub value : Option ℕ
  pub gas : Option ℕ
  pub gas_price : Option ℕ
  pub nonce : Option ℕ

pub record CallResult : Type 0 where
  pub succeeded : Bool
  pub gas_used : ℕ
  pub output : Bytes

abbrev given_or : {A : Type 0} → A → Option A → A
given_or default none = default
given_or default (some a) = a

abbrev target_of : Option Bytes → TxKind
target_of none = TxKind.create
target_of (some to) = TxKind.call to

abbrev zero_if_err : NodeResult ℕ → ℕ
zero_if_err (ok n) = n
zero_if_err (err e) = 0

-- The bytes of an output; a creation without code has none.
abbrev pub into_data : Output → Bytes
into_data (Output.call bytes) = bytes
into_data (Output.create bytes address) = bytes

unfoldable pub from_output : ExecutionResult → CallResult
from_output (success gas output logs) = record {
  succeeded = true;
  gas_used = gas;
  output = into_data output;
}
from_output (revert gas output) = record { succeeded = false; gas_used = gas; output = output }
from_output (halt gas) = record { succeeded = false; gas_used = gas; output = [] }

module _ (m : Machine) where
  unfoldable pub call_env : KanariNode m → CallRequest → TxEnv
  call_env node request =
      let caller = given_or (to_be_bytes 20 0) request.sender in
      record {
        caller = caller;
        gas_limit = given_or default_call_gas request.gas;
        gas_price = given_or (pending_base_fee m node) request.gas_price;
        kind = target_of request.to;
        value = given_or 0 request.value;
        input = given_or [] request.data_bytes;
        nonce = given_or (zero_if_err (nonce_of m node.db caller)) request.nonce;
        chain_id = some node.spec.chain_id;
        gas_priority_fee = none;
        access_list = [];
        tx_type = 0;
        authorization_list = [];
      }

  abbrev pub call_params : ℕ → KanariNode m → KanariEvmParams
  call_params now node = record {
    chain_id = node.spec.chain_id;
    spec = node.spec.spec_id;
    number = block_number m node;
    timestamp = now;
    basefee = as_u64 (pending_base_fee m node);
    gas_limit = block_gas_limit;
    beneficiary = block_beneficiary;
  }

  -- The state after the execution is dropped.
  abbrev pub call_result : Result String (ExecutionResult × m.State) → NodeResult CallResult
  call_result (ok (result, state)) = ok (from_output result)
  call_result (err e) = err (execution (text e))

  -- The block of the execution is the head's number at the pending fee.
  unfoldable pub eth_call : ℕ → CallRequest → KanariNode m → NodeResult CallResult
  eth_call now request node =
      call_result (m.transact node.db (call_params now node) (call_env node request))
