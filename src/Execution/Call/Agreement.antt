-- ===== src/Execution/Call/Agreement.antt =====
-- A call with the fields of a transaction gives what the execution of the transaction gives.
use Prim.Native.String.{String}
use kanari_evm.Prelude.{
  ℕ, ◌≡◌, refl, ◌∙◌, sym, subst, some, Bytes, ok, err, arith, >>=-eq-ok, ◌>>=◌, Result-cases, inl,
  inr,
}
use kanari_evm.Types.Word.{as_u64}
use kanari_evm.Execution.Errors.{NodeResult, text, execution}
use kanari_evm.Execution.Tx.{
  TxEnv, LegacyTx, PreparedTx, legacy, decode, envelope_env, check_chain_id, kind_address,
}
use kanari_evm.Execution.Machine.{Machine, ExecutionResult, success, revert, halt, Output}
use kanari_evm.Execution.Node.{KanariNode, block_number, pending_base_fee}
use kanari_evm.Execution.Seal.{transact_raw, execution_summary}
use kanari_evm.Execution.Call.{
  CallRequest, CallResult, call_env, call_params, call_result, eth_call, from_output,
}

-- The request with every field of a legacy transaction.
abbrev pub request_of : Bytes → LegacyTx → CallRequest
request_of sender tx = record {
  sender = some sender;
  to = kind_address tx.to;
  data_bytes = some tx.input;
  value = some tx.value;
  gas = some tx.gas_limit;
  gas_price = some tx.gas_price;
  nonce = some tx.nonce;
}

-- The call shows the outcome and the gas of the execution, or fails as it does.
abbrev pub Predicts : NodeResult CallResult → NodeResult ExecutionResult → Type 0
Predicts (ok shown) (ok result) =
    (shown.succeeded ≡ (execution_summary result).0)
    × (shown.gas_used ≡ (execution_summary result).1)
Predicts (err e) (err e') = e ≡ e'
Predicts (ok shown) (err e) = ⊥
Predicts (err e) (ok result) = ⊥

from_output-Predicts : (result : ExecutionResult) → Predicts (ok (from_output result)) (ok result)
unfolding from_output execution_summary
from_output-Predicts (success gas (Output.create output address) logs) = (refl, refl)
from_output-Predicts (success gas (Output.call output) logs) = (refl, refl)
from_output-Predicts (revert gas output) = (refl, refl)
from_output-Predicts (halt gas) = (refl, refl)

module _ (m : Machine) where
  call_env-legacy :
      (node : KanariNode m) (sender : Bytes) (tx : LegacyTx) (found : ℕ × TxEnv)
      (prepared : PreparedTx)
      → envelope_env sender (legacy tx) ≡ ok found
      → check_chain_id sender node.spec.chain_id found ≡ ok prepared
      → call_env m node (request_of sender tx) ≡ prepared.inner
  unfolding envelope_env check_chain_id call_env kind_address
  call_env-legacy node sender tx found prepared e c = ground arith

  -- Where the node executes the transaction, on its head's number at the pending fee.
  abbrev pub executed : ℕ → KanariNode m → PreparedTx → NodeResult ExecutionResult
  executed now node prepared =
      (transact_raw m node.spec prepared (block_number m node) now
        (as_u64 (pending_base_fee m node)) node.db).0

  executed-ok :
      (now : ℕ) (node : KanariNode m) (prepared : PreparedTx) {result : ExecutionResult}
      {state : m.State}
      → m.transact node.db (call_params m now node) prepared.inner ≡ ok (result, state)
      → executed now node prepared ≡ ok result
  unfolding transact_raw
  executed-ok now node prepared h = rw (executed, transact_raw, h) refl

  executed-err :
      (now : ℕ) (node : KanariNode m) (prepared : PreparedTx) {why : String}
      → m.transact node.db (call_params m now node) prepared.inner ≡ err why
      → executed now node prepared ≡ err (execution (text why))
  unfolding transact_raw
  executed-err now node prepared h = rw (executed, transact_raw, h) refl

  eth_call-executed :
      (now : ℕ) (node : KanariNode m) (request : CallRequest) (prepared : PreparedTx)
      → call_env m node request ≡ prepared.inner
      → Predicts (eth_call m now request node) (executed now node prepared)
  unfolding eth_call
  eth_call-executed now node request prepared e =
      subst
        (λ (env : TxEnv).
          Predicts (call_result m (m.transact node.db (call_params m now node) env))
            (executed now node prepared))
        (sym e)
        (elim (Result-cases (m.transact node.db (call_params m now node) prepared.inner)) [
          | inl ((result, state), h) ↦
              rw (h, executed-ok now node prepared h) (from_output-Predicts result)
          | inr (why, h) ↦ rw (h, executed-err now node prepared h) refl
        ])

  -- For a legacy transaction that decode accepts, a call with its fields shows the outcome and the
  -- gas of its execution under the head's number, the time and the pending fee, or the same error.
  pub eth_call-Predicts :
      (now : ℕ) (node : KanariNode m) (raw sender : Bytes) (tx : LegacyTx) (prepared : PreparedTx)
      → m.decode_2718_exact raw ≡ ok (legacy tx)
      → m.recover_signer (legacy tx) ≡ ok sender
      → decode m.decode_2718_exact m.recover_signer raw node.spec.chain_id ≡ ok prepared
      → Predicts (eth_call m now (request_of sender tx) node) (executed now node prepared)
  unfolding decode
  eth_call-Predicts now node raw sender tx prepared d r h =
      let decoded : (envelope_env sender (legacy tx) >>= check_chain_id sender node.spec.chain_id)
          ≡ ok prepared =
        sym (rw (d, r) refl) ∙ h in
      let (found, e, c) = >>=-eq-ok (envelope_env sender (legacy tx)) _ decoded in
      eth_call-executed now node (request_of sender tx) prepared
        (call_env-legacy node sender tx found prepared e c)
