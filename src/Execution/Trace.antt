-- ===== src/Execution/Trace.antt =====
-- `crates/move-execution/src/trace.rs`: transactions that are executed again under a tracer. The
-- tracer, which writes JSON lines, and serde_json's parser are parameters.
mod Tests
pub mod Steps
pub mod History
use Prim.Native.String.{String}
use kanari_evm.Prelude.{
  ℕ, Bool, true, false, Option, none, some, List, [], ◌∷◌, ◌++◌, Bytes, Result, ok, err, ◌>>=◌,
  ok_or, ltb, ◌==◌, ◌&&◌, if◌then◌else◌, is_empty,
}
use kanari_evm.Types.Word.{u64_max, as_u64}
use kanari_evm.Types.Text.{Text, trim, trim_0x, from_str_radix16}
use kanari_evm.Types.Hex.{hex_prefixed}
use kanari_evm.Types.Gas.{block_gas_limit}
use kanari_evm.Storage.Keys.{codes}
use kanari_evm.Storage.Records.{SealedBlock, StoredReceipt}
use kanari_evm.Json.{
  Value, null, boolean, number, string, array, object, Fields, end, get, remove, insert, as_str,
  as_object, fields_or_empty,
}
use kanari_evm.Execution.Errors.{
  NodeError, NodeResult, text, invalid_transaction, storage, execution, unknown_transaction,
  missing_block, missing_raw_tx, or_error,
}
use kanari_evm.Execution.Tx.{TxEnv, PreparedTx, decode}
use kanari_evm.Execution.Machine.{Machine, KanariEvmParams, ExecutionResult, success, revert, halt}
use kanari_evm.Execution.ChainSpec.{KanariChainSpec, apply_genesis}
use kanari_evm.Execution.Action.{Action}
use kanari_evm.Execution.Node.{
  KanariNode, block_beneficiary, block_number, block_by_number, receipt, tx_record,
  pending_base_fee,
}
use kanari_evm.Execution.Seal.{transact_raw}
use kanari_evm.Execution.Call.{CallRequest, call_env, into_data}
use kanari_evm.Execution.Trace.Steps.{
  TraceOptions, default_options, flag_value, options_from_json, TraceOutput, remove_if, rename_op,
  remove_all, map_step, Lines, no_lines, step_of, add_line, split_lines, read_lines, traced_result,
  gas_text, parsed_or, summary_gas,
}

-- `inspect_one_tx` under the tracer: the result and the bytes that the tracer wrote.
pub record Tracer (m : Machine) : Type 0 where
  pub inspect : m.State → KanariEvmParams → TxEnv → Result String (ExecutionResult × Bytes)
  pub from_utf8 : Bytes → Result String Text
  pub from_str : Text → Result String Value

module _ (m : Machine) where
  -- The transactions of earlier blocks on the scratch state; a failure ends the trace.
  abbrev pub executed_state : NodeResult ExecutionResult × m.State → NodeResult m.State
  executed_state (ok result, db) = ok db
  executed_state (err e, db) = err e

  unfoldable pub scratch_txs :
      KanariChainSpec → SealedBlock → List Bytes → m.State → NodeResult m.State
  scratch_txs spec prior [] db = ok db
  scratch_txs spec prior (raw ∷ txs) db = do
    prepared ← decode m.decode_2718_exact m.recover_signer raw spec.chain_id
    db' ←
        executed_state (transact_raw m spec prepared prior.number prior.timestamp prior.base_fee db)
    scratch_txs spec prior txs db'

  -- The blocks whose number is below the traced one's.
  unfoldable pub scratch_blocks :
      KanariChainSpec → ℕ → List SealedBlock → m.State → NodeResult m.State
  unfolding scratch_txs
  scratch_blocks spec block [] db = ok db
  scratch_blocks spec block (prior ∷ blocks) db = elim (ltb prior.number block) [
    | true ↦ do db' ← scratch_txs spec prior prior.txs db; scratch_blocks spec block blocks db'
    | false ↦ scratch_blocks spec block blocks db
  ]

module _ (m : Machine) (t : Tracer m) where
  open t use {inspect, from_utf8, from_str}

  unfoldable pub trace_in :
      m.State → KanariChainSpec → TxEnv → ℕ → ℕ → ℕ → TraceOptions → NodeResult TraceOutput
  unfolding read_lines split_lines traced_result summary_gas
  trace_in db spec tx block timestamp base_fee opts = do
    traced ← or_error execution (
        inspect db
          (record {
            chain_id = spec.chain_id;
            spec = spec.spec_id;
            number = block;
            timestamp = timestamp;
            basefee = base_fee;
            gas_limit = block_gas_limit;
            beneficiary = block_beneficiary;
          })
          tx)
    written ← or_error execution (from_utf8 traced.1)
    lines ← read_lines from_str opts no_lines (split_lines [] written)
    let summary = traced_result traced.0
    ok (record {
      gas_used = summary_gas (gas_text lines.summary) summary.1;
      failed = summary.0;
      return_value = hex_prefixed summary.2;
      struct_logs = lines.struct_logs;
    })

  unfoldable pub trace_transaction : Bytes → TraceOptions → KanariNode m → NodeResult TraceOutput
  unfolding trace_in scratch_blocks
  trace_transaction hash opts node = do
    r ← ok_or (invalid_transaction (unknown_transaction hash)) (receipt m node hash)
    block ← ok_or (storage (missing_block r.block_number)) (block_by_number m node r.block_number)
    found ← ok_or (storage (missing_raw_tx hash)) (tx_record m node hash)
    prepared ← decode m.decode_2718_exact m.recover_signer found.1 node.spec.chain_id
    scratch ←
        scratch_blocks m node.spec r.block_number node.blocks
          (apply_genesis m node.spec m.empty_state)
    trace_in scratch node.spec prepared.inner r.block_number block.timestamp block.base_fee opts

  -- The environment is that of a read-only call. The time is an argument.
  unfoldable pub trace_call : ℕ → CallRequest → TraceOptions → KanariNode m → NodeResult TraceOutput
  unfolding trace_in call_env
  trace_call now request opts node =
      trace_in node.db node.spec (call_env m node request) (block_number m node) now
        (as_u64 (pending_base_fee m node)) opts
