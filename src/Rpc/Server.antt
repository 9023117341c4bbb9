-- ===== src/Rpc/Server.antt =====
-- `dispatch_inner` and `inner_handle_rpc` of `crates/server_rpc/src/rpc.rs`: a request goes to the
-- handler of its method; a batch is answered in order.
pub mod Safety
pub mod Batches
pub mod Panics
pub mod Receipts
mod Tests
use Prim.Native.String.{String}
use kanari_evm.Prelude.{
  ℕ, suc, ◌&&◌, ◌||◌, not, Bool, true, false, leb, ltb, Option, none, some, List, [], ◌∷◌, Bytes,
  bytes_eq, Result, ok, err, ◌>>=◌, get_elem?, length, if◌then◌else◌,
}
use kanari_evm.Types.Text.{Text, as_bytes}
use kanari_evm.Types.Hex.{quantity_u64, quantity_u256}
use kanari_evm.Storage.Keys.{codes}
use kanari_evm.Json.{
  Value, null, boolean, number, string, array, object, Fields, get, lit, to_list, as_str,
}
use kanari_evm.Execution.Node.{KanariNode, block_number, pending_base_fee}
use kanari_evm.Rpc.Response.{
  RpcResponse, RpcErrorBody, Failure, failed, panic, Reply, ok_response, err_response, parse_error,
  invalid_request, method_missing,
}
use kanari_evm.Rpc.Services.{Services}
use kanari_evm.Rpc.Handlers.Accounts.{
  get_code, get_balance, get_transaction_count, get_storage_at, get_smt_proof,
}
use kanari_evm.Rpc.Handlers.Blocks.{
  net_version, fee_history, get_transaction_by_hash, get_transaction_receipt, get_logs_json,
  get_block_by_hash, get_block_by_number, supply_view,
}
use kanari_evm.Rpc.Handlers.Calls.{
  send_raw, call_or_estimate, debug_trace_transaction, debug_trace_call, kanari_faucet,
}
use kanari_evm.Rpc.Request.{
  Method, RpcRequest, balance_at, block_by_hash_method, block_by_number_method, call, chain_number,
  client_version, code_at, estimate_gas, faucet_method, find_method, gas_price, head_number,
  history, listening, logs, max_priority_fee, method_of, method_table, request_from_value,
  send_transaction, smt_proof_method, storage_at, supply_method, syncing, trace_call_method,
  trace_transaction_method, transaction_by_hash, transaction_count, transaction_receipt, version,
}

-- A panic of the task that serves the request.
pub data Crash : Type 0 where
  crashed : Crash

-- A byte that is not the first of its character.
abbrev pub is_continuation : Option ℕ → Bool
is_continuation none = false
is_continuation (some b) = leb 0x80 b && ltb b 0xc0

pub data RpcBody : Type 0 where
  one : RpcResponse → RpcBody
  many : List RpcResponse → RpcBody

-- A result or an error with the request's id; a panic leaves no response.
abbrev pub respond : Value → Reply Value → Result Crash RpcResponse
respond id (ok v) = ok (ok_response id v)
respond id (err (failed body)) = ok (err_response id body)
respond id (err panic) = err crashed

abbrev pub push_response :
    Result Crash RpcResponse → Result Crash (List RpcResponse) → Result Crash (List RpcResponse)
push_response (err c) rest = err c
push_response (ok r) (err c) = err c
push_response (ok r) (ok rest) = ok (r ∷ rest)

abbrev pub params_or_null : Option Value → Value
params_or_null none = null
params_or_null (some v) = v

abbrev pub single : Result Crash RpcResponse → Result Crash RpcBody
single (ok r) = ok (one r)
single (err c) = err c

abbrev pub many_responses : Result Crash (List RpcResponse) → Result Crash RpcBody
many_responses (ok rs) = ok (many rs)
many_responses (err c) = err c

abbrev invalid_body : Result Crash RpcBody
invalid_body = ok (one (err_response null (invalid_request "invalid request")))

-- `s.len() > 160 && !s.is_char_boundary(160)` of the printed value: the slice `&s[..160]` panics.
unfoldable pub summary_panics : (Value → Text) → Value → Bool
summary_panics to_string params =
    let bytes = as_bytes (to_string params) in
    ltb 160 (length bytes) && is_continuation (get_elem? bytes 160)

module _ (s : Services) where
  open s use {machine}

  -- A method's reply and the node after it.
  unfoldable pub run_method :
      Method → ℕ → Value → KanariNode machine → Reply Value × KanariNode machine
  run_method client_version now params node = (ok (lit "kanari-evm-node/0.2.8"), node)
  run_method version now params node = (net_version s node, node)
  run_method chain_number now params node = (ok (string (quantity_u64 node.spec.chain_id)), node)
  run_method head_number now params node =
      (ok (string (quantity_u64 (block_number machine node))), node)
  run_method syncing now params node = (ok (boolean false), node)
  run_method listening now params node = (ok (boolean true), node)
  run_method code_at now params node = (get_code s params node, node)
  run_method history now params node = (fee_history s params node, node)
  run_method gas_price now params node =
      (ok (string (quantity_u256 (pending_base_fee machine node))), node)
  run_method max_priority_fee now params node =
      (ok (string (quantity_u256 (pending_base_fee machine node))), node)
  run_method balance_at now params node = (get_balance s params node, node)
  run_method transaction_count now params node = (get_transaction_count s params node, node)
  run_method storage_at now params node = (get_storage_at s params node, node)
  run_method send_transaction now params node = send_raw s now params node
  run_method transaction_by_hash now params node = (get_transaction_by_hash s params node, node)
  run_method transaction_receipt now params node = (get_transaction_receipt s params node, node)
  run_method logs now params node = (get_logs_json s params node, node)
  run_method block_by_hash_method now params node = (get_block_by_hash s params node, node)
  run_method block_by_number_method now params node = (get_block_by_number s params node, node)
  run_method call now params node = (call_or_estimate s false now params node, node)
  run_method estimate_gas now params node = (call_or_estimate s true now params node, node)
  run_method trace_transaction_method now params node =
      (debug_trace_transaction s params node, node)
  run_method trace_call_method now params node = (debug_trace_call s now params node, node)
  run_method faucet_method now params node = kanari_faucet s now params node
  run_method supply_method now params node = (supply_view s node, node)
  run_method smt_proof_method now params node = (get_smt_proof s params node, node)

  abbrev pub run_named :
      RpcRequest
      → Option Method
      → ℕ
      → KanariNode machine
      → Result Crash RpcResponse × KanariNode machine
  run_named req none now node = (ok (err_response req.id (method_missing req.method)), node)
  run_named req (some method) now node =
      let (reply, after) = run_method method now req.params node in (respond req.id reply, after)

  -- `dispatch`, whose logging is left out, and `dispatch_inner`.
  unfoldable pub dispatch_inner :
      RpcRequest → ℕ → KanariNode machine → Result Crash RpcResponse × KanariNode machine
  dispatch_inner req now node = run_named req (method_of req.method) now node

  -- One item of a batch, or a single request.
  abbrev pub answer_item :
      Option RpcRequest → ℕ → KanariNode machine → Result Crash RpcResponse × KanariNode machine
  answer_item none now node = (ok (err_response null parse_error), node)
  answer_item (some req) now node = dispatch_inner req now node

  -- A panic ends the loop; what the items before it did stays done.
  abbrev pub node_at :
      Result Crash RpcResponse → KanariNode machine → KanariNode machine → KanariNode machine
  node_at (err c) here there = here
  node_at (ok r) here there = there

  -- The items in order, the `i`-th at the clock's `i`-th reading.
  unfoldable pub handle_batch :
      (ℕ → ℕ)
      → ℕ
      → List Value
      → KanariNode machine
      → Result Crash (List RpcResponse) × KanariNode machine
  unfolding request_from_value dispatch_inner
  handle_batch clock i [] node = (ok [], node)
  handle_batch clock i (item ∷ items) node =
      let (first, after) = answer_item (request_from_value item) (clock i) node in
      let (rest, last) = handle_batch clock (suc i) items after in
      (push_response first rest, node_at first after last)

  -- `serde_json::to_string`
  module _ (to_string : Value → Text) where
    abbrev pub handle_object :
        (ℕ → ℕ) → Fields → KanariNode machine → Result Crash RpcBody × KanariNode machine
    handle_object clock fields node =
        let (r, after) = answer_item (request_from_value (object fields)) (clock 0) node in
        if summary_panics to_string (params_or_null (get (codes "params") fields))
        then (err crashed, node)
        else (single r, after)

    abbrev pub handle_items :
        (ℕ → ℕ) → List Value → KanariNode machine → Result Crash RpcBody × KanariNode machine
    handle_items clock [] node =
        (ok (many (err_response null (invalid_request "empty batch") ∷ [])), node)
    handle_items clock (item ∷ items) node =
        let (rs, after) = handle_batch clock 0 (item ∷ items) node in (many_responses rs, after)

    unfoldable pub inner_handle_rpc :
        (ℕ → ℕ) → Value → KanariNode machine → Result Crash RpcBody × KanariNode machine
    unfolding handle_batch summary_panics request_from_value dispatch_inner
    inner_handle_rpc clock (array items) node = handle_items clock (to_list items) node
    inner_handle_rpc clock (object fields) node = handle_object clock fields node
    inner_handle_rpc clock null node = (invalid_body, node)
    inner_handle_rpc clock (boolean b) node = (invalid_body, node)
    inner_handle_rpc clock (number n) node = (invalid_body, node)
    inner_handle_rpc clock (string t) node = (invalid_body, node)
