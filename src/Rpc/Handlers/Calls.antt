-- ===== src/Rpc/Handlers/Calls.antt =====
-- The methods that execute: raw transactions, read-only calls, traces and the faucet. The clock's
-- reading is an argument.
use kanari_evm.Prelude.{
  ℕ, ◌*◌, Bool, true, false, Option, none, some, Bytes, ok, err, ◌>>=◌, get_elem?, ltb,
  if◌then◌else◌,
}
use kanari_evm.Types.Word.{u128_max}
use kanari_evm.Types.Text.{Text, parse_decimal}
use kanari_evm.Types.Hex.{hex_prefixed, quantity_u64}
use kanari_evm.Storage.Keys.{codes}
use kanari_evm.Json.{
  Value, boolean, string, array, object, field, end, of_list, as_str, as_u64, present,
}
use kanari_evm.Execution.Action.{Action}
use kanari_evm.Execution.Node.{KanariNode}
use kanari_evm.Execution.Seal.{send_raw_transaction}
use kanari_evm.Execution.Call.{CallResult, eth_call}
use kanari_evm.Execution.Faucet.{faucet}
use kanari_evm.Execution.Trace.{trace_transaction, trace_call}
use kanari_evm.Execution.Trace.Steps.{TraceOptions, default_options, options_from_json, TraceOutput}
use kanari_evm.Rpc.Params.{parse_address, parse_bytes, parse_hash, call_request_from_json}
use kanari_evm.Rpc.Response.{
  Reply, want, of_parsed, of_node, of_flags, failed, invalid_params, text,
}
use kanari_evm.Rpc.Services.{Services}
use kanari_evm.Rpc.Handlers.Accounts.{arguments}
use kanari_evm.Rpc.Handlers.Blocks.{fields_of}

-- The gas of the call, or its output.
abbrev pub call_view : Bool → CallResult → Value
call_view true out = string (quantity_u64 out.gas_used)
call_view false out = string (hex_prefixed out.output)

abbrev pub options_or_default : Option Value → Reply TraceOptions
options_or_default none = ok default_options
options_or_default (some v) = of_flags (options_from_json v)

-- `TraceOutput::to_json`
unfoldable pub trace_view : TraceOutput → Value
trace_view t = object (
    field (codes "gas") (string (quantity_u64 t.gas_used)) (
      field (codes "failed") (boolean t.failed) (
        field (codes "returnValue") (string t.return_value)
          (field (codes "structLogs") (array (of_list t.struct_logs)) end))))

-- A text in decimal, or else a whole JSON number.
abbrev pub number_if_none : Option ℕ → Option ℕ → Option ℕ
number_if_none (some n) _ = some n
number_if_none none other = other

abbrev pub decimal_of : Option Text → Option ℕ
decimal_of none = none
decimal_of (some t) = parse_decimal u128_max t

abbrev pub eth_amount : Option Value → Reply ℕ
eth_amount none = ok 100
eth_amount (some v) =
    want "ethAmount must be a whole-ETH number or 0x quantity"
      (number_if_none (decimal_of (as_str v)) (as_u64 v))

-- `checked_mul` of 128-bit words.
abbrev pub wei_of : ℕ → Reply ℕ
wei_of eth =
    let wei : ℕ = eth * 1_000_000_000_000_000_000 in
    if ltb u128_max wei then err (failed (invalid_params (text "ethAmount too large"))) else ok wei

module _ (s : Services) where
  open s use {machine, wallet, tracer, forms}

  -- A request's reply and the node after it, where the parameters were read.
  abbrev pub then_act :
      {A : Type 0}
      → Reply A
      → (A → Action (KanariNode machine) Bytes)
      → KanariNode machine
      → Reply Value × KanariNode machine
  then_act (err e) act node = (err e, node)
  then_act (ok a) act node =
      let (r, after) = act a node in
      (of_node r >>= λ hash. ok (string (forms.b256_text hash)), after)

  abbrev pub raw_param : Value → Reply Bytes
  raw_param params = do
    raw_v ← want "want [rawTx]" (get_elem? (arguments params) 0)
    of_parsed (parse_bytes forms raw_v)

  unfoldable pub send_raw : ℕ → Value → KanariNode machine → Reply Value × KanariNode machine
  send_raw now params node = then_act (raw_param params) (send_raw_transaction machine now) node

  unfoldable pub call_or_estimate : Bool → ℕ → Value → KanariNode machine → Reply Value
  call_or_estimate estimate now params node = do
    call_v ← want "want [{...}, block]" (get_elem? (arguments params) 0)
    request ← of_parsed (call_request_from_json forms (fields_of (some call_v)))
    out ← of_node (eth_call machine now request node)
    ok (call_view estimate out)

  unfoldable pub debug_trace_transaction : Value → KanariNode machine → Reply Value
  unfolding trace_view
  debug_trace_transaction params node = do
    hash_v ← want "want [txHash, options?]" (get_elem? (arguments params) 0)
    hash ← of_parsed (parse_hash forms hash_v)
    opts ← options_or_default (get_elem? (arguments params) 1)
    trace ← of_node (trace_transaction machine tracer hash opts node)
    ok (trace_view trace)

  unfoldable pub debug_trace_call : ℕ → Value → KanariNode machine → Reply Value
  unfolding trace_view
  debug_trace_call now params node = do
    call_v ← want "want [{...}, block?, options?]" (get_elem? (arguments params) 0)
    request ← of_parsed (call_request_from_json forms (fields_of (some call_v)))
    opts ← options_or_default (get_elem? (arguments params) 2)
    trace ← of_node (trace_call machine tracer now request opts node)
    ok (trace_view trace)

  -- The address, and the amount in wei.
  abbrev pub faucet_params : Value → Reply (Bytes × ℕ)
  faucet_params params = do
    addr_v ← want "want [address, ethAmount?]" (get_elem? (arguments params) 0)
    address ← of_parsed (parse_address forms addr_v)
    eth ← eth_amount (present (get_elem? (arguments params) 1))
    wei ← wei_of eth
    ok (address, wei)

  unfoldable pub kanari_faucet : ℕ → Value → KanariNode machine → Reply Value × KanariNode machine
  kanari_faucet now params node =
      then_act (faucet_params params) (λ p. faucet machine wallet now p.0 p.1) node
