-- ===== src/Rpc/Request.antt =====
-- The requests of `crates/server_rpc/src/rpc.rs`: their methods, and what serde derives for them.
use Prim.Native.String.{String}
use kanari_evm.Prelude.{
  Bool, true, false, ltb, Option, none, some, List, [], ◌∷◌, bytes_eq, get_elem?, length,
  if◌then◌else◌,
}
use kanari_evm.Types.Text.{Text}
use kanari_evm.Storage.Keys.{codes}
use kanari_evm.Json.{Value, null, boolean, number, string, array, object, get, to_list, as_str}

pub data Method : Type 0 where
  client_version version chain_number head_number syncing listening : Method
  code_at history gas_price max_priority_fee balance_at transaction_count storage_at : Method
  send_transaction transaction_by_hash transaction_receipt logs : Method
  block_by_hash_method block_by_number_method call estimate_gas : Method
  trace_transaction_method trace_call_method faucet_method supply_method smt_proof_method : Method

-- The arms of the match on the method's name.
abbrev pub method_table : List (String × Method)
method_table =
    ("web3_clientVersion", client_version)
    ∷ ("net_version", version)
    ∷ ("eth_chainId", chain_number)
    ∷ ("eth_blockNumber", head_number)
    ∷ ("eth_syncing", syncing)
    ∷ ("net_listening", listening)
    ∷ ("eth_getCode", code_at)
    ∷ ("eth_feeHistory", history)
    ∷ ("eth_gasPrice", gas_price)
    ∷ ("eth_maxPriorityFeePerGas", max_priority_fee)
    ∷ ("eth_getBalance", balance_at)
    ∷ ("eth_getTransactionCount", transaction_count)
    ∷ ("eth_getStorageAt", storage_at)
    ∷ ("eth_sendRawTransaction", send_transaction)
    ∷ ("eth_getTransactionByHash", transaction_by_hash)
    ∷ ("eth_getTransactionReceipt", transaction_receipt)
    ∷ ("eth_getLogs", logs)
    ∷ ("eth_getBlockByHash", block_by_hash_method)
    ∷ ("eth_getBlockByNumber", block_by_number_method)
    ∷ ("eth_call", call)
    ∷ ("eth_estimateGas", estimate_gas)
    ∷ ("debug_traceTransaction", trace_transaction_method)
    ∷ ("debug_traceCall", trace_call_method)
    ∷ ("kanari_faucet", faucet_method)
    ∷ ("kanari_supply", supply_method)
    ∷ ("kanari_getSmtProof", smt_proof_method)
    ∷ []

abbrev pub find_method : List (String × Method) → Text → Option Method
find_method [] name = none
find_method ((arm, method) ∷ arms) name =
    if bytes_eq (codes arm) name then some method else find_method arms name

unfoldable pub method_of : Text → Option Method
method_of name = find_method method_table name

pub record RpcRequest : Type 0 where
  pub id : Value
  pub method : Text
  pub params : Value

-- What serde derives for the request: `method` is a text, `jsonrpc` a text or `null` where it is
-- given, and `id` and `params` are `null` where they are not.
abbrev jsonrpc_fits : Option Value → Bool
jsonrpc_fits none = true
jsonrpc_fits (some null) = true
jsonrpc_fits (some (string t)) = true
jsonrpc_fits (some (boolean b)) = false
jsonrpc_fits (some (number n)) = false
jsonrpc_fits (some (array items)) = false
jsonrpc_fits (some (object fields)) = false

abbrev value_or_null : Option Value → Value
value_or_null none = null
value_or_null (some v) = v

abbrev request_of_parts : Bool → Option Value → Option Text → Option Value → Option RpcRequest
request_of_parts false id method params = none
request_of_parts true id none params = none
request_of_parts true id (some method) params =
    some (record { id = value_or_null id; method = method; params = value_or_null params })

abbrev text_of : Option Value → Option Text
text_of none = none
text_of (some v) = as_str v

-- An array gives the fields in their order, and may not be longer.
abbrev request_of_list : List Value → Option RpcRequest
request_of_list values =
    if ltb 4 (length values)
    then none
    else request_of_parts (jsonrpc_fits (get_elem? values 0)) (get_elem? values 1)
        (text_of (get_elem? values 2)) (get_elem? values 3)

unfoldable pub request_from_value : Value → Option RpcRequest
request_from_value (object fields) =
    request_of_parts (jsonrpc_fits (get (codes "jsonrpc") fields)) (get (codes "id") fields)
      (text_of (get (codes "method") fields)) (get (codes "params") fields)
request_from_value (array items) = request_of_list (to_list items)
request_from_value null = none
request_from_value (boolean b) = none
request_from_value (number n) = none
request_from_value (string t) = none
