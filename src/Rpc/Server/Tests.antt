-- ===== src/Rpc/Server/Tests.antt =====
-- A server on the sample environment.
use kanari_evm.Prelude.{
  ℕ, zero, suc, ◌+◌, ◌≡◌, refl, some, List, [], ◌∷◌, ◌++◌, ok, err, bytes_eq, arith, ◌≤◌,
}
use kanari_evm.Types.Gas.{base_fee_share}
use kanari_evm.Types.Text.{Text, trim_0x, from_str_radix16, digits_value, to_digit}
use kanari_evm.Types.Hex.{quantity_u64}
use kanari_evm.Storage.Keys.{codes}
use kanari_evm.Storage.ChainStore.{save_block, receipt_puts}
use kanari_evm.Json.{Value, null, string, array, object, cons, nil, field, end, Fields, get, lit}
use kanari_evm.Execution.Tx.{decode, envelope_env, check_chain_id}
use kanari_evm.Execution.Node.{KanariNode, block_number, latest_number, pending_base_fee}
use kanari_evm.Execution.Seal.{
  send_raw_transaction, seal_raw, seal_raw_with_fee, transact_raw, credit_burned,
  credit_beneficiary, rebuild_smt, save_sealed, sealed_block, sealed_receipt, execution_summary,
}
use kanari_evm.Execution.Seal.Chain.{IsValid}
use kanari_evm.Execution.Seal.Ledger.{Extends}
use kanari_evm.Rpc.Params.{
  panicked, parse_u256, parse_bytes, take_parsed, call_request_from_json, log_addresses, log_topics,
  log_range_from_json, parse_gas_price,
}
use kanari_evm.Rpc.Response.{RpcResponse}
use kanari_evm.Rpc.Handlers.Blocks.{
  get_transaction_receipt, get_logs_json, fee_history, block_count,
}
use kanari_evm.Rpc.Handlers.Calls.{send_raw}
use kanari_evm.Rpc.Handlers.Logs.{Answers, get_logs_json-Answers}
use kanari_evm.Rpc.Handlers.History.{History, fee_history-History}
use kanari_evm.Rpc.Server.{
  RpcBody, many, dispatch_inner, run_method, handle_batch, inner_handle_rpc, crashed,
}
use kanari_evm.Rpc.Request.{RpcRequest, method_of, request_from_value}
use kanari_evm.Rpc.Server.Safety.{Reach, here, next, request, Reach-IsValid}
use kanari_evm.Rpc.Server.Batches.{AllAnswered, inner_handle_rpc-AllAnswered}
use kanari_evm.Rpc.Server.Panics.{inner_handle_rpc-crashed, IsAscii}
use kanari_evm.Rpc.Server.Receipts.{send_raw-get_transaction_receipt}
use kanari_evm.Samples.Machines.{sample}
use kanari_evm.Samples.Nodes.{first_node, first_node-IsValid, first_raw}
use kanari_evm.Samples.Servers.{server, plain_forms}

abbrev send_request : RpcRequest
send_request = record {
  id = lit "1";
  method = codes "eth_sendRawTransaction";
  params = array (cons (string first_raw) nil);
}

served : Reach server first_node (dispatch_inner server send_request 100 first_node).1
served = next here (request send_request 100 (omega arith))

Reach-IsValid_example :
    IsValid sample (dispatch_inner server send_request 100 first_node).1
    × Extends sample first_node (dispatch_inner server send_request 100 first_node).1
Reach-IsValid_example = Reach-IsValid server served first_node-IsValid

abbrev chain_id_item : Value
chain_id_item =
    object (field (codes "id") (lit "1") (field (codes "method") (lit "eth_chainId") end))

abbrev items : List Value
items = chain_id_item ∷ null ∷ []

answering :
    (body : RpcBody) × ((inner_handle_rpc server
        (λ v. [])
        (λ i. 100)
        (array (cons chain_id_item (cons null nil)))
        first_node).0
      ≡ ok body)
unfolding inner_handle_rpc handle_batch request_from_value dispatch_inner method_of run_method get
    bytes_eq
answering = (_, refl)

inner_handle_rpc-AllAnswered_example :
    (rs : List RpcResponse) × (answering.0 ≡ many rs) × AllAnswered items rs
inner_handle_rpc-AllAnswered_example =
    inner_handle_rpc-AllAnswered server (λ v. []) (λ i. 100) chain_id_item (cons null nil)
      first_node answering.1

-- 2^128 as a gas price.
-- A gas price of 2^128 is a panic.
abbrev dear : Fields
dear = field (codes "gasPrice") (lit "0x100000000000000000000000000000000") end

dear_panics : call_request_from_json plain_forms dear ≡ err panicked
unfolding call_request_from_json take_parsed parse_gas_price parse_u256 get bytes_eq trim_0x
    from_str_radix16 digits_value to_digit
dear_panics = refl

abbrev blanks : ℕ → Text
blanks zero = []
blanks (suc n) = 32 ∷ blanks n

blanks-IsAscii : (n : ℕ) → IsAscii (blanks n)
blanks-IsAscii zero = tt
blanks-IsAscii (suc n) = (omega arith, blanks-IsAscii n)

inner_handle_rpc-crashed_example :
    inner_handle_rpc server (λ v. blanks 159 ++ 0xe9 ∷ []) (λ i. 100) chain_id_item first_node
    ≡ (err crashed, first_node)
inner_handle_rpc-crashed_example =
    inner_handle_rpc-crashed server (λ v. blanks 159 ++ 0xe9 ∷ []) (λ i. 100)
      (field (codes "id") (lit "1") (field (codes "method") (lit "eth_chainId") end)) first_node
      (blanks 159) [] 0xe9 refl (blanks-IsAscii 159) refl (omega arith) (omega arith)

fee_history-History_example :
    (1 ≤ block_count (array (cons (lit "0x5") nil)))
    × (block_count (array (cons (lit "0x5") nil)) ≤ 32)
    × History server first_node
        (block_count (array (cons (lit "0x5") nil)))
        (fee_history server (array (cons (lit "0x5") nil)) first_node)
fee_history-History_example = fee_history-History server (array (cons (lit "0x5") nil)) first_node

-- From the earliest block on, logs of one address.
abbrev asked : Fields
asked = field (codes "fromBlock") (lit "earliest") (field (codes "address") (string (5 ∷ [])) end)

asking : (v : Value) × (get_logs_json server (array (cons (object asked) nil)) first_node ≡ ok v)
unfolding get_logs_json log_range_from_json log_addresses log_topics get bytes_eq
asking = (_, refl)

get_logs_json-Answers_example : Answers server (array (cons (object asked) nil)) first_node asking.0
get_logs_json-Answers_example =
    get_logs_json-Answers server (array (cons (object asked) nil)) first_node asking.0
      first_node-IsValid asking.1

abbrev raw_params : Value
raw_params = array (cons (string first_raw) nil)

sending :
    (n : KanariNode sample) × (send_raw server 100 raw_params first_node
      ≡ (ok (string first_raw), n))
unfolding send_raw parse_bytes send_raw_transaction seal_raw seal_raw_with_fee decode envelope_env
    check_chain_id transact_raw credit_burned credit_beneficiary rebuild_smt save_sealed
    sealed_block sealed_receipt execution_summary save_block receipt_puts base_fee_share
    pending_base_fee block_number latest_number bytes_eq
sending = (_, refl)

send_raw-get_transaction_receipt_example :
    (fields : Fields) × (get_transaction_receipt server
        (array (cons (string first_raw) nil))
        sending.0
      ≡ ok (object fields))
    × (get (codes "transactionHash") fields ≡ some (string first_raw))
    × (get (codes "blockNumber") fields
        ≡ some (string (quantity_u64 (block_number sample first_node + 1))))
send_raw-get_transaction_receipt_example =
    send_raw-get_transaction_receipt server 100 raw_params (string first_raw) first_node sending.0
      first_node-IsValid refl (λ raw. refl) sending.1
