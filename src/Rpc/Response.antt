-- ===== src/Rpc/Response.antt =====
-- The responses of `crates/server_rpc/src/rpc.rs`. A handler gives a result, an error with its code,
-- or panics; the texts of errors are constructors that carry what they show.
use Prim.Native.String.{String}
use kanari_evm.Prelude.{Option, none, some, Result, ok, err}
use kanari_evm.Prelude.Int.{ℤ, negsuc}
use kanari_evm.Types.Text.{Text}
use kanari_evm.Json.{Value}
use kanari_evm.Execution.Errors.{NodeError, NodeResult}
use kanari_evm.Rpc.Params.{invalid, panicked, Parsed}

pub data RpcMessage : Type 0 where
  text : String → RpcMessage
  node_message : NodeError → RpcMessage
  must_be_boolean : String → RpcMessage
  method_not_found : Text → RpcMessage

pub record RpcErrorBody : Type 0 where
  pub code : ℤ
  pub message : RpcMessage

-- The version is "2.0" in every response.
pub record RpcResponse : Type 0 where
  pub id : Value
  pub result : Option Value
  pub error : Option RpcErrorBody

pub data Failure : Type 0 where
  failed : RpcErrorBody → Failure
  panic : Failure

abbrev pub Reply : Type 0 → Type 0
Reply = Result Failure

abbrev pub ok_response : Value → Value → RpcResponse
ok_response id v = record { id = id; result = some v; error = none }

abbrev pub err_response : Value → RpcErrorBody → RpcResponse
err_response id body = record { id = id; result = none; error = some body }

-- -32700, -32600, -32601, -32602 and -32000
abbrev pub parse_error : RpcErrorBody
parse_error = record { code = negsuc 32699; message = text "parse error" }

abbrev pub invalid_request : String → RpcErrorBody
invalid_request s = record { code = negsuc 32599; message = text s }

abbrev pub method_missing : Text → RpcErrorBody
method_missing method = record { code = negsuc 32600; message = method_not_found method }

abbrev pub invalid_params : RpcMessage → RpcErrorBody
invalid_params message = record { code = negsuc 32601; message = message }

abbrev pub node_error : NodeError → RpcErrorBody
node_error e = record { code = negsuc 31999; message = node_message e }

abbrev pub want : {A : Type 0} → String → Option A → Reply A
want message none = err (failed (invalid_params (text message)))
want message (some a) = ok a

abbrev pub of_parsed : {A : Type 0} → Parsed A → Reply A
of_parsed (ok a) = ok a
of_parsed (err (invalid message)) = err (failed (invalid_params (text message)))
of_parsed (err panicked) = err panic

abbrev pub of_node : {A : Type 0} → NodeResult A → Reply A
of_node (ok a) = ok a
of_node (err e) = err (failed (node_error e))

abbrev pub of_flags : {A : Type 0} → Result String A → Reply A
of_flags (ok a) = ok a
of_flags (err key) = err (failed (invalid_params (must_be_boolean key)))
