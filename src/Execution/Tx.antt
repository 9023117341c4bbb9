-- ===== src/Execution/Tx.antt =====
-- Signed transactions and `PreparedTx` of `crates/move-execution/src/execution.rs`. The envelopes
-- have the fields of the alloy types that the program reads.
pub mod Decode
use Prim.Native.String.{String}
use kanari_evm.Prelude.{
  ℕ, Bool, true, false, not, Option, none, some, List, [], Bytes, Result, ok, err, ◌>>=◌, ok_or,
  ◌==◌, if◌then◌else◌,
}
use kanari_evm.Execution.Errors.{
  NodeError, NodeResult, text, invalid_transaction, bad_signature, wrong_chain_id,
  unsupported_blob_transactions, or_error,
}

pub data TxKind : Type 0 where
  call : Bytes → TxKind
  create : TxKind

-- Addresses with the storage slots that are listed for each.
abbrev pub AccessList : Type 0
AccessList = List (Bytes × List ℕ)

pub record LegacyTx : Type 0 where
  pub chain_id : Option ℕ
  pub nonce : ℕ
  pub gas_price : ℕ
  pub gas_limit : ℕ
  pub to : TxKind
  pub value : ℕ
  pub input : Bytes

pub record Eip2930Tx : Type 0 where
  pub chain_id : ℕ
  pub nonce : ℕ
  pub gas_price : ℕ
  pub gas_limit : ℕ
  pub to : TxKind
  pub value : ℕ
  pub input : Bytes
  pub access_list : AccessList

pub record Eip1559Tx : Type 0 where
  pub chain_id : ℕ
  pub nonce : ℕ
  pub gas_limit : ℕ
  pub max_fee_per_gas : ℕ
  pub max_priority_fee_per_gas : ℕ
  pub to : TxKind
  pub value : ℕ
  pub input : Bytes
  pub access_list : AccessList

pub record Eip7702Tx : Type 0 where
  pub chain_id : ℕ
  pub nonce : ℕ
  pub gas_limit : ℕ
  pub max_fee_per_gas : ℕ
  pub max_priority_fee_per_gas : ℕ
  pub to : Bytes
  pub value : ℕ
  pub input : Bytes
  pub access_list : AccessList
  pub authorization_list : List Bytes

-- Of a blob transaction the program reads no field. The chain id stands for what it names.
pub record Eip4844Tx : Type 0 where
  pub chain_id : ℕ

pub data TxEnvelope : Type 0 where
  legacy : LegacyTx → TxEnvelope
  eip2930 : Eip2930Tx → TxEnvelope
  eip1559 : Eip1559Tx → TxEnvelope
  eip7702 : Eip7702Tx → TxEnvelope
  eip4844 : Eip4844Tx → TxEnvelope

-- What revm executes.
pub record TxEnv : Type 0 where
  pub caller : Bytes
  pub gas_limit : ℕ
  pub gas_price : ℕ
  pub kind : TxKind
  pub value : ℕ
  pub input : Bytes
  pub nonce : ℕ
  pub chain_id : Option ℕ
  pub gas_priority_fee : Option ℕ
  pub access_list : AccessList
  pub tx_type : ℕ
  pub authorization_list : List Bytes

pub record PreparedTx : Type 0 where
  pub sender : Bytes
  pub to : Option Bytes
  pub inner : TxEnv

-- The environment of an envelope, with the chain id that it is for. The type is left at its default
-- 0 but for EIP-7702.
unfoldable pub envelope_env : Bytes → TxEnvelope → NodeResult (ℕ × TxEnv)
envelope_env sender (legacy tx) = do
  tx_chain_id ←
      ok_or (invalid_transaction (text "unprotected legacy transactions are rejected")) tx.chain_id
  ok (
    tx_chain_id,
    record {
      caller = sender;
      gas_limit = tx.gas_limit;
      gas_price = tx.gas_price;
      kind = tx.to;
      value = tx.value;
      input = tx.input;
      nonce = tx.nonce;
      chain_id = some tx_chain_id;
      gas_priority_fee = none;
      access_list = [];
      tx_type = 0;
      authorization_list = [];
    },
  )
envelope_env sender (eip2930 tx) = ok (
  tx.chain_id,
  record {
    caller = sender;
    gas_limit = tx.gas_limit;
    gas_price = tx.gas_price;
    kind = tx.to;
    value = tx.value;
    input = tx.input;
    nonce = tx.nonce;
    chain_id = some tx.chain_id;
    gas_priority_fee = none;
    access_list = tx.access_list;
    tx_type = 0;
    authorization_list = [];
  },
)
envelope_env sender (eip1559 tx) = ok (
  tx.chain_id,
  record {
    caller = sender;
    gas_limit = tx.gas_limit;
    gas_price = tx.max_fee_per_gas;
    kind = tx.to;
    value = tx.value;
    input = tx.input;
    nonce = tx.nonce;
    chain_id = some tx.chain_id;
    gas_priority_fee = some tx.max_priority_fee_per_gas;
    access_list = tx.access_list;
    tx_type = 0;
    authorization_list = [];
  },
)
envelope_env sender (eip7702 tx) = ok (
  tx.chain_id,
  record {
    caller = sender;
    gas_limit = tx.gas_limit;
    gas_price = tx.max_fee_per_gas;
    kind = call tx.to;
    value = tx.value;
    input = tx.input;
    nonce = tx.nonce;
    chain_id = some tx.chain_id;
    gas_priority_fee = some tx.max_priority_fee_per_gas;
    access_list = tx.access_list;
    tx_type = 4;
    authorization_list = tx.authorization_list;
  },
)
envelope_env sender (eip4844 tx) = err unsupported_blob_transactions

unfoldable pub kind_address : TxKind → Option Bytes
kind_address (call address) = some address
kind_address create = none

unfoldable pub check_chain_id : Bytes → ℕ → ℕ × TxEnv → NodeResult PreparedTx
unfolding kind_address
check_chain_id sender chain_id (tx_chain_id, inner) =
    if tx_chain_id == chain_id
    then ok (record { sender = sender; to = kind_address inner.kind; inner = inner })
    else err (wrong_chain_id tx_chain_id chain_id)

-- `TxEnvelope::decode_2718_exact` and `recover_signer` are parameters.
module _ (decode_2718_exact : Bytes → Result String TxEnvelope)
    (recover_signer : TxEnvelope → Result String Bytes) where
  -- `PreparedTx::decode`
  unfoldable pub decode : Bytes → ℕ → NodeResult PreparedTx
  decode raw chain_id = do
    envelope ← or_error invalid_transaction (decode_2718_exact raw)
    sender ← or_error bad_signature (recover_signer envelope)
    found ← envelope_env sender envelope
    check_chain_id sender chain_id found
