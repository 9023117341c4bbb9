-- ===== src/Execution/TxView.antt =====
-- `decode_tx_view` of `crates/move-execution/src/views.rs`: what the views show of a raw transaction.
pub mod Agreement
use Prim.Native.String.{String}
use kanari_evm.Prelude.{ℕ, Option, none, some, Bytes, Result, ok, err}
use kanari_evm.Types.Gas.{effective_gas_price}
use kanari_evm.Execution.Tx.{
  TxEnvelope, legacy, eip2930, eip1559, eip7702, eip4844, LegacyTx, kind_address,
}

pub record TxView : Type 0 where
  pub nonce : ℕ
  pub gas_limit : ℕ
  pub effective_gas_price : ℕ
  pub to : Option Bytes
  pub value : ℕ
  pub input : Bytes
  pub tx_type : ℕ
  pub chain_id : ℕ

abbrev pub legacy_view : LegacyTx → Option ℕ → Option TxView
legacy_view tx none = none
legacy_view tx (some chain_id) = some (record {
  nonce = tx.nonce;
  gas_limit = tx.gas_limit;
  effective_gas_price = tx.gas_price;
  to = kind_address tx.to;
  value = tx.value;
  input = tx.input;
  tx_type = 0;
  chain_id = chain_id;
})

unfoldable pub envelope_view : ℕ → TxEnvelope → Option TxView
unfolding kind_address
envelope_view base_fee_wei (legacy tx) = legacy_view tx tx.chain_id
envelope_view base_fee_wei (eip2930 tx) = some (record {
  nonce = tx.nonce;
  gas_limit = tx.gas_limit;
  effective_gas_price = tx.gas_price;
  to = kind_address tx.to;
  value = tx.value;
  input = tx.input;
  tx_type = 1;
  chain_id = tx.chain_id;
})
envelope_view base_fee_wei (eip1559 tx) = some (record {
  nonce = tx.nonce;
  gas_limit = tx.gas_limit;
  effective_gas_price =
      effective_gas_price tx.max_fee_per_gas base_fee_wei tx.max_priority_fee_per_gas;
  to = kind_address tx.to;
  value = tx.value;
  input = tx.input;
  tx_type = 2;
  chain_id = tx.chain_id;
})
envelope_view base_fee_wei (eip7702 tx) = some (record {
  nonce = tx.nonce;
  gas_limit = tx.gas_limit;
  effective_gas_price =
      effective_gas_price tx.max_fee_per_gas base_fee_wei tx.max_priority_fee_per_gas;
  to = some tx.to;
  value = tx.value;
  input = tx.input;
  tx_type = 4;
  chain_id = tx.chain_id;
})
envelope_view base_fee_wei (eip4844 tx) = none

abbrev view_of : ℕ → Result String TxEnvelope → Option TxView
view_of base_fee_wei (ok envelope) = envelope_view base_fee_wei envelope
view_of base_fee_wei (err e) = none

unfoldable pub decode_tx_view : (Bytes → Result String TxEnvelope) → Bytes → ℕ → Option TxView
unfolding envelope_view
decode_tx_view decode_2718_exact raw base_fee_wei = view_of base_fee_wei (decode_2718_exact raw)
