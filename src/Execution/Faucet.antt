-- ===== src/Execution/Faucet.antt =====
-- `crates/move-execution/src/faucet.rs`. Signing is alloy's: a record holds what the faucet uses of it.
pub mod Limits
pub mod Keys
mod Tests
use Prim.Native.String.{String}
use kanari_evm.Prelude.{
  ℕ, ◌+◌, ◌*◌, Bool, true, false, Option, none, some, List, [], Bytes, Result, ok, err, ltb,
  if◌then◌else◌,
}
use kanari_evm.Types.Word.{u128_max, saturating_mul}
use kanari_evm.Execution.Errors.{
  NodeResult, text, invalid_transaction, bad_signature, execution, storage, no_faucet_configured,
  from_store, or_error,
}
use kanari_evm.Execution.Tx.{Eip1559Tx, call}
use kanari_evm.Execution.Machine.{Machine}
use kanari_evm.Execution.Action.{Action, pure, lift, gets, modify, ◌>>=◌, ◌>>◌}
use kanari_evm.Execution.Commitment.{balance_of, nonce_of}
use kanari_evm.Execution.Node.{KanariNode, max_faucet_eth_per_request, wei_in_eth, pending_base_fee}
use kanari_evm.Execution.Seal.{send_raw_transaction}

-- `sign` signs the transaction and encodes its envelope.
pub record Wallet : Type 1 where
  pub Signer : Type 0
  pub from_bytes : Bytes → Result String Signer
  pub address : Signer → Bytes
  pub sign : Signer → Eip1559Tx → Result String Bytes

abbrev pub faucet_cap : ℕ
faucet_cap = max_faucet_eth_per_request * wei_in_eth

module _ (m : Machine) (w : Wallet) where
  open w use {Signer, from_bytes, address, sign}

  abbrev pub key_or : Option Bytes → NodeResult Bytes
  key_or none = err no_faucet_configured
  key_or (some secret) = ok secret

  abbrev pub check_amount : ℕ → NodeResult (Unit {0})
  check_amount amount_wei =
      if ltb faucet_cap amount_wei
      then err (invalid_transaction (text "faucet amount exceeds per-request cap of 10000 ETH"))
      else ok tt

  abbrev pub gas_cost : ℕ → ℕ
  gas_cost fee = saturating_mul u128_max 21_000 fee

  abbrev pub check_balance : ℕ → ℕ → NodeResult (Unit {0})
  check_balance balance needed =
      if ltb balance needed then err (execution (text "faucet account is dry")) else ok tt

  -- The transfer, at the pending base fee for cap and tip.
  abbrev pub drip : ℕ → ℕ → ℕ → Bytes → ℕ → Eip1559Tx
  drip own nonce fee to amount_wei = record {
    chain_id = own;
    nonce = nonce;
    gas_limit = 21_000;
    max_fee_per_gas = fee;
    max_priority_fee_per_gas = fee;
    to = call to;
    value = amount_wei;
    input = [];
    access_list = [];
  }

  unfoldable pub faucet : ℕ → Bytes → ℕ → Action (KanariNode m) Bytes
  faucet now_secs to amount_wei = do
    lift (check_amount amount_wei)
    key ← gets (λ node. node.faucet_key)
    secret ← lift (key_or key)
    signer ← lift (or_error storage (from_bytes secret))
    db ← gets (λ node. node.db)
    balance ← lift (balance_of m db (address signer))
    fee ← gets (λ node. pending_base_fee m node)
    lift (check_balance balance (amount_wei + gas_cost fee))
    nonce ← lift (nonce_of m db (address signer))
    own ← gets (λ node. node.spec.chain_id)
    raw ← lift (or_error bad_signature (sign signer (drip own nonce fee to amount_wei)))
    send_raw_transaction m now_secs raw
