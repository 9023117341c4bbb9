-- ===== src/Execution/Faucet/Tests.antt =====
-- A faucet whose account is funded in the sample state.
use kanari_evm.Prelude.{◌≡◌, refl, none, some, [], ◌∷◌, Bytes, ok, bytes_eq}
use kanari_evm.Types.Gas.{base_fee_share}
use kanari_evm.Storage.ChainStore.{save_block, receipt_puts}
use kanari_evm.Execution.Commitment.{balance_of, nonce_of}
use kanari_evm.Execution.Tx.{decode, envelope_env, check_chain_id}
use kanari_evm.Execution.Node.{KanariNode, pending_base_fee, block_number, latest_number}
use kanari_evm.Execution.Seal.{
  send_raw_transaction, seal_raw, seal_raw_with_fee, transact_raw, credit_burned,
  credit_beneficiary, rebuild_smt, save_sealed, sealed_block, sealed_receipt, execution_summary,
}
use kanari_evm.Execution.Faucet.{Wallet, faucet}
use kanari_evm.Execution.Faucet.Limits.{Covered, faucet-Covered}
use kanari_evm.Samples.Machines.{sample, put_info}
use kanari_evm.Samples.Nodes.{first_node}

abbrev wallet : Wallet
wallet = record {
  Signer = Bytes;
  from_bytes = λ secret. ok secret;
  address = λ signer. signer;
  sign = λ signer tx. ok (tx.nonce ∷ []);
}

abbrev funded : KanariNode sample
funded = record first_node {
  db =
      put_info [] (9 ∷ [])
        (record { balance = 1_000_000_000_000_000_000; nonce = 0; code_hash = []; code = none });
  faucet_key = some (9 ∷ []);
}

dripping :
    (n : KanariNode sample) × (faucet sample wallet 100 (5 ∷ []) 1000 funded ≡ (ok (0 ∷ []), n))
unfolding faucet balance_of nonce_of send_raw_transaction seal_raw seal_raw_with_fee decode
    envelope_env check_chain_id transact_raw credit_burned credit_beneficiary rebuild_smt
    save_sealed sealed_block sealed_receipt execution_summary save_block receipt_puts base_fee_share
    pending_base_fee block_number latest_number bytes_eq
dripping = (_, refl)

faucet-Covered_example : Covered sample wallet 100 (5 ∷ []) 1000 funded (0 ∷ []) dripping.0
faucet-Covered_example =
    faucet-Covered sample wallet 100 (5 ∷ []) 1000 funded dripping.0 (0 ∷ []) dripping.1
