-- ===== src/Execution/Call/Tests.antt =====
-- A call on a node whose transactions are all one legacy transaction.
use kanari_evm.Prelude.{◌≡◌, refl, some, none, [], ◌∷◌, ok}
use kanari_evm.Execution.Tx.{
  TxKind, LegacyTx, PreparedTx, legacy, decode, envelope_env, check_chain_id,
}
use kanari_evm.Execution.Machine.{Machine}
use kanari_evm.Execution.Node.{KanariNode, no_metrics}
use kanari_evm.Execution.Call.{eth_call}
use kanari_evm.Execution.Call.Agreement.{request_of, executed, Predicts, eth_call-Predicts}
use kanari_evm.Samples.Stores.{no_entries}
use kanari_evm.Samples.Machines.{sample}
use kanari_evm.Samples.Nodes.{sample_spec}

abbrev payment : LegacyTx
payment = record {
  chain_id = some 1;
  nonce = 0;
  gas_price = 2_000_000_000;
  gas_limit = 21000;
  to = TxKind.call (5 ∷ []);
  value = 0;
  input = [];
}

abbrev legacy_machine : Machine
legacy_machine = record sample { decode_2718_exact = λ raw. ok (legacy payment) }

abbrev node : KanariNode legacy_machine
node = record {
  spec = sample_spec;
  db = [];
  blocks = [];
  receipts = [];
  store = no_entries;
  genesis_root = [];
  faucet_key = none;
  dag_sender = none;
  metrics = no_metrics;
}

decoding :
    (tx : PreparedTx) × (decode legacy_machine.decode_2718_exact legacy_machine.recover_signer [] 1
      ≡ ok tx)
unfolding decode envelope_env check_chain_id
decoding = (_, refl)

eth_call-Predicts_example :
    Predicts
      (eth_call legacy_machine 100 (request_of (9 ∷ []) payment) node)
      (executed legacy_machine 100 node decoding.0)
eth_call-Predicts_example =
    eth_call-Predicts legacy_machine 100 node [] (9 ∷ []) payment decoding.0 refl refl decoding.1
