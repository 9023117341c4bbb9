-- ===== src/Cli/Commands/Tests.antt =====
-- Starts on the sample environment: a new chain, and a fork of a remote node that answers every call
-- alike.
use Prim.Native.String.{String}
use kanari_evm.Prelude.{
  List, ℕ, ◌≡◌, refl, false, none, some, [], ◌∷◌, Bytes, Result, ok, to_be_bytes, bytes_eq, length,
  ◌+◌, ◌^◌, ◌<◌, ◌++◌, arith,
}
use kanari_evm.Types.Text.{Text}
use kanari_evm.Storage.Keys.{codes}
use kanari_evm.Storage.Engine.{last_put}
use kanari_evm.Storage.ChainStore.{
  init_meta, set_faucet_key, load_faucet_key, stored_key, stored_chain_id, get_u64, stored_u64,
  height, load_blocks, load_blocks_from,
}
use kanari_evm.Json.{Value, object, field, end, lit, array, string, cons, nil}
use kanari_evm.Execution.ChainSpec.{
  devnet, with_alloc, apply_genesis, apply_alloc, apply_code, apply_storage, genesis_account,
}
use kanari_evm.Execution.Commitment.{smt_entries}
use kanari_evm.Execution.Node.{KanariNode}
use kanari_evm.Execution.Seal.{rebuild_smt}
use kanari_evm.Execution.Open.{open_node, open_fresh, set_genesis}
use kanari_evm.Execution.Faucet.Keys.{install_faucet_key}
use kanari_evm.Cli.{NetworkMode, info, init_logging, level_text}
use kanari_evm.Cli.Boot.{run}
use kanari_evm.Cli.Spec.{StartOptions, start_spec}
use kanari_evm.Cli.Boot.Exit.{IsErr}
use kanari_evm.Cli.Boot.Key.{KeyTaken, key_to_take, run-KeyTaken}
use kanari_evm.Cli.Commands.{Surroundings, ForkArgs, no_imports, fork_command}
use kanari_evm.Cli.Commands.Forked.{fork_command-IsErr}
use kanari_evm.Storage.Records.{SealedBlock}
use kanari_evm.Execution.Seal.Chain.{IsValid}
use kanari_evm.Execution.Open.Started.{Openable, blank}
use kanari_evm.Rpc.Server.{dispatch_inner}
use kanari_evm.Rpc.Request.{RpcRequest}
use kanari_evm.Rpc.Server.Safety.{Reach, here, next, request}
use kanari_evm.Cli.Boot.Ready.{run-Reach}
use kanari_evm.Samples.Nodes.{first_raw}
use kanari_evm.Samples.Stores.{Memory, memory, no_entries}
use kanari_evm.Samples.Machines.{sample}
use kanari_evm.Samples.Servers.{server, plain_forms, plain_wallet}
use kanari_evm.Samples.Logs.{process}

abbrev old_key : Bytes
old_key = to_be_bytes 32 5

abbrev new_key : Bytes
new_key = to_be_bytes 32 7

abbrev plain_start : StartOptions
plain_start = record {
  network = NetworkMode.devnet;
  faucets = [];
  faucet_key = none;
  log_level = info;
  chain_id_override = none;
  genesis_extra = no_imports;
}

-- A database that holds a key of the faucet already.
keyed : (db : Memory) × (set_faucet_key memory no_entries old_key ≡ ok db)
unfolding set_faucet_key
keyed = (_, refl)

started :
    (n : KanariNode sample) × (run sample plain_wallet process 0 false none new_key false
        plain_start keyed.0
      ≡ ok n)
unfolding run init_logging level_text start_spec devnet with_alloc keyed open_node open_fresh
    set_genesis init_meta rebuild_smt smt_entries apply_genesis apply_alloc apply_code apply_storage
    genesis_account load_faucet_key stored_key stored_chain_id get_u64 stored_u64 set_faucet_key
    install_faucet_key last_put bytes_eq to_be_bytes
started = (_, refl)

run-KeyTaken_example :
    KeyTaken sample plain_wallet process
      (key_to_take sample plain_wallet process none false new_key)
      started.0
run-KeyTaken_example =
    run-KeyTaken sample plain_wallet process 0 false none new_key false plain_start keyed.0
      started.0 started.1

abbrev remote : Text → ℕ → Value → Result String Value
remote url i body = ok (object (field (codes "result") (lit "0x10") end))

abbrev fork_args : ForkArgs
fork_args = record {
  rpc_url = some (codes "http://localhost:8545");
  block = codes "latest";
  account = (5 ∷ []) ∷ [];
  slot = [];
  faucet_key = none;
  log_level = info;
}

abbrev around : Surroundings
around = record { genesis_spec = 0; exists = false; files = none; generated = new_key }

fork_command-IsErr_example :
    IsErr (
      fork_command sample plain_wallet process plain_forms remote around false fork_args no_entries)
fork_command-IsErr_example =
    fork_command-IsErr sample plain_wallet process plain_forms remote around false fork_args
      no_entries

keyed-Openable : Openable sample none keyed.0 []
unfolding keyed stored_chain_id get_u64 stored_u64 height load_blocks load_blocks_from last_put
    bytes_eq
keyed-Openable = blank refl refl (record { top = refl; loaded = refl })

started-empty : started.0.blocks ≡ []
unfolding started
started-empty = refl

abbrev send_request : RpcRequest
send_request = record {
  id = lit "1";
  method = codes "eth_sendRawTransaction";
  params = array (cons (string first_raw) nil);
}

abbrev sent : KanariNode sample
sent = (dispatch_inner server send_request 100 started.0).1

room : length started.0.blocks + 1 < 2 ^ 64
room = rw started-empty (omega arith)

served : Reach server started.0 sent
served = next here (request send_request 100 room)

run-Reach_example : IsValid sample sent × ((more : List SealedBlock) × (sent.blocks ≡ [] ++ more))
run-Reach_example =
    run-Reach server process 0 false none new_key false plain_start keyed.0 [] started.0 sent
      keyed-Openable started.1 served
