-- ===== src/Samples/Nodes.antt =====
-- A single node with an empty chain, on the sample environment.
use kanari_evm.Prelude.{refl, none, [], ◌∷◌, Bytes}
use kanari_evm.Storage.ChainStore.{height, load_blocks, load_blocks_from, get_u64, stored_u64}
use kanari_evm.Storage.ChainStore.History.{Holds}
use kanari_evm.Execution.ChainSpec.{KanariChainSpec}
use kanari_evm.Execution.Node.{KanariNode, no_metrics}
use kanari_evm.Execution.Seal.Chain.{IsValid}
use kanari_evm.Samples.Stores.{memory, no_entries}
use kanari_evm.Samples.Machines.{sample}

abbrev pub sample_spec : KanariChainSpec
sample_spec = record {
  chain_id = 1;
  spec_id = 0;
  genesis_alloc = [];
  genesis_code = [];
  genesis_storage = [];
  base_fee_wei = 1_000_000_000;
}

abbrev pub first_node : KanariNode sample
first_node = record {
  spec = sample_spec;
  db = [];
  blocks = [];
  receipts = [];
  store = no_entries;
  genesis_root = [];
  faucet_key = none;
  dag_sender = none;
  metrics = no_metrics;
}

pub no_entries-Holds : Holds memory no_entries []
unfolding height get_u64 stored_u64 load_blocks load_blocks_from
no_entries-Holds = record { top = refl; loaded = refl }

pub first_node-IsValid : IsValid sample first_node
first_node-IsValid = record { chain = tt; stored = no_entries-Holds }

-- The first transaction of the sample's sender.
abbrev pub first_raw : Bytes
first_raw = 0 ∷ 7 ∷ []
