-- ===== src/Execution/Seal/SameChain.antt =====
-- Nodes with the same chain: what a failed seal leaves.
use kanari_evm.Prelude.{◌≡◌, refl, List, Bytes, ok}
use kanari_evm.Execution.Machine.{Machine, IsChainKey}
use kanari_evm.Execution.Node.{KanariNode}

module _ (m : Machine) where
  open m use {engine, keccak256}

  -- The chain of the second node is that of the first: only the state in memory and the tree's part
  -- of the store may differ.
  pub record SameChain (n n' : KanariNode m) : Type 0 where
    pub spec : n'.spec ≡ n.spec
    pub blocks : n'.blocks ≡ n.blocks
    pub receipts : n'.receipts ≡ n.receipts
    pub metrics : n'.metrics ≡ n.metrics
    pub dag_sender : n'.dag_sender ≡ n.dag_sender
    pub faucet_key : n'.faucet_key ≡ n.faucet_key
    pub stored : (key : Bytes) → IsChainKey key → engine.get n'.store key ≡ engine.get n.store key

  pub SameChain-refl : (n : KanariNode m) → SameChain n n
  SameChain-refl n = record {
    spec = refl;
    blocks = refl;
    receipts = refl;
    metrics = refl;
    dag_sender = refl;
    faucet_key = refl;
    stored = λ key h. refl;
  }

  pub SameChain-db : (n : KanariNode m) (db : m.State) → SameChain n (record n { db = db })
  SameChain-db n db = record {
    spec = refl;
    blocks = refl;
    receipts = refl;
    metrics = refl;
    dag_sender = refl;
    faucet_key = refl;
    stored = λ key h. refl;
  }

  pub SameChain-rebuilt :
      (n : KanariNode m) (db : m.State) (entries : List (Bytes × Bytes)) (store : engine.Db)
      → m.rebuild n.store entries ≡ ok store
      → SameChain n (record n { db = db; store = store })
  SameChain-rebuilt n db entries store h = record {
    spec = refl;
    blocks = refl;
    receipts = refl;
    metrics = refl;
    dag_sender = refl;
    faucet_key = refl;
    stored = λ key k. m.get-rebuild n.store store entries key h k;
  }
