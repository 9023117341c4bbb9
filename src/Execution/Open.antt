-- ===== src/Execution/Open.antt =====
-- `KanariNode::open` and `migrate_legacy_journal` of `crates/move-execution/src/node.rs`.
pub mod Steps
pub mod Reopened
pub mod Started
mod Tests
use kanari_evm.Prelude.{
  ℕ, Option, none, some, List, [], ◌∷◌, Bytes, Result, ok, err, ◌==◌, if◌then◌else◌, is_empty,
  to_be_bytes,
}
use Prim.Native.String.{String}
use kanari_evm.Storage.Records.{SealedBlock}
use kanari_evm.Storage.ChainStore.{
  StoreResult, stored_chain_id, stored_genesis_alloc, init_meta, load_blocks, set_faucet_key,
  load_faucet_key,
}
use kanari_evm.Execution.Errors.{
  NodeResult, storage, chain_id_mismatch, legacy_chain_id_mismatch, from_store, or_error,
}
use kanari_evm.Execution.Machine.{Machine}
use kanari_evm.Execution.Action.{Action, pure, lift, gets, modify, ◌>>=◌, ◌>>◌}
use kanari_evm.Execution.ChainSpec.{KanariChainSpec, apply_genesis}
use kanari_evm.Execution.Node.{KanariNode, no_metrics}
use kanari_evm.Execution.Seal.{rebuild_smt}
use kanari_evm.Execution.Replay.{replay_blocks}

pub record Journal : Type 0 where
  pub chain_id : ℕ
  pub genesis_alloc : List (Bytes × ℕ)
  pub blocks : List SealedBlock

-- What the file system holds of the old format: the journal as it is read and parsed, the key of the
-- sidecar where there is one that parses, and whether the journal can be renamed.
pub record LegacyFiles : Type 0 where
  pub journal : Result String Journal
  pub sidecar : Option Bytes
  pub rename : Result String (Unit {0})

abbrev kept_or : List (Bytes × ℕ) → List (Bytes × ℕ) → List (Bytes × ℕ)
kept_or own stored = if is_empty stored then own else stored

module _ (m : Machine) where
  open m use {engine}

  abbrev pub read_store : {A : Type 0} → (engine.Db → StoreResult A) → Action (KanariNode m) A
  read_store f node = (from_store (f node.store), node)

  abbrev pub put_store : NodeResult engine.Db → Action (KanariNode m) (Unit {0})
  put_store (ok store) node = (ok tt, record node { store = store })
  put_store (err e) node = (err e, node)

  abbrev pub write_store : (engine.Db → StoreResult engine.Db) → Action (KanariNode m) (Unit {0})
  write_store f node = put_store (from_store (f node.store)) node

  -- A new node over a store, before anything is read.
  abbrev pub new_node : KanariChainSpec → engine.Db → KanariNode m
  new_node spec store = record {
    spec = spec;
    db = m.empty_state;
    blocks = [];
    receipts = [];
    store = store;
    genesis_root = to_be_bytes 32 0;
    faucet_key = none;
    dag_sender = none;
    metrics = no_metrics;
  }

  -- The genesis state and its root.
  unfoldable pub set_genesis : Action (KanariNode m) (Unit {0})
  set_genesis = do
    modify (λ node. record node { db = apply_genesis m node.spec node.db })
    root ← rebuild_smt m
    modify (λ node. record node { genesis_root = root })

  abbrev pub set_alloc : List (Bytes × ℕ) → KanariNode m → KanariNode m
  set_alloc alloc node = record node {
    spec = record node.spec { genesis_alloc = kept_or node.spec.genesis_alloc alloc };
  }

  abbrev pub take_sidecar : Option Bytes → Action (KanariNode m) (Unit {0})
  take_sidecar none = pure tt
  take_sidecar (some secret) = do
    write_store (λ db. set_faucet_key engine db secret)
    modify (λ node. record node { faucet_key = some secret })

  -- `migrate_legacy_journal`
  unfoldable pub migrate_legacy_journal : LegacyFiles → Action (KanariNode m) (List SealedBlock)
  migrate_legacy_journal files = do
    journal ← lift (or_error storage files.journal)
    own ← gets (λ node. node.spec.chain_id)
    lift (
        if journal.chain_id == own
        then ok tt
        else err (storage (legacy_chain_id_mismatch journal.chain_id own)))
    modify (set_alloc journal.genesis_alloc)
    spec ← gets (λ node. node.spec)
    write_store (λ db. init_meta engine db spec.chain_id spec.genesis_alloc)
    take_sidecar files.sidecar
    lift (or_error storage files.rename)
    pure journal.blocks

  -- A database with no chain id: an old journal is migrated, or the chain is new.
  unfoldable pub open_fresh : Option LegacyFiles → Action (KanariNode m) (Unit {0})
  open_fresh (some files) = do
    pending ← migrate_legacy_journal files
    set_genesis
    replay_blocks m pending
  open_fresh none = do
    spec ← gets (λ node. node.spec)
    write_store (λ db. init_meta engine db spec.chain_id spec.genesis_alloc)
    set_genesis

  abbrev pub check_chain : ℕ → ℕ → NodeResult (Unit {0})
  check_chain stored_chain own =
      if stored_chain == own then ok tt else err (storage (chain_id_mismatch stored_chain own))

  -- A database with a chain: it must be this node's, and its blocks are replayed.
  unfoldable pub open_stored : ℕ → Action (KanariNode m) (Unit {0})
  open_stored stored_chain = do
    own ← gets (λ node. node.spec.chain_id)
    lift (check_chain stored_chain own)
    alloc ← read_store (stored_genesis_alloc engine)
    modify (set_alloc alloc)
    set_genesis
    blocks ← read_store (load_blocks engine)
    replay_blocks m blocks

  abbrev pub open_chain : Option LegacyFiles → Option ℕ → Action (KanariNode m) (Unit {0})
  open_chain files none = open_fresh files
  open_chain files (some stored_chain) = open_stored stored_chain

  abbrev pub keep_key : Option Bytes → KanariNode m → KanariNode m
  keep_key none node = node
  keep_key (some secret) node = record node { faucet_key = some secret }

  -- `open`, from the new node: what is left where it fails is the node with its store.
  unfoldable pub open_node : Option LegacyFiles → Action (KanariNode m) (Unit {0})
  open_node files = do
    stored ← read_store (stored_chain_id engine)
    open_chain files stored
    secret ← read_store (load_faucet_key engine)
    modify (keep_key secret)
