-- ===== src/Execution/Seal/Outcome.antt =====
-- Every outcome of `seal_raw_with_fee`: a block is appended and stored, or nothing of the chain
-- changes, in memory or on disk.
use kanari_evm.Prelude.{ℕ, ◌≡◌, refl, [], ◌∷◌, ◌++◌, Bytes, ok, err, inl, inr, Result-cases}
use kanari_evm.Storage.Records.{SealedBlock, StoredReceipt}
use kanari_evm.Storage.ChainStore.{save_block}
use kanari_evm.Execution.Errors.{NodeResult}
use kanari_evm.Execution.Tx.{PreparedTx, decode}
use kanari_evm.Execution.Machine.{Machine, ExecutionResult}
use kanari_evm.Execution.Commitment.{smt_entries}
use kanari_evm.Execution.Node.{KanariNode}
use kanari_evm.Execution.Action.{◌>>=◌, ◌>>◌, pure, continue}
use kanari_evm.Execution.Seal.{
  seal_raw_with_fee, next_parent_hash, block_hash, credit_burned, rebuild_smt, save_sealed,
  sealed_block, sealed_receipt, execution_summary,
}
use kanari_evm.Execution.Seal.SameChain.{SameChain, SameChain-refl, SameChain-db, SameChain-rebuilt}
use kanari_evm.Execution.Seal.Steps.{
  credit_burned_db, block_params, transact_raw_ok, transact_raw_err, rebuild_smt_ok,
  rebuild_smt_err, saved_node, save_sealed_ok, save_sealed_err,
}

module _ (m : Machine) where
  open m use {engine, keccak256}

  -- What a sealed transaction leaves.
  pub record Sealed (n : KanariNode m) (raw : Bytes) (number timestamp base_fee : ℕ) (hash : Bytes)
      (n' : KanariNode m) : Type 0 where
    pub block : SealedBlock
    pub receipt : StoredReceipt
    pub before : KanariNode m
    pub same : SameChain m n before
    pub hash_of_raw : hash ≡ keccak256 raw
    pub spec : n'.spec ≡ n.spec
    pub blocks : n'.blocks ≡ n.blocks ++ block ∷ []
    pub receipts : n'.receipts ≡ (hash, receipt) ∷ n.receipts
    pub saved : save_block engine before.store block ((hash, receipt) ∷ []) ≡ ok n'.store
    pub numbered : block.number ≡ number
    pub stamped : block.timestamp ≡ timestamp
    pub priced : block.base_fee ≡ base_fee
    pub one_tx : block.txs ≡ raw ∷ []
    pub linked : block.parent_hash ≡ next_parent_hash m n.blocks
    pub hashed : block.hash ≡ block_hash m block.parent_hash number timestamp
    pub receipt_of_tx :
        (receipt.tx_hash ≡ hash)
        × (receipt.block_number ≡ number)
        × (receipt.block_hash ≡ block.hash)

  abbrev pub Outcome : KanariNode m → Bytes → ℕ → ℕ → ℕ → NodeResult Bytes × KanariNode m → Type 0
  Outcome n raw number timestamp base_fee (ok hash, n') =
      Sealed n raw number timestamp base_fee hash n'
  Outcome n raw number timestamp base_fee (err e, n') = SameChain m n n'

  module _ (n : KanariNode m) (raw : Bytes) (number timestamp base_fee : ℕ) (prepared : PreparedTx)
      (result : ExecutionResult) where
    abbrev made_block : Bytes → SealedBlock
    made_block root =
        sealed_block m raw number timestamp base_fee (next_parent_hash m n.blocks) root

    abbrev made_receipt : StoredReceipt
    made_receipt =
        sealed_receipt m (keccak256 raw) number
          (block_hash m (next_parent_hash m n.blocks) number timestamp) prepared
          (execution_summary result)

    -- The last step: the write, from a node whose chain is still that of the beginning.
    saved-Outcome :
        (db : m.State) (store : engine.Db) (root : Bytes)
        → SameChain m n (record n { db = db; store = store })
        → Outcome n raw number timestamp base_fee (
            (save_sealed m (made_block root) (keccak256 raw) made_receipt >> pure (keccak256 raw))
              (record n { db = db; store = store }))
    unfolding sealed_block sealed_receipt saved_node
    saved-Outcome db store root same =
        elim (Result-cases
          (save_block engine store (made_block root) ((keccak256 raw, made_receipt) ∷ []))) [
            | inr (why, w) ↦
                rw (save_sealed_err m (record n { db = db; store = store }) _ _ _ w) same
            | inl (store', w) ↦
                rw (save_sealed_ok m (record n { db = db; store = store }) _ _ _ w) (record {
                  block = made_block root;
                  receipt = made_receipt;
                  before = record n { db = db; store = store };
                  same = same;
                  hash_of_raw = refl;
                  spec = refl;
                  blocks = refl;
                  receipts = refl;
                  saved = w;
                  numbered = refl;
                  stamped = refl;
                  priced = refl;
                  one_tx = refl;
                  linked = refl;
                  hashed = refl;
                  receipt_of_tx = (refl, refl, refl);
                })
          ]

    -- From the rebuild of the tree on, with whatever state the execution and the credit left.
    rebuilt-Outcome :
        (db : m.State)
        → Outcome n raw number timestamp base_fee (
            (rebuild_smt m >>= (λ root.
                save_sealed m (made_block root) (keccak256 raw) made_receipt
                >> pure (keccak256 raw)))
              (record n { db = db }))
    rebuilt-Outcome db =
        let n1 : KanariNode m = record n { db = db } in
        elim (Result-cases (m.rebuild n.store (smt_entries m (m.cached_accounts db)))) [
          | inr (why, b) ↦ rw (rebuild_smt_err m n1 b) (SameChain-db m n db)
          | inl (store, b) ↦
              let same : SameChain m n (record n { db = db; store = store }) =
                SameChain-rebuilt m n db _ store b in
              elim (Result-cases (m.root_hash store)) [
                | inr (why, r) ↦ rw (rebuild_smt_ok m n1 b, r) same
                | inl (root, r) ↦ rw (rebuild_smt_ok m n1 b, r) (saved-Outcome db store root same)
              ]
        ]

    executed-Outcome :
        (state : m.State)
        → Outcome n raw number timestamp base_fee (
            (credit_burned m (execution_summary result).1 base_fee
                >> (rebuild_smt m >>= (λ root.
                    save_sealed m (made_block root) (keccak256 raw) made_receipt
                    >> pure (keccak256 raw))))
              (record n { db = state }))
    executed-Outcome state =
        rw (credit_burned_db m (execution_summary result).1 base_fee (record n { db = state })) (
          credited
            (credit_burned m (execution_summary result).1 base_fee (record n { db = state })).0
            (credit_burned m (execution_summary result).1 base_fee (record n { db = state })).1.db)
      where
        credited :
            (r : NodeResult (Unit {0})) (db : m.State)
            → Outcome n raw number timestamp base_fee (
                continue r
                  (λ _. rebuild_smt m >>= (λ root.
                    save_sealed m (made_block root) (keccak256 raw) made_receipt
                    >> pure (keccak256 raw)))
                  (record n { db = db }))
        credited (ok _) db = rebuilt-Outcome db
        credited (err why) db = SameChain-db m n db

  -- Either the transaction is sealed in a block at the end of the chain, or the call fails and the
  -- chain stays as it was.
  pub seal_raw_with_fee-Outcome :
      (raw : Bytes) (number timestamp base_fee : ℕ) (n : KanariNode m)
      → Outcome n raw number timestamp base_fee
          (seal_raw_with_fee m raw number timestamp base_fee n)
  unfolding seal_raw_with_fee sealed_block
  seal_raw_with_fee-Outcome raw number timestamp base_fee n =
      elim (Result-cases (decode m.decode_2718_exact m.recover_signer raw n.spec.chain_id)) [
        | inr (why, d) ↦ rw d (SameChain-refl m n)
        | inl (prepared, d) ↦
            elim (Result-cases
              (m.transact n.db (block_params m n number timestamp base_fee) prepared.inner)) [
                | inr (why, t) ↦
                    rw (d, transact_raw_err m n prepared number timestamp base_fee t)
                      (SameChain-refl m n)
                | inl ((result, state), t) ↦
                    rw (d, transact_raw_ok m n prepared number timestamp base_fee t)
                      (executed-Outcome n raw number timestamp base_fee prepared result state)
              ]
      ]
