-- ===== src/Execution/Seal/Lookup.antt =====
-- What the node answers about a transaction that it has just sealed.
use kanari_evm.Prelude.{
  ℕ, suc, ◌+◌, ◌≤◌, ◌≡◌, refl, sym, ◌∙◌, ap, true, false, some, List, [], ◌∷◌, ◌++◌, Bytes, ok,
  length, find, arith, ◌==◌, bytes_eq_self, subst,
}
use kanari_evm.Types.Word.{as_u64}
use kanari_evm.Storage.Records.{SealedBlock, StoredReceipt}
use kanari_evm.Execution.Machine.{Machine}
use kanari_evm.Execution.Node.{
  KanariNode, block_number, pending_base_fee, receipt, receipts_get, block_by_number, tx_record,
}
use kanari_evm.Execution.Seal.{seal_committed, genesis_hash}
use kanari_evm.Execution.Seal.Outcome.{Sealed, Outcome}
use kanari_evm.Execution.Seal.Chain.{IsValid, LinkedFrom, seal_committed-Outcome, next_number}

module _ (m : Machine) where
  -- Numbers below the last block's do not hide it.
  find-next :
      (parent : Bytes) (number k : ℕ) (blocks : List SealedBlock) (b : SealedBlock)
      → LinkedFrom m parent number blocks
      → length blocks + number ≤ k
      → b.number ≡ k
      → find (λ (c : SealedBlock). c.number == k) (blocks ++ b ∷ []) ≡ some b
  find-next parent number k [] b h le e =
      let yes : (b.number == k) ≡ true = ground (arith, e) in rw yes refl
  find-next parent number k (c ∷ blocks) b h le e =
      let no : (c.number == k) ≡ false = ground (arith, h.0.numbered) in
      rw no (find-next c.hash (suc number) k blocks b h.1 (omega arith) e)

  tx_record_found :
      (n : KanariNode m) (hash raw : Bytes) (r : StoredReceipt) (block : SealedBlock)
      → receipts_get n.receipts hash ≡ some r
      → block_by_number m n r.block_number ≡ some block
      → block.txs ≡ raw ∷ []
      → m.keccak256 raw ≡ hash
      → tx_record m n hash ≡ some (r.sender, raw)
  unfolding tx_record
  tx_record_found n hash raw r block found numbered one hashed =
      rw (tx_record, found, numbered, one, hashed, bytes_eq_self hash) refl

  module _ (raw : Bytes) (timestamp : ℕ) (n n' : KanariNode m) (hash : Bytes) (v : IsValid m n)
      (sealed : seal_committed m raw timestamp n ≡ (ok hash, n')) where
    pub outcome :
        Sealed m n raw (block_number m n + 1) timestamp (as_u64 (pending_base_fee m n)) hash n'
    outcome =
        subst (Outcome m n raw (block_number m n + 1) timestamp (as_u64 (pending_base_fee m n)))
          sealed (seal_committed-Outcome m raw timestamp n)

    pub newest_receipt : receipts_get n'.receipts hash ≡ some outcome.receipt
    unfolding receipts_get
    newest_receipt = rw (outcome.receipts, bytes_eq_self hash) refl

    newest_block : block_by_number m n' (block_number m n + 1) ≡ some outcome.block
    unfolding block_by_number
    newest_block = rw outcome.blocks (
        find-next (genesis_hash m) 1 (block_number m n + 1) n.blocks outcome.block v.chain
          (omega (arith, next_number m n v)) outcome.numbered)

    -- After a transaction is sealed, its hash is the Keccak hash of its bytes, and the node finds
    -- its block under the next number and by that hash its receipt, which names that block, and its bytes and sender.
    pub seal_committed-tx_record :
        (block : SealedBlock) × (r : StoredReceipt) × (hash ≡ m.keccak256 raw)
        × (block_by_number m n' (block_number m n + 1) ≡ some block)
        × (block.timestamp ≡ timestamp)
        × (block.base_fee ≡ as_u64 (pending_base_fee m n))
        × (receipt m n' hash ≡ some r)
        × (r.block_number ≡ block.number)
        × (r.block_hash ≡ block.hash)
        × (tx_record m n' hash ≡ some (r.sender, raw))
    unfolding receipt
    seal_committed-tx_record = (
      outcome.block,
      outcome.receipt,
      outcome.hash_of_raw,
      newest_block,
      outcome.stamped,
      outcome.priced,
      newest_receipt,
      outcome.receipt_of_tx.1 ∙ sym outcome.numbered,
      outcome.receipt_of_tx.2,
      tx_record_found n' hash raw outcome.receipt outcome.block newest_receipt
          (ap (block_by_number m n') outcome.receipt_of_tx.1 ∙ newest_block) outcome.one_tx
          (sym outcome.hash_of_raw),
    )
