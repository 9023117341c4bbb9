-- ===== src/Execution/Trace/History.antt =====
-- The scratch state of a trace against the state that was sealed.
use kanari_evm.Prelude.{
  ℕ, ◌≡◌, ◌==◌, ◌⊎◌, Option, none, some, arith, Bool-cases, refl, ap, sym, subst, ◌∙◌, [], ◌∷◌,
  Bytes, ok, err, Result-cases, inl, inr,
}
use kanari_evm.Types.Word.{u256_max, saturating_add, saturating_mul}
use kanari_evm.Types.Gas.{base_fee_share}
use kanari_evm.Storage.Records.{SealedBlock, StoredReceipt}
use kanari_evm.Execution.Errors.{NodeResult}
use kanari_evm.Execution.Tx.{PreparedTx, decode}
use kanari_evm.Execution.Machine.{Machine, ExecutionResult, AccountInfo}
use kanari_evm.Execution.Action.{bind_post, pure, ◌>>=◌, ◌>>◌}
use kanari_evm.Execution.Commitment.{smt_entries}
use kanari_evm.Storage.ChainStore.{save_block}
use kanari_evm.Execution.Node.{KanariNode, block_beneficiary}
use kanari_evm.Execution.Seal.{
  transact_raw, credit_burned, credit_beneficiary, rebuild_smt, save_sealed, seal_raw_with_fee,
  execution_summary, sealed_receipt,
}
use kanari_evm.Execution.Seal.Steps.{
  block_params, transact_raw_ok, transact_raw_err, saved_node, save_sealed_ok, save_sealed_err,
}
use kanari_evm.Execution.Trace.{scratch_txs}

module _ (m : Machine) where
  rebuild_smt-same :
      (n : KanariNode m)
      → ((rebuild_smt m n).1.db ≡ n.db) × ((rebuild_smt m n).1.receipts ≡ n.receipts)
  unfolding rebuild_smt
  rebuild_smt-same n =
      elim (Result-cases (m.rebuild n.store (smt_entries m (m.cached_accounts n.db)))) [
        | inl (store, e) ↦ rw (rebuild_smt, e) (refl, refl)
        | inr (why, e) ↦ rw (rebuild_smt, e) (refl, refl)
      ]

  save_sealed-eq-ok :
      (block : SealedBlock) (hash : Bytes) (r : StoredReceipt) (n n' : KanariNode m)
      → save_sealed m block hash r n ≡ (ok tt, n')
      → (n'.db ≡ n.db) × (n'.receipts ≡ (hash, r) ∷ n.receipts)
  unfolding saved_node
  save_sealed-eq-ok block hash r n n' h =
      elim (Result-cases (save_block m.engine n.store block ((hash, r) ∷ []))) [
        | inl (store, e) ↦
            let k : saved_node m n block hash r store ≡ n' =
              ap (λ (p : NodeResult (Unit {0}) × KanariNode m). p.1)
                (sym (save_sealed_ok m n block hash r e) ∙ h) in
            (ap (λ x. x.db) (sym k), ap (λ x. x.receipts) (sym k))
        | inr (why, e) ↦ cc (sym (save_sealed_err m n block hash r e) ∙ h)
      ]

  -- The beneficiary's account with this much more.
  abbrev pub raised : ℕ → Option AccountInfo → AccountInfo
  raised share none = record {
    balance = saturating_add u256_max 0 share;
    nonce = 0;
    code_hash = m.keccak_empty;
    code = none;
  }
  raised share (some info) = record info { balance = saturating_add u256_max info.balance share }

  -- The second state is the first with this much more on the beneficiary's account.
  abbrev pub Credited : m.State → ℕ → m.State → Type 0
  Credited db share db' =
      ((share ≡ 0) × (db' ≡ db))
      ⊎ ((found : Option AccountInfo) × (m.basic db block_beneficiary ≡ ok found)
          × (db' ≡ m.insert_account_info db block_beneficiary (raised share found)))

  -- A success of the credit.
  abbrev Credits : KanariNode m → ℕ → NodeResult (Unit {0}) × KanariNode m → Type 0
  Credits n share (ok u, n') = Credited n.db share n'.db × (n'.receipts ≡ n.receipts)
  Credits n share (err e, n') = Unit {0}

  credit_burned-Credits :
      (gas base_fee : ℕ) (n : KanariNode m)
      → Credits n (base_fee_share gas base_fee) (credit_burned m gas base_fee n)
  unfolding credit_burned credit_beneficiary
  credit_burned-Credits gas base_fee n = elim (Bool-cases (base_fee_share gas base_fee == 0)) [
    | inl nothing ↦ rw nothing (inl (ground arith, refl), refl)
    | inr share ↦ elim (Result-cases (m.basic n.db block_beneficiary)) [
      | inr (why, e) ↦ rw (share, e) tt
      | inl (none, e) ↦ rw (share, e) (inr (none, e, refl), refl)
      | inl (some info, e) ↦ rw (share, e) (inr (some info, e, refl), refl)
    ]
  ]

  credits-eq-ok :
      (gas base_fee : ℕ) (n n' : KanariNode m)
      → credit_burned m gas base_fee n ≡ (ok tt, n')
      → Credited n.db (base_fee_share gas base_fee) n'.db × (n'.receipts ≡ n.receipts)
  credits-eq-ok gas base_fee n n' h =
      subst (Credits n (base_fee_share gas base_fee)) h (credit_burned-Credits gas base_fee n)

  -- A success leaves this state, and a receipt with this gas in front of the node's.
  abbrev Leaves : KanariNode m → Bytes → ℕ → NodeResult Bytes × KanariNode m → Type 0
  Leaves n hash gas (ok h, n') =
      (n'.db ≡ n.db)
      × ((r : StoredReceipt) × (n'.receipts ≡ (hash, r) ∷ n.receipts) × (r.gas_used ≡ gas))
  Leaves n hash gas (err e, n') = Unit {0}

  -- The rebuild of the tree and the write change no account.
  write-Leaves :
      (block : Bytes → SealedBlock) (hash : Bytes) (r : Bytes → StoredReceipt) (gas : ℕ)
      (n : KanariNode m)
      → ((root : Bytes) → (r root).gas_used ≡ gas)
      → Leaves n hash gas
          ((rebuild_smt m >>= (λ root. save_sealed m (block root) hash (r root) >> pure hash)) n)
  write-Leaves block hash r gas n used =
      bind_post (Leaves n hash gas) (rebuild_smt m)
        (λ root. save_sealed m (block root) hash (r root) >> pure hash) n
        (λ root n1 e.
          let (db, receipts) = rebuild_smt-same n in
          let db1 : n1.db ≡ n.db = sym (ap (λ p. p.1.db) e) ∙ db in
          let receipts1 : n1.receipts ≡ n.receipts = sym (ap (λ p. p.1.receipts) e) ∙ receipts in
          bind_post (Leaves n hash gas) (save_sealed m (block root) hash (r root)) (λ _. pure hash)
            n1
            (λ _ n2 e2.
              let (db2, receipts2) = save_sealed-eq-ok (block root) hash (r root) n1 n2 e2 in
              (db2 ∙ db1, (r root, receipts2 ∙ ap (λ l. (hash, r root) ∷ l) receipts1, used root)))
            (λ why n2 e2. tt))
        (λ why n1 e. tt)

  -- What the sealing of a transaction executed, and what it credited then.
  pub record Executed (n n' : KanariNode m) (raw : Bytes) (number timestamp base_fee : ℕ)
      : Type 0 where
    pub prepared : PreparedTx
    pub result : ExecutionResult
    pub state : m.State
    pub decoded : decode m.decode_2718_exact m.recover_signer raw n.spec.chain_id ≡ ok prepared
    pub ran : transact_raw m n.spec prepared number timestamp base_fee n.db ≡ (ok result, state)
    pub receipt : StoredReceipt
    pub receipts : n'.receipts ≡ (m.keccak256 raw, receipt) ∷ n.receipts
    pub credited : Credited state (base_fee_share receipt.gas_used base_fee) n'.db

  abbrev Ran : KanariNode m → Bytes → ℕ → ℕ → ℕ → NodeResult Bytes × KanariNode m → Type 0
  Ran n raw number timestamp base_fee (ok hash, n') = Executed n n' raw number timestamp base_fee
  Ran n raw number timestamp base_fee (err e, n') = Unit {0}

  -- The last steps after the execution and the credit.
  written-Ran :
      (n n1 : KanariNode m) (raw : Bytes) (number timestamp base_fee : ℕ) (prepared : PreparedTx)
      (result : ExecutionResult) (state : m.State) (out : NodeResult Bytes × KanariNode m)
      → decode m.decode_2718_exact m.recover_signer raw n.spec.chain_id ≡ ok prepared
      → transact_raw m n.spec prepared number timestamp base_fee n.db ≡ (ok result, state)
      → Credited state (base_fee_share (execution_summary result).1 base_fee) n1.db
      → n1.receipts ≡ n.receipts
      → Leaves n1 (m.keccak256 raw) (execution_summary result).1 out
      → Ran n raw number timestamp base_fee out
  written-Ran n n1 raw number timestamp base_fee prepared result state (ok hash, n') d t c same l =
      let (db, (r, receipts, used)) = l in
      record {
        prepared = prepared;
        result = result;
        state = state;
        decoded = d;
        ran = t;
        receipt = r;
        receipts = receipts ∙ ap (λ l. (m.keccak256 raw, r) ∷ l) same;
        credited = rw (used, db) c;
      }
  written-Ran n n1 raw number timestamp base_fee prepared result state (err e, n') d t c same l = tt

  seal_raw_with_fee-Ran :
      (raw : Bytes) (number timestamp base_fee : ℕ) (n : KanariNode m)
      → Ran n raw number timestamp base_fee (seal_raw_with_fee m raw number timestamp base_fee n)
  unfolding seal_raw_with_fee sealed_receipt execution_summary
  seal_raw_with_fee-Ran raw number timestamp base_fee n =
      elim (Result-cases (decode m.decode_2718_exact m.recover_signer raw n.spec.chain_id)) [
        | inr (why, d) ↦ rw d tt
        | inl (prepared, d) ↦
            elim (Result-cases
              (m.transact n.db (block_params m n number timestamp base_fee) prepared.inner)) [
                | inr (why, t) ↦
                    rw (d, transact_raw_err m n prepared number timestamp base_fee t) tt
                | inl ((result, state), t) ↦
                    let ran = transact_raw_ok m n prepared number timestamp base_fee t in
                    rw (d, ran)
                      (bind_post (Ran n raw number timestamp base_fee)
                        (credit_burned m (execution_summary result).1 base_fee) _
                        (record n { db = state })
                        (λ _ n1 e.
                          let (c, same) =
                            credits-eq-ok (execution_summary result).1 base_fee
                              (record n { db = state }) n1 e in
                          written-Ran n n1 raw number timestamp base_fee prepared result state _ d
                            ran c same
                            (write-Leaves _ _ _ (execution_summary result).1 n1 (λ root. refl)))
                        (λ why n1 e. tt))
              ]
      ]

  -- After a successful seal the scratch replay of the sealed transaction, from the state before it
  -- and under its block's environment, succeeds. The node's state is that replay's with one
  -- difference, which the replay leaves out: the beneficiary's account has more by the base fee's
  -- share of the gas in the new receipt, both saturating at 256 bits.
  pub seal_raw_with_fee-scratch_txs :
      (raw : Bytes) (block : SealedBlock) (n n' : KanariNode m) (hash : Bytes)
      → seal_raw_with_fee m raw block.number block.timestamp block.base_fee n ≡ (ok hash, n')
      → (receipt : StoredReceipt) × (state : m.State) × (scratch_txs m n.spec block (raw ∷ []) n.db
          ≡ ok state)
        × (n'.receipts ≡ (m.keccak256 raw, receipt) ∷ n.receipts)
        × Credited state (saturating_mul u256_max receipt.gas_used block.base_fee) n'.db
  unfolding scratch_txs base_fee_share
  seal_raw_with_fee-scratch_txs raw block n n' hash h =
      let x : Executed n n' raw block.number block.timestamp block.base_fee =
        subst (Ran n raw block.number block.timestamp block.base_fee) h
          (seal_raw_with_fee-Ran raw block.number block.timestamp block.base_fee n) in
      (x.receipt, x.state, rw (x.decoded, x.ran) refl, x.receipts, x.credited)
