-- ===== src/Execution/Replay/Steps.antt =====
-- What the replay of one block leaves.
use kanari_evm.Prelude.{
  ℕ, ◌+◌, ◌^◌, ◌<◌, ◌≡◌, sym, ◌∙◌, ap, subst, Option, none, some, List, [], ◌∷◌, ◌++◌, Bytes,
  bytes_eq, bytes_eq→eq, ok, length, last?, last?-append, arith, Bool-cases, inl, inr,
}
use kanari_evm.Storage.Records.{SealedBlock}
use kanari_evm.Storage.ChainStore.History.{
  Holds, HoldsPrefix, HoldsPrefix-same, HoldsPrefix-save_block,
}
use kanari_evm.Storage.Keys.{block_key, meta_height}
use kanari_evm.Execution.Errors.{NodeResult}
use kanari_evm.Execution.Machine.{Machine}
use kanari_evm.Execution.Action.{bind-eq-ok, lift}
use kanari_evm.Execution.Node.{KanariNode}
use kanari_evm.Execution.Seal.{seal_raw_with_fee, genesis_hash}
use kanari_evm.Execution.Seal.Outcome.{Sealed, Outcome, seal_raw_with_fee-Outcome}
use kanari_evm.Execution.Seal.SameChain.{SameChain}
use kanari_evm.Execution.Seal.Chain.{Follows, hash_or, hash_or-genesis}
use kanari_evm.Execution.Replay.{check_root, check_replayed, replay_txs}

check_root-eq-ok :
    (number : ℕ) (expected : Bytes) (sealed : Option Bytes)
    → check_root number (some expected) sealed ≡ ok tt
    → sealed ≡ some expected
unfolding check_root
check_root-eq-ok number expected none h = cc h
check_root-eq-ok number expected (some root) h = elim (Bool-cases (bytes_eq root expected)) [
  | inl same ↦ ap some (bytes_eq→eq root expected same)
  | inr other ↦ cc (rw other at h)
]

-- A replayed block that passes has the stored hash and the recorded root.
check_replayed-eq-ok :
    (b c : SealedBlock) (root : Bytes)
    → b.state_root ≡ some root
    → check_replayed b (some c) ≡ ok tt
    → (c.hash ≡ b.hash) × (c.state_root ≡ b.state_root)
unfolding check_replayed
check_replayed-eq-ok b c root rooted h = elim (Bool-cases (bytes_eq c.hash b.hash)) [
  | inl same ↦ (
    bytes_eq→eq c.hash b.hash same,
    check_root-eq-ok b.number root c.state_root
          (subst (λ r. check_root b.number r c.state_root ≡ ok tt) rooted (rw same at h))
        ∙ sym rooted,
  )
  | inr other ↦ cc (rw other at h)
]

SealedBlock-ext :
    (b c : SealedBlock)
    → b.number ≡ c.number
    → b.timestamp ≡ c.timestamp
    → b.hash ≡ c.hash
    → b.parent_hash ≡ c.parent_hash
    → b.txs ≡ c.txs
    → b.state_root ≡ c.state_root
    → b.base_fee ≡ c.base_fee
    → b ≡ c
SealedBlock-ext b c h1 h2 h3 h4 h5 h6 h7 i = record {
  number = h1 i;
  timestamp = h2 i;
  hash = h3 i;
  parent_hash = h4 i;
  txs = h5 i;
  state_root = h6 i;
  base_fee = h7 i;
}

module _ (m : Machine) where
  open m use {engine}

  -- A node in the midst of a replay: these blocks are in memory and are the first on disk.
  pub record Standing (n : KanariNode m) (blocks : List SealedBlock) : Type 0 where
    pub replayed : n.blocks ≡ blocks
    pub on_disk : HoldsPrefix engine n.store blocks

  -- The block of the list's end that seals like the stored one is the stored one.
  same_block :
      (n n' : KanariNode m) (b : SealedBlock) (raw hash : Bytes)
      → Follows m (hash_or m (genesis_hash m) (last? n.blocks)) (length n.blocks + 1) b
      → b.txs ≡ raw ∷ []
      → (s : Sealed m n raw b.number b.timestamp b.base_fee hash n')
      → (s.block.hash ≡ b.hash) × (s.block.state_root ≡ b.state_root)
      → s.block ≡ b
  same_block n n' b raw hash f one s (hashed, rooted) =
      SealedBlock-ext s.block b s.numbered s.stamped hashed
        (s.linked ∙ hash_or-genesis m n.blocks ∙ sym f.linked) (s.one_tx ∙ sym one) rooted s.priced

  HoldsPrefix-SameChain :
      (n n' : KanariNode m) (blocks : List SealedBlock)
      → SameChain m n n'
      → HoldsPrefix engine n.store blocks
      → HoldsPrefix engine n'.store blocks
  unfolding block_key
  HoldsPrefix-SameChain n n' blocks same h =
      HoldsPrefix-same engine n.store n'.store (same.stored meta_height (omega arith, omega arith))
        (λ k. same.stored (block_key k) (omega arith, omega arith)) blocks h

  -- The replay of a block with one transaction, once it has passed, has put back that block.
  pub replay_txs-Standing :
      (n n' : KanariNode m) (b : SealedBlock) (blocks : List SealedBlock) (root : Bytes)
      → Standing n blocks
      → Follows m (hash_or m (genesis_hash m) (last? blocks)) (length blocks + 1) b
      → b.state_root ≡ some root
      → b.number < 2 ^ 64
      → replay_txs m b b.txs n ≡ (ok tt, n')
      → (n'.blocks ≡ blocks ++ b ∷ []) × Holds engine n'.store (blocks ++ b ∷ [])
  unfolding replay_txs
  replay_txs-Standing n n' b blocks root st f rooted fits h =
      let h1 : replay_txs m b (f.raw ∷ []) n ≡ (ok tt, n') =
        subst (λ txs. replay_txs m b txs n ≡ (ok tt, n')) f.one_tx h in
      let (hash, n1, sealed, h2) =
        bind-eq-ok (seal_raw_with_fee m f.raw b.number b.timestamp b.base_fee) _ n h1 in
      let s : Sealed m n f.raw b.number b.timestamp b.base_fee hash n1 =
        subst (Outcome m n f.raw b.number b.timestamp b.base_fee) sealed
          (seal_raw_with_fee-Outcome m f.raw b.number b.timestamp b.base_fee n) in
      let (passed, n2, checked, h3) =
        bind-eq-ok (lift (check_replayed b (last? n1.blocks))) _ n1 h2 in
      let last : last? n1.blocks ≡ some s.block =
        ap last? s.blocks ∙ last?-append n.blocks s.block in
      let ended : n1 ≡ n' =
        ap (λ (p : NodeResult (Unit {0}) × KanariNode m). p.1) checked
        ∙ ap (λ (p : NodeResult (Unit {0}) × KanariNode m). p.1) h3 in
      let f1 : Follows m (hash_or m (genesis_hash m) (last? n.blocks)) (length n.blocks + 1) b =
        subst (λ l. Follows m (hash_or m (genesis_hash m) (last? l)) (length l + 1) b)
          (sym st.replayed) f in
      let e : s.block ≡ b = same_block n n1 b f.raw hash f1 f.one_tx s (
        check_replayed-eq-ok b s.block root rooted (
          subst (λ o. check_replayed b o ≡ ok tt) last
            (ap (λ (p : NodeResult (Unit {0}) × KanariNode m). p.0) checked))) in
      (
        ap (λ (k : KanariNode m). k.blocks) (sym ended)
            ∙ s.blocks
            ∙ ap (λ l. l ++ s.block ∷ []) st.replayed
            ∙ ap (λ c. blocks ++ c ∷ []) e,
        subst (λ k. Holds engine k.store (blocks ++ b ∷ [])) ended
            (subst (λ c. Holds engine n1.store (blocks ++ c ∷ [])) e
              (HoldsPrefix-save_block engine s.before.store n1.store s.block
                ((hash, s.receipt) ∷ []) s.saved (omega (arith, s.numbered)) blocks
                (HoldsPrefix-SameChain n s.before blocks s.same st.on_disk)
                (omega (arith, s.numbered, f.numbered)))),
      )
