-- ===== src/Execution/Open/Reopened.antt =====
-- A node that is opened again over a stored chain.
use kanari_evm.Prelude.{
  ℕ, ◌^◌, ◌<◌, ◌≡◌, refl, sym, ◌∙◌, ap, subst, Option, none, some, List, [], Bytes, ok, length,
  Result-cases, inl, inr, ok_injective,
}
use kanari_evm.Storage.Records.{SealedBlock}
use kanari_evm.Storage.ChainStore.{
  stored_chain_id, load_blocks, load_faucet_key, stored_genesis_alloc,
}
use kanari_evm.Storage.ChainStore.History.{Holds}
use kanari_evm.Execution.Errors.{NodeResult, from_store}
use kanari_evm.Execution.Machine.{Machine}
use kanari_evm.Execution.Action.{bind-eq-ok, lift}
use kanari_evm.Execution.ChainSpec.{KanariChainSpec, apply_genesis}
use kanari_evm.Execution.Commitment.{smt_entries}
use kanari_evm.Execution.Node.{KanariNode}
use kanari_evm.Execution.Seal.{rebuild_smt}
use kanari_evm.Execution.Seal.SameChain.{SameChain, SameChain-rebuilt}
use kanari_evm.Execution.Seal.Steps.{rebuild_smt_ok, rebuild_smt_err}
use kanari_evm.Execution.Seal.Chain.{IsValid, IsChain, Holds-SameChain}
use kanari_evm.Execution.Replay.{replay_blocks}
use kanari_evm.Execution.Replay.Restored.{AllRooted, replay_blocks-restores}
use kanari_evm.Execution.Open.{
  LegacyFiles, new_node, open_node, open_chain, open_stored, set_genesis, keep_key, read_store,
  set_alloc, check_chain,
}
use kanari_evm.Execution.Open.Steps.{read}

module _ (m : Machine) where
  open m use {engine}

  -- The second components of equal pairs.
  ended :
      {A : Type 0} {r r' : NodeResult A} {n n' : KanariNode m}
      → ◌≡◌ {A = NodeResult A × KanariNode m} (r, n) (r', n')
      → n ≡ n'
  ended {A} h = ap (λ (p : NodeResult A × KanariNode m). p.1) h

  -- The rebuild of the tree leaves the blocks in memory and the chain on disk.
  rebuild_smt-keeps :
      (n n' : KanariNode m) (root : Bytes) (blocks : List SealedBlock)
      → rebuild_smt m n ≡ (ok root, n')
      → Holds engine n.store blocks
      → (n'.blocks ≡ n.blocks) × Holds engine n'.store blocks
  rebuild_smt-keeps n n' root blocks h held =
      elim (Result-cases (m.rebuild n.store (smt_entries m (m.cached_accounts n.db)))) [
        | inr (why, b) ↦ cc (h, rebuild_smt_err m n b)
        | inl (store, b) ↦
            let same : SameChain m n (record n { store = store }) =
              SameChain-rebuilt m n n.db _ store b in
            let e : record n { store = store } ≡ n' = ended (sym (rebuild_smt_ok m n b) ∙ h) in
            (
              ap (λ (k : KanariNode m). k.blocks) (sym e),
              subst (λ (k : KanariNode m). Holds engine k.store blocks) e
                  (Holds-SameChain m n (record n { store = store }) same held),
            )
      ]

  pub set_genesis-keeps :
      (n n' : KanariNode m) (blocks : List SealedBlock)
      → set_genesis m n ≡ (ok tt, n')
      → Holds engine n.store blocks
      → (n'.blocks ≡ n.blocks) × Holds engine n'.store blocks
  unfolding set_genesis
  set_genesis-keeps n n' blocks h held =
      let n0 : KanariNode m = record n { db = apply_genesis m n.spec n.db } in
      let (root, n1, rebuilt, h1) = bind-eq-ok (rebuild_smt m) _ n0 h in
      let (same, holds) = rebuild_smt-keeps n0 n1 root blocks rebuilt held in
      let e : record n1 { genesis_root = root } ≡ n' = ended h1 in
      (
        ap (λ (k : KanariNode m). k.blocks) (sym e) ∙ same,
        subst (λ (k : KanariNode m). Holds engine k.store blocks) e holds,
      )

  -- A node with no blocks yet over a store that holds these.
  abbrev Start : List SealedBlock → KanariNode m → Type 0
  Start blocks n = (n.blocks ≡ []) × Holds engine n.store blocks

  read_blocks :
      (n n' : KanariNode m) (blocks found : List SealedBlock)
      → Holds engine n.store blocks
      → read_store m (load_blocks engine) n ≡ (ok found, n')
      → found ≡ blocks
  read_blocks n n' blocks found held h =
      let e : from_store (load_blocks engine n.store) ≡ ok blocks = ap from_store held.loaded in
      let k : from_store (load_blocks engine n.store) ≡ ok found =
        ap (λ (p : NodeResult (List SealedBlock) × KanariNode m). p.0) h in
      cc (e, k)

  open_stored-restores :
      (stored_chain : ℕ) (n n' : KanariNode m) (blocks : List SealedBlock)
      → Start blocks n
      → IsChain m blocks
      → AllRooted blocks
      → length blocks < 2 ^ 64
      → open_stored m stored_chain n ≡ (ok tt, n')
      → (n'.blocks ≡ blocks) × IsValid m n'
  unfolding open_stored
  open_stored-restores stored_chain n n' blocks start chain rooted fits h =
      let (u1, n1, r1, h1) = bind-eq-ok (lift (check_chain m stored_chain n.spec.chain_id)) _ n h in
      let (alloc, n2, r2, h2) = bind-eq-ok (read_store m (stored_genesis_alloc engine)) _ n1 h1 in
      let s2 : Start blocks n2 = subst (Start blocks) (ended r1 ∙ ended r2) start in
      let (u3, n3, r3, h3) = bind-eq-ok (set_genesis m) _ (set_alloc m alloc n2) h2 in
      let (same, holds) = set_genesis-keeps (set_alloc m alloc n2) n3 blocks r3 s2.1 in
      let (found, n4, r4, h4) = bind-eq-ok (read_store m (load_blocks engine)) _ n3 h3 in
      let s4 : Start blocks n4 = subst (Start blocks) (ended r4) (same ∙ s2.0, holds) in
      replay_blocks-restores m blocks n4 n' s4.0 s4.1 chain rooted fits (
        subst (λ l. replay_blocks m l n4 ≡ (ok tt, n')) (read_blocks n3 n4 blocks found holds r4)
          h4)

  pub keep_key-IsValid :
      (secret : Option Bytes) (n : KanariNode m) → IsValid m n → IsValid m (keep_key m secret n)
  keep_key-IsValid none n v = v
  keep_key-IsValid (some k) n v = record { chain = v.chain; stored = v.stored }

  pub keep_key-blocks :
      (secret : Option Bytes) (n : KanariNode m) → (keep_key m secret n).blocks ≡ n.blocks
  keep_key-blocks none n = refl
  keep_key-blocks (some k) n = refl

  -- Over a database that has a chain id and holds a chain from the genesis, with all state roots recorded, an
  -- `open` that succeeds gives a valid node with exactly the stored blocks, whatever old files there are.
  pub open_node-restores :
      (files : Option LegacyFiles) (spec : KanariChainSpec) (store : engine.Db) (stored_chain : ℕ)
      (blocks : List SealedBlock) (n : KanariNode m)
      → stored_chain_id engine store ≡ ok (some stored_chain)
      → Holds engine store blocks
      → IsChain m blocks
      → AllRooted blocks
      → length blocks < 2 ^ 64
      → open_node m files (new_node m spec store) ≡ (ok tt, n)
      → (n.blocks ≡ blocks) × IsValid m n
  unfolding open_node
  open_node-restores files spec store stored_chain blocks n named held chain rooted fits h =
      let n0 : KanariNode m = new_node m spec store in
      let (found, n1, r1, h1) = bind-eq-ok (read_store m (stored_chain_id engine)) _ n0 h in
      let (e1, s1) = read m (stored_chain_id engine store) n0 n1 r1 in
      let e : found ≡ some stored_chain = ok_injective (sym e1 ∙ named) in
      let (u2, n2, r2, h2) = bind-eq-ok (open_chain m files found) _ n1 h1 in
      let opened : open_stored m stored_chain n1 ≡ (ok tt, n2) =
        subst (λ o. open_chain m files o n1 ≡ (ok tt, n2)) e r2 in
      let (same, valid) =
        open_stored-restores stored_chain n1 n2 blocks
          (subst (Start blocks) (ended r1) (refl, held)) chain rooted fits opened in
      let (secret, n3, r3, h3) = bind-eq-ok (read_store m (load_faucet_key engine)) _ n2 h2 in
      let kept : keep_key m secret n2 ≡ n = ap (keep_key m secret) (ended r3) ∙ ended h3 in
      (
        ap (λ (k : KanariNode m). k.blocks) (sym kept) ∙ keep_key-blocks secret n2 ∙ same,
        subst (IsValid m) kept (keep_key-IsValid secret n2 valid),
      )
