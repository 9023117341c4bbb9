-- ===== src/Execution/Open/Started.antt =====
-- A node that is opened over a database that `open` can use: a new one, or one that holds a chain.
use kanari_evm.Prelude.{
  ℕ, ◌^◌, ◌<◌, ◌≡◌, sym, ◌∙◌, ap, subst, Option, none, some, List, [], ok, length, ok_injective,
}
use kanari_evm.Storage.Records.{SealedBlock}
use kanari_evm.Storage.ChainStore.{stored_chain_id, load_faucet_key, init_meta}
use kanari_evm.Storage.ChainStore.History.{Holds}
use kanari_evm.Storage.ChainStore.Meta.{Holds-init_meta}
use kanari_evm.Execution.Machine.{Machine}
use kanari_evm.Execution.Action.{bind-eq-ok}
use kanari_evm.Execution.ChainSpec.{KanariChainSpec}
use kanari_evm.Execution.Node.{KanariNode}
use kanari_evm.Execution.Seal.Chain.{IsValid, IsChain}
use kanari_evm.Execution.Replay.Restored.{AllRooted}
use kanari_evm.Execution.Open.{
  LegacyFiles, new_node, open_node, open_chain, open_fresh, set_genesis, keep_key, read_store,
  write_store,
}
use kanari_evm.Execution.Open.Steps.{Outcome, written, read}
use kanari_evm.Execution.Open.Reopened.{
  open_node-restores, set_genesis-keeps, keep_key-IsValid, keep_key-blocks,
}

module _ (m : Machine) where
  open m use {engine}

  open_fresh-none :
      (n n' : KanariNode m)
      → open_fresh m none n ≡ (ok tt, n')
      → n.blocks ≡ []
      → Holds engine n.store []
      → (n'.blocks ≡ []) × Holds engine n'.store []
  unfolding open_fresh
  open_fresh-none n n' h empty held =
      let init = write_store m (λ db. init_meta engine db n.spec.chain_id n.spec.genesis_alloc) in
      let (u, n1, w, h1) = bind-eq-ok init (λ v. set_genesis m) n h in
      let (db, e, same) =
        written m (init_meta engine n.store n.spec.chain_id n.spec.genesis_alloc) n n1 u w in
      let held1 : Holds engine n1.store [] =
        subst (λ (k : KanariNode m). Holds engine k.store []) same
          (Holds-init_meta engine n.store db n.spec.chain_id n.spec.genesis_alloc e held) in
      let (kept, holds) = set_genesis-keeps m n1 n' [] h1 held1 in
      (kept ∙ ap (λ (k : KanariNode m). k.blocks) (sym same) ∙ empty, holds)

  -- Over a new database, and with no legacy files, the opened node is valid and has no blocks.
  open_node-starts :
      (spec : KanariChainSpec) (store : engine.Db) (n : KanariNode m)
      → stored_chain_id engine store ≡ ok none
      → Holds engine store []
      → open_node m none (new_node m spec store) ≡ (ok tt, n)
      → (n.blocks ≡ []) × IsValid m n
  unfolding open_node
  open_node-starts spec store n unnamed held h =
      let n0 : KanariNode m = new_node m spec store in
      let (found, n1, r1, h1) = bind-eq-ok (read_store m (stored_chain_id engine)) _ n0 h in
      let (e1, s1) = read m (stored_chain_id engine store) n0 n1 r1 in
      let e : found ≡ none = ok_injective (sym e1 ∙ unnamed) in
      let (u2, n2, r2, h2) = bind-eq-ok (open_chain m none found) _ n1 h1 in
      let opened : open_fresh m none n1 ≡ (ok tt, n2) =
        subst (λ o. open_chain m none o n1 ≡ (ok tt, n2)) e r2 in
      let (empty, holds) =
        open_fresh-none n1 n2 opened (ap (λ (k : KanariNode m). k.blocks) (sym s1))
          (subst (λ (k : KanariNode m). Holds engine k.store []) s1 held) in
      let (secret, n3, r3, h3) = bind-eq-ok (read_store m (load_faucet_key engine)) _ n2 h2 in
      let (e3, s3) = read m (load_faucet_key engine n2.store) n2 n3 r3 in
      let kept : keep_key m secret n2 ≡ n =
        ap (keep_key m secret) s3 ∙ ap (λ (p : Outcome m (Unit {0})). p.1) h3 in
      let valid : IsValid m n2 = record {
        chain = subst (IsChain m) (sym empty) tt;
        stored = subst (Holds engine n2.store) (sym empty) holds;
      } in
      (
        ap (λ (k : KanariNode m). k.blocks) (sym kept) ∙ keep_key-blocks m secret n2 ∙ empty,
        subst (IsValid m) kept (keep_key-IsValid m secret n2 valid),
      )

  -- A database that is new, where there are no legacy files, or that holds a chain from the genesis of
  -- fewer than 2^64 blocks with all state roots recorded.
  pub data Openable (files : Option LegacyFiles) (store : engine.Db)
      : List SealedBlock → Type 0 where
    blank :
        files ≡ none
        → stored_chain_id engine store ≡ ok none
        → Holds engine store []
        → Openable files store []
    chained :
        (chain_id : ℕ) (blocks : List SealedBlock)
        → stored_chain_id engine store ≡ ok (some chain_id)
        → Holds engine store blocks
        → IsChain m blocks
        → AllRooted blocks
        → length blocks < 2 ^ 64
        → Openable files store blocks

  -- An `open` of it that succeeds gives a valid node with exactly its blocks.
  pub open_node-IsValid :
      (files : Option LegacyFiles) (spec : KanariChainSpec) (store : engine.Db)
      (blocks : List SealedBlock) (n : KanariNode m)
      → Openable files store blocks
      → open_node m files (new_node m spec store) ≡ (ok tt, n)
      → (n.blocks ≡ blocks) × IsValid m n
  open_node-IsValid files spec store blocks n (blank no_files unnamed held) h =
      open_node-starts spec store n unnamed held
        (subst (λ f. open_node m f (new_node m spec store) ≡ (ok tt, n)) no_files h)
  open_node-IsValid files spec store blocks n (chained chain_id own named held chain rooted fits)
        h =
      open_node-restores m files spec store chain_id own n named held chain rooted fits h
