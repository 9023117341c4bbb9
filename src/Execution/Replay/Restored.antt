-- ===== src/Execution/Replay/Restored.antt =====
-- A replay that passes puts back the stored chain, in memory and on disk.
use mathlib.Core.List.{append_assoc, append-nil}
use kanari_evm.Prelude.{
  ℕ, suc, ◌+◌, ◌^◌, ◌<◌, ◌≡◌, refl, sym, ◌∙◌, ap, subst, some, List, [], ◌∷◌, ◌++◌, Bytes, ok,
  length, last?, last?-append, length-append, arith, ◌⊎◌, inl, inr,
}
use kanari_evm.Storage.Records.{SealedBlock}
use kanari_evm.Storage.ChainStore.History.{Holds, Holds-HoldsPrefix, load_blocks_from-zero}
use kanari_evm.Storage.ChainStore.{height, load_blocks}
use kanari_evm.Execution.Errors.{NodeResult}
use kanari_evm.Execution.Machine.{Machine}
use kanari_evm.Execution.Action.{bind-eq-ok}
use kanari_evm.Execution.Node.{KanariNode}
use kanari_evm.Execution.Seal.{genesis_hash}
use kanari_evm.Execution.Seal.Chain.{Follows, LinkedFrom, IsChain, hash_or, IsValid}
use kanari_evm.Execution.Replay.{replay_txs, replay_blocks}
use kanari_evm.Execution.Replay.Steps.{Standing, replay_txs-Standing}

-- Every block records its state root, as blocks that this version seals do.
abbrev pub AllRooted : List SealedBlock → Type 0
AllRooted [] = Unit {0}
AllRooted (b ∷ blocks) = ((root : Bytes) × (b.state_root ≡ some root)) × AllRooted blocks

module _ (m : Machine) where
  open m use {engine}

  -- The end of a replay: these blocks in memory and on disk, or nothing to replay and no change.
  abbrev Replayed : KanariNode m → KanariNode m → List SealedBlock → List SealedBlock → Type 0
  Replayed n n' done rest =
      (n'.blocks ≡ done ++ rest)
      × ((rest ≡ []) × (n.store ≡ n'.store) ⊎ Holds engine n'.store (done ++ rest))

  replay_blocks-Replayed :
      (rest done : List SealedBlock) (n n' : KanariNode m) (parent : Bytes) (number : ℕ)
      → parent ≡ hash_or m (genesis_hash m) (last? done)
      → number ≡ length done + 1
      → Standing m n done
      → LinkedFrom m parent number rest
      → AllRooted rest
      → length done + length rest < 2 ^ 64
      → replay_blocks m rest n ≡ (ok tt, n')
      → Replayed n n' done rest
  unfolding replay_blocks
  replay_blocks-Replayed [] done n n' parent number p e st linked rooted fits h =
      let ended : n ≡ n' = ap (λ (r : NodeResult (Unit {0}) × KanariNode m). r.1) h in
      (
        ap (λ (k : KanariNode m). k.blocks) (sym ended) ∙ st.replayed ∙ sym (append-nil done),
        inl (refl, ap (λ (k : KanariNode m). k.store) ended),
      )
  replay_blocks-Replayed (b ∷ rest) done n n' parent number p e st linked rooted fits h =
      let (passed, n1, first, h1) = bind-eq-ok (replay_txs m b b.txs) _ n h in
      let f : Follows m (hash_or m (genesis_hash m) (last? done)) (length done + 1) b =
        subst (λ q. Follows m q (length done + 1) b) p
          (subst (λ k. Follows m parent k b) e linked.0) in
      let (blocks, held) =
        replay_txs-Standing m n n1 b done rooted.0.0 st f rooted.0.1
          (omega (arith, f.numbered, fits)) first in
      let (all, end) =
        replay_blocks-Replayed rest (done ++ b ∷ []) n1 n' b.hash (suc number)
          (ap (hash_or m (genesis_hash m)) (sym (last?-append done b)))
          (omega (arith, e, length-append done (b ∷ [])))
          (record {
            replayed = blocks;
            on_disk = Holds-HoldsPrefix engine n1.store (done ++ b ∷ []) held;
          })
          linked.1 rooted.1 (omega (arith, fits, length-append done (b ∷ []))) h1 in
      let split : done ++ b ∷ [] ++ rest ≡ done ++ b ∷ rest = append_assoc done (b ∷ []) rest in
      (
        all ∙ split,
        inr (elim end [
          | inr holds ↦ subst (Holds engine n'.store) split holds
          | inl (nil, same) ↦
              subst (λ l. Holds engine n'.store (done ++ b ∷ l)) (sym nil)
                (subst (λ db. Holds engine db (done ++ b ∷ [])) same held)
        ]),
      )

  -- Where the stored blocks are a chain from the genesis, with one transaction in each and all state
  -- roots recorded, a replay that passes gives exactly these blocks, on a valid node.
  pub replay_blocks-restores :
      (blocks : List SealedBlock) (n n' : KanariNode m)
      → n.blocks ≡ []
      → Holds engine n.store blocks
      → IsChain m blocks
      → AllRooted blocks
      → length blocks < 2 ^ 64
      → replay_blocks m blocks n ≡ (ok tt, n')
      → (n'.blocks ≡ blocks) × IsValid m n'
  replay_blocks-restores blocks n n' none_yet held chain rooted fits h =
      let (same, end) =
        replay_blocks-Replayed blocks [] n n' (genesis_hash m) 1 refl (omega arith)
          (record { replayed = none_yet; on_disk = load_blocks_from-zero engine n.store 1 }) chain
          rooted (omega (arith, fits)) h in
      (
        same,
        record {
          chain = subst (IsChain m) (sym same) chain;
          stored = subst (Holds engine n'.store) (sym same) (elim end [
            | inr holds ↦ holds
            | inl (nil, store) ↦ subst (λ db. Holds engine db blocks) store held
          ]);
        },
      )

  -- The replay writes what it seals: once the first of the stored blocks is replayed, the database
  -- holds that block alone, and the later ones are out of reach until they are replayed too.
  pub replay_txs-rewinds :
      (b : SealedBlock) (rest : List SealedBlock) (n n' : KanariNode m)
      → n.blocks ≡ []
      → Holds engine n.store (b ∷ rest)
      → IsChain m (b ∷ rest)
      → AllRooted (b ∷ rest)
      → replay_txs m b b.txs n ≡ (ok tt, n')
      → (height engine n'.store ≡ ok 1) × (load_blocks engine n'.store ≡ ok (b ∷ []))
  replay_txs-rewinds b rest n n' none_yet held chain rooted h =
      let standing : Standing m n [] = record {
        replayed = none_yet;
        on_disk = load_blocks_from-zero engine n.store 1;
      } in
      let (blocks, holds) =
        replay_txs-Standing m n n' b [] rooted.0.0 standing
          (subst (λ k. Follows m (genesis_hash m) k b) (let e : 1 ≡ 0 + 1 = omega arith in e)
            chain.0)
          rooted.0.1 (omega (arith, chain.0.numbered)) h in
      (holds.top, holds.loaded)
