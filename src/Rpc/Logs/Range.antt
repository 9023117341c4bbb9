-- ===== src/Rpc/Logs/Range.antt =====
-- The logs of a range of blocks: the loop over numbers against one pass over the chain.
use mathlib.Core.List.{append-nil}
use kanari_evm.Prelude.{
  ℕ, zero, suc, ◌+◌, ◌-◌, ◌≤◌, ◌≡◌, refl, sym, Bool, true, false, ◌&&◌, List, [], ◌∷◌, ◌++◌, Bytes,
  leb, ltb, ◌==◌, find, arith, Bool-cases, inl, inr, if◌then◌else◌,
}
use kanari_evm.Storage.Records.{SealedBlock}
use kanari_evm.Execution.Machine.{Machine}
use kanari_evm.Execution.Node.{KanariNode, block_by_number}
use kanari_evm.Execution.Seal.{genesis_hash}
use kanari_evm.Execution.Seal.Chain.{LinkedFrom, IsValid}
use kanari_evm.Rpc.Logs.{SealedLog, tx_logs, block_logs, logs_from, logs_in_range}

abbrev pub in_range : ℕ → ℕ → ℕ → Bool
in_range lo rounds n = leb lo n && ltb n (lo + rounds)

module _ (m : Machine) (node : KanariNode m) where
  -- The description: the chain's blocks in order, those in the range with all their logs.
  abbrev pub ranged_logs : ℕ → ℕ → List SealedBlock → List SealedLog
  ranged_logs lo rounds [] = []
  ranged_logs lo rounds (b ∷ blocks) =
      (if in_range lo rounds b.number then tx_logs m node b b.txs else [])
      ++ ranged_logs lo rounds blocks

  -- Blocks past the range add nothing.
  ranged_logs_past :
      (lo rounds number : ℕ) (parent : Bytes) (blocks : List SealedBlock)
      → LinkedFrom m parent number blocks
      → lo + rounds ≤ number
      → ranged_logs lo rounds blocks ≡ []
  ranged_logs_past lo rounds number parent [] h le = refl
  ranged_logs_past lo rounds number parent (b ∷ blocks) h le =
      let out : in_range lo rounds b.number ≡ false = ground (arith, h.0.numbered) in
      rw (out, ranged_logs_past lo rounds (suc number) b.hash blocks h.1 (omega arith)) refl

  ranged_logs_one :
      (lo number : ℕ) (parent : Bytes) (blocks : List SealedBlock)
      → LinkedFrom m parent number blocks
      → ranged_logs lo 1 blocks
        ≡ block_logs m node (find (λ (c : SealedBlock). c.number == lo) blocks)
  ranged_logs_one lo number parent [] h = refl
  ranged_logs_one lo number parent (b ∷ blocks) h = elim (Bool-cases (b.number == lo)) [
    | inl here ↦
        let inside : in_range lo 1 b.number ≡ true = ground (arith, here) in
        rw
          (
            inside,
            here,
            ranged_logs_past lo 1 (suc number) b.hash blocks h.1 (ground (arith, h.0.numbered)),
          )
          (append-nil (tx_logs m node b b.txs))
    | inr other ↦
        let out : in_range lo 1 b.number ≡ false = ground (arith, other) in
        rw (out, other) (ranged_logs_one lo (suc number) b.hash blocks h.1)
  ]

  ranged_logs_split :
      (lo rounds number : ℕ) (parent : Bytes) (blocks : List SealedBlock)
      → LinkedFrom m parent number blocks
      → ranged_logs lo (suc rounds) blocks
        ≡ ranged_logs lo 1 blocks ++ ranged_logs (suc lo) rounds blocks
  ranged_logs_split lo rounds number parent [] h = refl
  ranged_logs_split lo rounds number parent (b ∷ blocks) h =
      let rest : ranged_logs lo (suc rounds) blocks
          ≡ ranged_logs lo 1 blocks ++ ranged_logs (suc lo) rounds blocks =
        ranged_logs_split lo rounds (suc number) b.hash blocks h.1 in
      elim (Bool-cases (ltb b.number lo)) [
        | inl before ↦
            let out1 : in_range lo (suc rounds) b.number ≡ false = ground (arith, before) in
            let out2 : in_range lo 1 b.number ≡ false = ground (arith, before) in
            let out3 : in_range (suc lo) rounds b.number ≡ false = ground (arith, before) in
            rw (out1, out2, out3) rest
        | inr after ↦
            let past : ranged_logs lo 1 blocks ≡ [] =
              ranged_logs_past lo 1 (suc number) b.hash blocks h.1
                (ground (arith, after, h.0.numbered)) in
            elim (Bool-cases (b.number == lo)) [
              | inl here ↦
                  let in1 : in_range lo (suc rounds) b.number ≡ true = ground (arith, here) in
                  let in2 : in_range lo 1 b.number ≡ true = ground (arith, here) in
                  let out3 : in_range (suc lo) rounds b.number ≡ false = ground (arith, here) in
                  rw (in1, in2, out3, rest, past, append-nil (tx_logs m node b b.txs)) refl
              | inr later ↦
                  let same : in_range lo (suc rounds) b.number ≡ in_range (suc lo) rounds b.number =
                    ground (arith, later, after) in
                  let out2 : in_range lo 1 b.number ≡ false = ground (arith, later, after) in
                  rw (same, out2, rest, past) refl
            ]
      ]

  logs_from_ranged :
      (rounds lo number : ℕ) (parent : Bytes)
      → LinkedFrom m parent number node.blocks
      → logs_from m node rounds lo ≡ ranged_logs lo rounds node.blocks
  unfolding logs_from block_by_number
  logs_from_ranged zero lo number parent h = sym (none_in lo node.blocks)
    where
      none_in : (lo : ℕ) (blocks : List SealedBlock) → ranged_logs lo zero blocks ≡ []
      none_in lo [] = refl
      none_in lo (b ∷ blocks) =
          let out : in_range lo zero b.number ≡ false = ground arith in
          rw (out, none_in lo blocks) refl
  logs_from_ranged (suc rounds) lo number parent h =
      rw
        (
          logs_from_ranged rounds (suc lo) number parent h,
          sym (ranged_logs_one lo number parent node.blocks h),
        )
        (sym (ranged_logs_split lo rounds number parent node.blocks h))

  -- On a valid node the logs of a range are those of the blocks from `from` to `to`, in chain
  -- order, each block's in the order of its transactions.
  pub logs_in_range_ranged :
      (from to : ℕ)
      → IsValid m node
      → logs_in_range m node from to ≡ ranged_logs from (to + 1 - from) node.blocks
  unfolding logs_in_range
  logs_in_range_ranged from to v = logs_from_ranged (to + 1 - from) from 1 (genesis_hash m) v.chain
