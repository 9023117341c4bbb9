-- ===== src/Consensus/Dag.antt =====
-- A committed part of the DAG: `commit_timestamp` of `crates/consensus/src/validator.rs` and
-- `ordered_payloads` of `crates/consensus/src/ordering.rs`. The block of the DAG library is read
-- only through these three fields.
use kanari_evm.Prelude.{ℕ, max, none, some, List, [], ◌∷◌, ◌++◌, Bytes, bytes_eq, find}

pub record DagBlock : Type 0 where
  pub reference : Bytes
  -- In whole seconds.
  pub timestamp : ℕ
  pub transactions : List Bytes

pub record CommittedSubDag : Type 0 where
  pub anchor : Bytes
  pub blocks : List DagBlock

-- `max().unwrap_or(0)` of the timestamps.
unfoldable pub newest_timestamp : List DagBlock → ℕ
newest_timestamp [] = 0
newest_timestamp (b ∷ blocks) = max b.timestamp (newest_timestamp blocks)

unfoldable pub commit_timestamp : CommittedSubDag → ℕ
commit_timestamp commit =
    elim (find (λ (b : DagBlock). bytes_eq b.reference commit.anchor) commit.blocks) [
      | some anchor ↦ anchor.timestamp
      | none ↦ newest_timestamp commit.blocks
    ]

unfoldable pub block_payloads : List DagBlock → List Bytes
block_payloads [] = []
block_payloads (b ∷ blocks) = b.transactions ++ block_payloads blocks

unfoldable pub ordered_payloads : List CommittedSubDag → List Bytes
ordered_payloads [] = []
ordered_payloads (c ∷ commits) = block_payloads c.blocks ++ ordered_payloads commits
