-- ===== src/Consensus/Tests.antt =====
-- Commits on the sample node: two transactions of one sender arrive in the wrong order.
use kanari_evm.Prelude.{◌+◌, ◌≡◌, max, some, List, [], ◌∷◌, ◌++◌, Bytes, length, arith}
use kanari_evm.Storage.Records.{SealedBlock}
use kanari_evm.Consensus.Dag.{CommittedSubDag, commit_timestamp}
use kanari_evm.Consensus.Commit.{Executor, execute_commit, execute_commits, spawned, queue_of}
use kanari_evm.Consensus.Commit.Progress.{AllAt, occurrences, txs_of}
use kanari_evm.Consensus.Commit.Run.{Sound, Drained, execute_commit_effect, execute_commits-Sound}
use kanari_evm.Samples.Machines.{sample}
use kanari_evm.Samples.Nodes.{first_node, first_node-IsValid, first_raw}

abbrev second_raw : Bytes
second_raw = 1 ∷ 8 ∷ []

abbrev commit : CommittedSubDag
commit = record {
  anchor = 3 ∷ [];
  blocks =
      record { reference = 3 ∷ []; timestamp = 100; transactions = second_raw ∷ first_raw ∷ [] }
      ∷ [];
}

abbrev first_executor : Executor sample
first_executor = spawned sample first_node

first_executor-Sound : Sound sample first_executor
first_executor-Sound = record {
  valid = first_node-IsValid;
  bounded = omega arith;
  ascending = omega arith;
}

execute_commit_effect_example :
    (ex' : Executor sample) × (added : List SealedBlock) × (execute_commit sample commit
        first_executor
      ≡ some ex')
    × (ex'.last_ts ≡ max (commit_timestamp commit) 0)
    × (ex'.node.blocks ≡ [] ++ added)
    × AllAt (max (commit_timestamp commit) 0) added
    × (length added + length ex'.pending ≡ length (queue_of sample [] commit))
    × ((raw : Bytes)
        → occurrences raw (txs_of added) + occurrences raw ex'.pending
          ≡ occurrences raw (queue_of sample [] commit))
    × Drained sample ex'
execute_commit_effect_example = execute_commit_effect sample commit first_executor

execute_commits-Sound_example :
    (ex' : Executor sample) × (execute_commits sample (commit ∷ commit ∷ []) first_executor
      ≡ some ex')
    × Sound sample ex'
execute_commits-Sound_example =
    execute_commits-Sound sample (commit ∷ commit ∷ []) first_executor first_executor-Sound
      (omega arith)
