-- ===== src/Consensus/Commit.antt =====
-- The execution of commits: the task of `crates/consensus/src/validator.rs` that receives them. Its
-- two variables live in memory only, beside the node.
pub mod Progress
pub mod Sweeps
pub mod Run
use kanari_evm.Prelude.{
  ℕ, zero, suc, ◌+◌, ◌-◌, max, Bool, true, false, not, ◌||◌, Option, none, some, List, [], ◌∷◌,
  ◌++◌, Bytes, ok, err, length, drop, is_empty, ltb, if◌then◌else◌,
}
use kanari_evm.Execution.Errors.{NodeResult}
use kanari_evm.Execution.Machine.{Machine}
use kanari_evm.Execution.Node.{KanariNode, fetch_add}
use kanari_evm.Execution.Seal.{seal_committed}
use kanari_evm.Consensus.Dag.{CommittedSubDag, commit_timestamp, ordered_payloads}

abbrev pub max_pending_payloads : ℕ
max_pending_payloads = 4096

-- The oldest are dropped first.
unfoldable pub drop_overfull : List Bytes → List Bytes
drop_overfull pending =
    if ltb max_pending_payloads (length pending)
    then drop (length pending - max_pending_payloads) pending
    else pending

module _ (m : Machine) where
  -- The variables of one sweep. The counter of sealed payloads is only logged.
  pub record Sweep : Type 0 where
    pub node : KanariNode m
    pub progress : Bool
    pub still_pending : List Bytes
    pub sealed : ℕ

  abbrev pub after_seal : Sweep → Bytes → NodeResult Bytes × KanariNode m → Sweep
  after_seal s raw (ok hash, node) = record s {
    node = node;
    progress = true;
    sealed = s.sealed + 1;
  }
  after_seal s raw (err e, node) = record s {
    node = node;
    still_pending = s.still_pending ++ raw ∷ [];
  }

  -- The `for` loop over the drained queue.
  unfoldable pub sweep : ℕ → List Bytes → Sweep → Sweep
  sweep ts [] s = s
  sweep ts (raw ∷ rest) s = sweep ts rest (after_seal s raw (seal_committed m raw ts s.node))

  abbrev pub start : KanariNode m → ℕ → Sweep
  start node sealed = record { node = node; progress = false; still_pending = []; sealed = sealed }

  -- The outer loop, on fuel: it stops after a sweep without progress, or with nothing left.
  unfoldable pub fixation : ℕ → ℕ → List Bytes → KanariNode m → ℕ → Option Sweep
  fixation zero ts pending node sealed = none
  fixation (suc fuel) ts pending node sealed =
      let s = sweep ts pending (start node sealed) in
      let again = fixation fuel ts s.still_pending s.node s.sealed in
      if not s.progress || is_empty s.still_pending then some s else again

  pub record Executor : Type 0 where
    pub node : KanariNode m
    pub last_ts : ℕ
    pub pending : List Bytes

  abbrev pub saw_commit : KanariNode m → KanariNode m
  saw_commit node = record node {
    metrics = record node.metrics { commits_seen = fetch_add node.metrics.commits_seen };
  }

  abbrev pub queue_of : List Bytes → CommittedSubDag → List Bytes
  queue_of pending commit = drop_overfull (pending ++ ordered_payloads (commit ∷ []))

  abbrev pub executed : ℕ → Option Sweep → Option Executor
  executed ts none = none
  executed ts (some s) = some (record { node = s.node; last_ts = ts; pending = s.still_pending })

  -- One received commit. A sweep that goes on has sealed a payload, so one more round than the
  -- queue has payloads is enough fuel.
  unfoldable pub execute_commit : CommittedSubDag → Executor → Option Executor
  execute_commit commit ex =
      let ts = max (commit_timestamp commit) ex.last_ts in
      let pending = queue_of ex.pending commit in
      executed ts (fixation (length pending + 1) ts pending (saw_commit ex.node) 0)

  -- The commits in the order of consensus; the first of the list comes first.
  unfoldable pub execute_commits : List CommittedSubDag → Executor → Option Executor
  execute_commits [] ex = some ex
  execute_commits (commit ∷ commits) ex = elim (execute_commit commit ex) [
    | none ↦ none
    | some ex' ↦ execute_commits commits ex'
  ]

  abbrev pub spawned : KanariNode m → Executor
  spawned node = record { node = node; last_ts = 0; pending = [] }
