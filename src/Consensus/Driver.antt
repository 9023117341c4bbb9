-- ===== src/Consensus/Driver.antt =====
-- The in-process driver of `crates/consensus/src/ordering.rs`: validator cores that exchange their
-- blocks in rounds. A core and its commit handler are the DAG library's, and so are their operations.
pub mod Rounds
use kanari_evm.Prelude.{
  ℕ, zero, suc, Bool, Option, none, some, List, [], ◌∷◌, ◌++◌, Bytes, ltb, length, if◌then◌else◌,
}
use kanari_evm.Consensus.Dag.{CommittedSubDag}

-- The mempool that `try_send` fills is its core's.
pub record DagLibrary : Type 1 where
  pub Core : Type 0
  pub Handler : Type 0
  pub Block : Type 0
  pub Leaders : Type 0
  -- A core with ephemeral storage, of so many validators, at this index, and its handler.
  pub ephemeral : ℕ → ℕ → Core × Handler
  pub try_send : List Bytes → Core → Option Core
  pub drain_submitted_transactions : Core → Core
  pub try_new_block : Core → Option Block × Core
  pub add_blocks : List Block → Core → Core
  pub try_commit : Core → Leaders × Core
  pub handle_commit : Core → Leaders → Handler → List CommittedSubDag × Handler

module _ (d : DagLibrary) where
  open d use {
    Core, Handler, Block, ephemeral, try_send, drain_submitted_transactions, try_new_block,
    add_blocks, try_commit, handle_commit,
  }

  pub record DagOrdering : Type 0 where
    pub cores : List Core
    pub handlers : List Handler

  abbrev pub with_core : Core × Handler → DagOrdering → DagOrdering
  with_core (core, handler) rest = record {
    cores = core ∷ rest.cores;
    handlers = handler ∷ rest.handlers;
  }

  -- The cores from the `i`-th on, `k` of them, in a committee of `n`.
  unfoldable pub spin_up : ℕ → ℕ → ℕ → DagOrdering
  spin_up n zero i = record { cores = []; handlers = [] }
  spin_up n (suc k) i = with_core (ephemeral n i) (spin_up n k (suc i))

  -- `new`, whose assertion fails for fewer than 4 validators.
  unfoldable pub new_ordering : ℕ → Option DagOrdering
  unfolding spin_up
  new_ordering n_validators =
      if ltb n_validators 4 then none else some (spin_up n_validators n_validators 0)

  abbrev pub validator_count : DagOrdering → ℕ
  validator_count o = length o.cores

  abbrev kept : Core → Option (List Core) → Option (List Core)
  kept core none = none
  kept core (some cores) = some (core ∷ cores)

  abbrev replaced : List Core → Option Core → Option (List Core)
  replaced cores none = none
  replaced cores (some core) = some (core ∷ cores)

  unfoldable pub send_to : ℕ → List Bytes → List Core → Option (List Core)
  send_to index payloads [] = none
  send_to zero payloads (core ∷ cores) = replaced cores (try_send payloads core)
  send_to (suc index) payloads (core ∷ cores) = kept core (send_to index payloads cores)

  abbrev with_cores : DagOrdering → Option (List Core) → Option DagOrdering
  with_cores o none = none
  with_cores o (some cores) = some (record o { cores = cores })

  -- `submit`: an index that is out of range and a full mempool are panics.
  unfoldable pub submit : ℕ → List Bytes → DagOrdering → Option DagOrdering
  unfolding send_to
  submit index payloads o = with_cores o (send_to index payloads o.cores)

  abbrev pub push_new : Option Block → List Block → List Block
  push_new none blocks = blocks
  push_new (some block) blocks = block ∷ blocks

  -- The first half of a round: every core drains its mempool and proposes at most one block.
  unfoldable pub propose : List Core → List Block × List Core
  propose [] = ([], [])
  propose (core ∷ cores) =
      let (block, core') = try_new_block (drain_submitted_transactions core) in
      let (blocks, rest) = propose cores in (push_new block blocks, core' ∷ rest)

  -- The second half: every core takes all new blocks and tries to commit.
  unfoldable pub exchange :
      List Block → List Core → List Handler → List (List CommittedSubDag) × DagOrdering
  exchange blocks [] handlers = ([], record { cores = []; handlers = handlers })
  exchange blocks (core ∷ cores) [] = ([], record { cores = core ∷ cores; handlers = [] })
  exchange blocks (core ∷ cores) (handler ∷ handlers) =
      let (leaders, core') = try_commit (add_blocks blocks core) in
      let (commits, handler') = handle_commit core' leaders handler in
      let (out, rest) = exchange blocks cores handlers in
      (commits ∷ out, with_core (core', handler') rest)

  unfoldable pub run_round : DagOrdering → List (List CommittedSubDag) × DagOrdering
  unfolding propose exchange
  run_round o = let (blocks, cores) = propose o.cores in exchange blocks cores o.handlers

  -- `extend` of every core's list by what it has committed in a round.
  abbrev pub extend_each :
      List (List CommittedSubDag) → List (List CommittedSubDag) → List (List CommittedSubDag)
  extend_each [] more = []
  extend_each (commits ∷ committed) [] = commits ∷ committed
  extend_each (commits ∷ committed) (new ∷ more) = (commits ++ new) ∷ extend_each committed more

  -- The rounds from what the cores have committed so far.
  unfoldable pub rounds_from :
      ℕ → List (List CommittedSubDag) → DagOrdering → List (List CommittedSubDag) × DagOrdering
  unfolding run_round
  rounds_from zero committed o = (committed, o)
  rounds_from (suc rounds) committed o =
      let (new, o') = run_round o in rounds_from rounds (extend_each committed new) o'

  abbrev pub nothing_committed : List Core → List (List CommittedSubDag)
  nothing_committed [] = []
  nothing_committed (core ∷ cores) = [] ∷ nothing_committed cores

  unfoldable pub run_rounds : ℕ → DagOrdering → List (List CommittedSubDag) × DagOrdering
  unfolding rounds_from
  run_rounds rounds o = rounds_from rounds (nothing_committed o.cores) o
