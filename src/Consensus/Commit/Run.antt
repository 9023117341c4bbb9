-- ===== src/Consensus/Commit/Run.antt =====
-- The execution of a whole commit, and of a stream of them.
use kanari_evm.Prelude.{
  ℕ, ◌+◌, ◌-◌, ◌*◌, ◌^◌, ◌≤◌, ◌<◌, ◌≡◌, refl, sym, ap, max, List, [], ◌∷◌, ◌++◌, Bytes, some,
  length, length-append, length-drop, arith, ◌⊎◌, subst,
}
use kanari_evm.Storage.Records.{SealedBlock}
use kanari_evm.Execution.Machine.{Machine}
use kanari_evm.Execution.Node.{KanariNode}
use kanari_evm.Execution.Seal.Chain.{IsValid}
use kanari_evm.Consensus.Dag.{CommittedSubDag, commit_timestamp}
use kanari_evm.Consensus.Commit.{
  Executor, execute_commit, execute_commits, executed, queue_of, drop_overfull, saw_commit,
}
use kanari_evm.Consensus.Commit.Progress.{AllAt, occurrences, txs_of}
use kanari_evm.Consensus.Commit.Sweeps.{AllFail, fixation-Settles}

-- Block timestamps that never go back, from a lower to an upper bound.
abbrev pub Ascending : ℕ → ℕ → List SealedBlock → Type 0
Ascending lo hi [] = lo ≤ hi
Ascending lo hi (b ∷ blocks) = (lo ≤ b.timestamp) × Ascending b.timestamp hi blocks

Ascending-AllAt :
    (ts lo : ℕ) (blocks : List SealedBlock) → lo ≤ ts → AllAt ts blocks → Ascending lo ts blocks
Ascending-AllAt ts lo [] le h = le
Ascending-AllAt ts lo (b ∷ blocks) le h =
    (omega (arith, h.0, le), Ascending-AllAt ts b.timestamp blocks (omega (arith, h.0)) h.1)

Ascending-append :
    (lo hi ts : ℕ) (xs ys : List SealedBlock)
    → Ascending lo hi xs
    → hi ≤ ts
    → AllAt ts ys
    → Ascending lo ts (xs ++ ys)
Ascending-append lo hi ts [] ys h le k = Ascending-AllAt ts lo ys (omega (arith, h, le)) k
Ascending-append lo hi ts (x ∷ xs) ys h le k =
    (h.0, Ascending-append x.timestamp hi ts xs ys h.1 le k)

length-drop_overfull : (queue : List Bytes) → length (drop_overfull queue) ≤ 4096
unfolding drop_overfull
length-drop_overfull queue = ground (arith, length-drop (length queue - 4096) queue)

module _ (m : Machine) where
  -- What holds between two commits.
  pub record Sound (ex : Executor m) : Type 0 where
    pub valid : IsValid m ex.node
    pub bounded : length ex.pending ≤ 4096
    pub ascending : Ascending 0 ex.last_ts ex.node.blocks

  -- How a commit is left: with nothing pending, or with payloads that have all just failed in turn.
  abbrev pub Drained : Executor m → Type 0
  Drained ex = (ex.pending ≡ []) ⊎ ((n : KanariNode m) × AllFail m ex.last_ts ex.pending n ex.node)

  module _ (commit : CommittedSubDag) (ex : Executor m) where
    abbrev ts : ℕ
    ts = max (commit_timestamp commit) ex.last_ts

    abbrev queue : List Bytes
    queue = queue_of m ex.pending commit

    -- The execution of a commit ends. It seals blocks at the end of the chain, all with the commit's clamped
    -- timestamp; each payload of the queue is as often in these blocks and in the queue that is
    -- left as it was in the queue; and what is left has just failed, payload by payload.
    pub execute_commit_effect :
        (ex' : Executor m) × (added : List SealedBlock) × (execute_commit m commit ex ≡ some ex')
        × (ex'.last_ts ≡ ts)
        × (ex'.node.blocks ≡ ex.node.blocks ++ added)
        × AllAt ts added
        × (length added + length ex'.pending ≡ length queue)
        × ((raw : Bytes)
            → occurrences raw (txs_of added) + occurrences raw ex'.pending ≡ occurrences raw queue)
        × Drained ex'
    unfolding execute_commit
    execute_commit_effect =
        let (s, e, p, kept, fixed) =
          fixation-Settles m (length queue + 1) ts queue (saw_commit m ex.node) 0 (omega arith) in
        (
          record { node = s.node; last_ts = ts; pending = s.still_pending },
          p.added,
          ap (executed m ts) e,
          refl,
          p.blocks,
          p.stamped,
          p.counted,
          p.conserved,
          fixed,
        )

    -- The invariant is kept, where the chain has room for the queue.
    execute_commit-Sound :
        Sound ex
        → length ex.node.blocks + 4096 < 2 ^ 64
        → (ex' : Executor m) × (execute_commit m commit ex ≡ some ex')
          × Sound ex'
          × (length ex'.node.blocks ≤ length ex.node.blocks + 4096)
    unfolding execute_commit
    execute_commit-Sound sound fits =
        let (s, e, p, kept, fixed) =
          fixation-Settles m (length queue + 1) ts queue (saw_commit m ex.node) 0 (omega arith) in
        let small : length queue ≤ 4096 = length-drop_overfull _ in
        (
          record { node = s.node; last_ts = ts; pending = s.still_pending },
          ap (executed m ts) e,
          record {
            valid =
                p.valid (record { chain = sound.valid.chain; stored = sound.valid.stored })
                  (omega (arith, small, fits));
            bounded = omega (arith, p.counted, small);
            ascending = subst (Ascending 0 ts) (sym p.blocks) (
                Ascending-append 0 ex.last_ts ts ex.node.blocks p.added sound.ascending
                  (omega arith) p.stamped);
          },
          omega (arith, ap length p.blocks, length-append ex.node.blocks p.added, p.counted, small),
        )

  execute_commits-cons :
      (commit : CommittedSubDag) (commits : List CommittedSubDag) (ex : Executor m)
      {ex1 ex2 : Executor m}
      → execute_commit m commit ex ≡ some ex1
      → execute_commits m commits ex1 ≡ some ex2
      → execute_commits m (commit ∷ commits) ex ≡ some ex2
  unfolding execute_commits
  execute_commits-cons commit commits ex h k = rw (execute_commits, h, k) refl

  -- A stream of commits is executed to its end, and leaves a valid chain with timestamps that never
  -- go back and at most 4096 pending payloads.
  pub execute_commits-Sound :
      (commits : List CommittedSubDag) (ex : Executor m)
      → Sound ex
      → length ex.node.blocks + 4096 * length commits < 2 ^ 64
      → (ex' : Executor m) × (execute_commits m commits ex ≡ some ex') × Sound ex'
  unfolding execute_commits
  execute_commits-Sound [] ex sound fits = (ex, refl, sound)
  execute_commits-Sound (commit ∷ commits) ex sound fits =
      let (ex1, e1, sound1, grown) = execute_commit-Sound commit ex sound (omega (arith, fits)) in
      let (ex2, e2, sound2) =
        execute_commits-Sound commits ex1 sound1 (omega (arith, fits, grown)) in
      (ex2, execute_commits-cons commit commits ex e1 e2, sound2)
