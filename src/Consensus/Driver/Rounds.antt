-- ===== src/Consensus/Driver/Rounds.antt =====
-- Rounds of the in-process driver of `crates/consensus/src/ordering.rs` in succession.
use kanari_evm.Prelude.{arith, ℕ, zero, suc, ◌+◌, ◌≡◌, refl, ap, ◌∙◌, List, [], ◌∷◌, length}
use kanari_evm.Consensus.Dag.{CommittedSubDag}
use kanari_evm.Consensus.Driver.{
  DagLibrary, DagOrdering, run_round, extend_each, rounds_from, nothing_committed, run_rounds,
  validator_count,
}

module _ (d : DagLibrary) where
  -- So many rounds and then more are both of them in one.
  rounds_from-add :
      (a b : ℕ) (committed : List (List CommittedSubDag)) (o : DagOrdering d)
      → rounds_from d (a + b) committed o
        ≡ rounds_from d b (rounds_from d a committed o).0 (rounds_from d a committed o).1
  unfolding rounds_from
  rounds_from-add zero b committed o = let e : zero + b ≡ b = omega arith in rw e refl
  rounds_from-add (suc a) b committed o =
      let e : suc a + b ≡ suc (a + b) = omega arith in
      rw e (rounds_from-add a b (extend_each d committed (run_round d o).0) (run_round d o).1)

  -- A round takes no core's list away.
  length-extend_each :
      (committed more : List (List CommittedSubDag))
      → length (extend_each d committed more) ≡ length committed
  length-extend_each [] more = refl
  length-extend_each (c ∷ committed) [] = refl
  length-extend_each (c ∷ committed) (new ∷ more) = ap suc (length-extend_each committed more)

  length-rounds_from :
      (rounds : ℕ) (committed : List (List CommittedSubDag)) (o : DagOrdering d)
      → length (rounds_from d rounds committed o).0 ≡ length committed
  unfolding rounds_from
  length-rounds_from zero committed o = refl
  length-rounds_from (suc rounds) committed o =
      length-rounds_from rounds _ _ ∙ length-extend_each committed (run_round d o).0

  -- The driver returns one list for each core.
  length-nothing_committed :
      (cores : List (DagLibrary.Core d)) → length (nothing_committed d cores) ≡ length cores
  length-nothing_committed [] = refl
  length-nothing_committed (core ∷ cores) = ap suc (length-nothing_committed cores)

  length-run_rounds :
      (rounds : ℕ) (o : DagOrdering d) → length (run_rounds d rounds o).0 ≡ validator_count d o
  unfolding run_rounds
  length-run_rounds rounds o = length-rounds_from rounds _ o ∙ length-nothing_committed o.cores
