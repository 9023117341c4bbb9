-- ===== src/Execution/Replay.antt =====
-- `replay_blocks` of `crates/move-execution/src/execution.rs`: stored blocks are sealed again, each
-- under its stored fee, and compared.
pub mod Steps
pub mod Restored
use kanari_evm.Prelude.{
  ℕ, Option, none, some, List, [], ◌∷◌, Bytes, bytes_eq, ok, err, if◌then◌else◌, last?,
}
use kanari_evm.Storage.Records.{SealedBlock}
use kanari_evm.Execution.Errors.{NodeResult, text, storage, replay_diverged, state_root_mismatch}
use kanari_evm.Execution.Machine.{Machine}
use kanari_evm.Execution.Action.{Action, pure, lift, gets, ◌>>=◌, ◌>>◌}
use kanari_evm.Execution.Node.{KanariNode}
use kanari_evm.Execution.Seal.{seal_raw_with_fee}

-- A root that was not recorded is not compared.
unfoldable pub check_root : ℕ → Option Bytes → Option Bytes → NodeResult (Unit {0})
check_root number none sealed = ok tt
check_root number (some expected) none = err (storage (state_root_mismatch number))
check_root number (some expected) (some root) =
    if bytes_eq root expected then ok tt else err (storage (state_root_mismatch number))

-- The comparison with the last block; `expect("just sealed")` panics where there is none.
unfoldable pub check_replayed : SealedBlock → Option SealedBlock → NodeResult (Unit {0})
unfolding check_root
check_replayed block none = err (storage (text "just sealed"))
check_replayed block (some sealed) =
    if bytes_eq sealed.hash block.hash
    then check_root block.number block.state_root sealed.state_root
    else err (storage (replay_diverged block.number))

module _ (m : Machine) where
  unfoldable pub replay_txs : SealedBlock → List Bytes → Action (KanariNode m) (Unit {0})
  replay_txs block [] = pure tt
  replay_txs block (raw ∷ txs) = do
    seal_raw_with_fee m raw block.number block.timestamp block.base_fee
    sealed ← gets (λ node. last? node.blocks)
    lift (check_replayed block sealed)
    replay_txs block txs

  unfoldable pub replay_blocks : List SealedBlock → Action (KanariNode m) (Unit {0})
  replay_blocks [] = pure tt
  replay_blocks (block ∷ blocks) = do replay_txs block block.txs; replay_blocks blocks
