-- ===== src/Consensus/Spawn.antt =====
-- `ValidatorNode::spawn` of `crates/consensus/src/validator.rs`, up to the tasks that it starts: the
-- one that executes commits is in Consensus/Commit. The caller reads the committee and the key.
pub mod Queued
use Prim.Native.String.{String}
use kanari_evm.Prelude.{ℕ, Option, none, some, ◌++◌, Result, ok, err, map_err, ◌>>=◌, ◌>>◌}
use kanari_evm.Types.Text.{Text}
use kanari_evm.Storage.Keys.{codes}
use kanari_evm.Execution.Machine.{Machine}
use kanari_evm.Execution.Node.{Mailbox, KanariNode, set_dag_sender}
use kanari_evm.Consensus.Committee.{CommitteeError, DagCommittee, KeyScheme, load_validator}

pub data ValidatorError : Type 0 where
  committee_error : CommitteeError → ValidatorError
  storage_error : String → ValidatorError

-- The file system, and the DAG library's log, at the path of its file.
pub record DagFiles : Type 0 where
  pub create_dir_all : Text → Result String (Unit {0})
  pub open_wal : Text → Result String (Unit {0})

-- Without a directory the log is in a temporary file.
unfoldable pub open_storage : DagFiles → Option Text → Result ValidatorError (Unit {0})
open_storage files none = ok tt
open_storage files (some dir) = do
  map_err storage_error (files.create_dir_all dir)
  map_err storage_error (files.open_wal (dir ++ codes "/wal"))

module _ (m : Machine) (scheme : KeyScheme) where
  open scheme use {Signer}

  -- The node's own transactions go to the new channel from here on. The core, the network and the
  -- syncer, which the DAG library sets up in between, are left out.
  unfoldable pub spawn :
      DagFiles
      → DagCommittee
      → Signer
      → Option Text
      → Mailbox
      → KanariNode m
      → Result ValidatorError (KanariNode m)
  unfolding open_storage
  spawn files committee signer dag_wal_dir dag_tx node = do
    loaded ← map_err committee_error (load_validator scheme committee signer)
    open_storage files dag_wal_dir
    ok (set_dag_sender m dag_tx node)
