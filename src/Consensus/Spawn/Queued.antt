-- ===== src/Consensus/Spawn/Queued.antt =====
-- What `ValidatorNode::spawn` of `crates/consensus/src/validator.rs` makes of a node.
use kanari_evm.Prelude.{
  ℕ, ◌≡◌, refl, [], ◌∷◌, Option, Bytes, ok, Result-cases, inl, inr, Option-cases,
}
use kanari_evm.Types.Text.{Text}
use kanari_evm.Execution.Machine.{Machine}
use kanari_evm.Execution.Node.{Mailbox, KanariNode, set_dag_sender}
use kanari_evm.Execution.Seal.{send_raw_transaction, try_send}
use kanari_evm.Consensus.Committee.{DagCommittee, KeyScheme, load_validator}
use kanari_evm.Consensus.Spawn.{DagFiles, open_storage, spawn}

module _ (m : Machine) (scheme : KeyScheme) where
  spawn-eq-ok :
      (files : DagFiles) (committee : DagCommittee) (signer : scheme.Signer) (dir : Option Text)
      (dag_tx : Mailbox) (node : KanariNode m) {node' : KanariNode m}
      → spawn m scheme files committee signer dir dag_tx node ≡ ok node'
      → node' ≡ set_dag_sender m dag_tx node
  unfolding spawn
  spawn-eq-ok files committee signer dir dag_tx node h =
      elim (Result-cases (load_validator scheme committee signer)) [
        | inr (why, l) ↦ cc (rw l at h)
        | inl (loaded, l) ↦ elim (Result-cases (open_storage files dir)) [
          | inr (why, o) ↦ cc (rw (l, o) at h)
          | inl (u, o) ↦ cc (rw (l, o) at h)
        ]
      ]

  -- A transaction that a node with a sender is given is queued, or refused where the queue is full.
  queued-blocks :
      (now_secs : ℕ) (raw : Bytes) (dag_tx : Mailbox) (node : KanariNode m)
      → (send_raw_transaction m now_secs raw (set_dag_sender m dag_tx node)).1.blocks ≡ node.blocks
  unfolding send_raw_transaction set_dag_sender
  queued-blocks now_secs raw dag_tx node = elim (Option-cases (try_send (raw ∷ []) dag_tx)) [
    | inl full ↦ rw full refl
    | inr (sender, sent) ↦ rw sent refl
  ]

  -- A spawned validator seals no transaction when it is given one.
  spawn_queues :
      (files : DagFiles) (committee : DagCommittee) (signer : scheme.Signer) (dir : Option Text)
      (dag_tx : Mailbox) (node : KanariNode m) {node' : KanariNode m} (now_secs : ℕ) (raw : Bytes)
      → spawn m scheme files committee signer dir dag_tx node ≡ ok node'
      → (send_raw_transaction m now_secs raw node').1.blocks ≡ node.blocks
  spawn_queues files committee signer dir dag_tx node now_secs raw h =
      rw (spawn-eq-ok files committee signer dir dag_tx node h)
        (queued-blocks now_secs raw dag_tx node)
