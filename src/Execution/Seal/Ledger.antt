-- ===== src/Execution/Seal/Ledger.antt =====
-- The chain as an append-only ledger: what any way of sending a transaction does to the blocks.
use mathlib.Core.List.{append_assoc, append-nil}
use kanari_evm.Prelude.{
  ℕ, ◌+◌, ◌≡◌, sym, ap, ◌∙◌, Option, none, some, List, [], ◌∷◌, ◌++◌, Bytes, ok, err,
}
use kanari_evm.Types.Word.{as_u64}
use kanari_evm.Storage.Records.{SealedBlock}
use kanari_evm.Execution.Errors.{NodeResult}
use kanari_evm.Execution.Machine.{Machine}
use kanari_evm.Execution.Node.{KanariNode, Mailbox, block_number, pending_base_fee}
use kanari_evm.Execution.Seal.{
  seal_raw, seal_committed, send_raw_transaction, send_in_mode, queued, try_send,
}
use kanari_evm.Execution.Seal.Outcome.{Outcome, seal_raw_with_fee-Outcome}
use kanari_evm.Execution.Seal.Chain.{seal_committed-Outcome}

module _ (m : Machine) where
  -- The later node has the earlier one's blocks first, in order.
  abbrev pub Extends : KanariNode m → KanariNode m → Type 0
  Extends n n' = (more : List SealedBlock) × (n'.blocks ≡ n.blocks ++ more)

  pub Extends-refl : (n : KanariNode m) → Extends n n
  Extends-refl n = ([], sym (append-nil _))

  pub Extends-trans : (n n' n'' : KanariNode m) → Extends n n' → Extends n' n'' → Extends n n''
  Extends-trans n n' n'' (more, e) (more', e') = (
    more ++ more',
    e' ∙ ap (λ (l : List SealedBlock). l ++ more') e ∙ append_assoc n.blocks more more',
  )

  Outcome-Extends :
      (n : KanariNode m) (raw : Bytes) (number timestamp base_fee : ℕ)
      (out : NodeResult Bytes × KanariNode m)
      → Outcome m n raw number timestamp base_fee out
      → Extends n out.1
  Outcome-Extends n raw number timestamp base_fee (ok hash, n') s = (s.block ∷ [], s.blocks)
  Outcome-Extends n raw number timestamp base_fee (err e, n') same =
      ([], same.blocks ∙ sym (append-nil _))

  pub seal_committed-Extends :
      (raw : Bytes) (timestamp : ℕ) (n : KanariNode m)
      → Extends n (seal_committed m raw timestamp n).1
  seal_committed-Extends raw timestamp n =
      Outcome-Extends n raw (block_number m n + 1) timestamp (as_u64 (pending_base_fee m n)) _
        (seal_committed-Outcome m raw timestamp n)

  pub send_raw_transaction-Extends :
      (now_secs : ℕ) (raw : Bytes) (n : KanariNode m)
      → Extends n (send_raw_transaction m now_secs raw n).1
  unfolding send_raw_transaction seal_raw
  send_raw_transaction-Extends now_secs raw n = in_mode n.dag_sender
    where
      sent : (sender : Option Mailbox) → Extends n (queued m raw sender n).1
      sent none = Extends-refl n
      sent (some sender) = ([], sym (append-nil _))

      in_mode : (sender : Option Mailbox) → Extends n (send_in_mode m now_secs raw sender n).1
      in_mode none =
          Outcome-Extends n raw (block_number m n + 1) now_secs (as_u64 (pending_base_fee m n)) _ (
            seal_raw_with_fee-Outcome m raw (block_number m n + 1) now_secs
              (as_u64 (pending_base_fee m n)) n)
      in_mode (some sender) = sent (try_send (raw ∷ []) sender)
