-- ===== src/Rpc/Logs.antt =====
-- The tests of a log filter of `crates/server_rpc/src/rpc.rs`, and `logs_in_range` of
-- `crates/move-execution/src/views.rs`.
pub mod Topics
pub mod Range
mod Tests
use Prim.Native.String.{String}
use kanari_evm.Prelude.{
  ℕ, zero, suc, ◌+◌, ◌-◌, min, max, Bool, true, false, ◌&&◌, Option, none, some, List, [], ◌∷◌,
  ◌++◌, Bytes, bytes_eq, Result, ok, err, ◌>>=◌, get_elem?, if◌then◌else◌,
}
use kanari_evm.Storage.Records.{SealedBlock, StoredLog, StoredReceipt}
use kanari_evm.Execution.Machine.{Machine}
use kanari_evm.Execution.Node.{KanariNode, block_number, block_by_number, block_by_hash, receipt}

pub record SealedLog : Type 0 where
  pub block_number : ℕ
  pub block_hash : Bytes
  pub tx_hash : Bytes
  pub log_index : ℕ
  pub log : StoredLog

abbrev pub contains : List Bytes → Bytes → Bool
contains [] x = false
contains (y ∷ ys) x = if bytes_eq y x then true else contains ys x

abbrev pub slot_matches : Option (List Bytes) → Option Bytes → Bool
slot_matches none topic = true
slot_matches (some options) none = false
slot_matches (some options) (some topic) = contains options topic

-- The filter's positions from `i` on.
unfoldable pub topics_match_from : ℕ → List (Option (List Bytes)) → List Bytes → Bool
topics_match_from i [] topics = true
topics_match_from i (slot ∷ filter) topics =
    slot_matches slot (get_elem? topics i) && topics_match_from (suc i) filter topics

unfoldable pub topics_match : List (Option (List Bytes)) → List Bytes → Bool
topics_match filter topics = topics_match_from 0 filter topics

abbrev pub address_matches : Option (List Bytes) → Bytes → Bool
address_matches none address = true
address_matches (some addresses) address = contains addresses address

abbrev pub keep : (SealedLog → Bool) → List SealedLog → List SealedLog
keep p [] = []
keep p (l ∷ logs) = let rest = keep p logs in if p l then l ∷ rest else rest

module _ (m : Machine) where
  open m use {keccak256}

  -- The logs of one transaction, numbered from `i`.
  abbrev pub numbered_logs : SealedBlock → Bytes → ℕ → List StoredLog → List SealedLog
  numbered_logs b hash i [] = []
  numbered_logs b hash i (log ∷ logs) =
      record {
        block_number = b.number;
        block_hash = b.hash;
        tx_hash = hash;
        log_index = i;
        log = log;
      }
      ∷ numbered_logs b hash (suc i) logs

  abbrev pub receipt_logs : SealedBlock → Bytes → Option StoredReceipt → List SealedLog
  receipt_logs b hash none = []
  receipt_logs b hash (some r) = numbered_logs b hash 0 r.logs

  unfoldable pub tx_logs : KanariNode m → SealedBlock → List Bytes → List SealedLog
  tx_logs node b [] = []
  tx_logs node b (raw ∷ txs) =
      receipt_logs b (keccak256 raw) (receipt m node (keccak256 raw)) ++ tx_logs node b txs

  abbrev pub block_logs : KanariNode m → Option SealedBlock → List SealedLog
  block_logs node none = []
  block_logs node (some b) = tx_logs node b b.txs

  -- The loop from `number`, `rounds` numbers long.
  unfoldable pub logs_from : KanariNode m → ℕ → ℕ → List SealedLog
  logs_from node zero number = []
  logs_from node (suc rounds) number =
      block_logs node (block_by_number m node number) ++ logs_from node rounds (suc number)

  unfoldable pub logs_in_range : KanariNode m → ℕ → ℕ → List SealedLog
  unfolding logs_from
  logs_in_range node from to = logs_from node (to + 1 - from) from
