-- ===== src/Rpc/Handlers/Blocks.antt =====
-- The methods that read the chain: transactions, receipts, logs, blocks, fees and the supply.
use kanari_evm.Prelude.{
  ℕ, zero, suc, ◌+◌, ◌-◌, min, max, Bool, false, ◌&&◌, ◌||◌, Option, none, some, List, Bytes,
  bytes_eq, ok, err, ◌>>=◌, get_elem?, length, if◌then◌else◌,
}
use kanari_evm.Types.Text.{Text, decimal_text}
use kanari_evm.Types.Hex.{quantity_u64, quantity_u256}
use kanari_evm.Types.Gas.{block_gas_limit}
use kanari_evm.Storage.Keys.{codes}
use kanari_evm.Storage.Records.{SealedBlock}
use kanari_evm.Json.{
  Value, null, boolean, number, quotient, string, array, object, Items, nil, cons, field, end,
  Fields, of_list, lit, as_array, as_object, as_bool, fields_or_empty,
}
use kanari_evm.Execution.Node.{
  KanariNode, block_number, block_by_number, block_gas_used, pending_base_fee, supply,
}
use kanari_evm.Rpc.Params.{
  Parsed, parse_u64, parse_hash, log_range_from_json, log_addresses, log_topics,
}
use kanari_evm.Rpc.Logs.{SealedLog, keep, logs_in_range, topics_match, address_matches}
use kanari_evm.Rpc.Response.{Reply, want, of_parsed}
use kanari_evm.Rpc.Services.{Services}
use kanari_evm.Rpc.Views.{tx_view, receipt_view, block_view, block_view_by_hash}
use kanari_evm.Rpc.Views.Parts.{null_if_none, render_logs}
use kanari_evm.Rpc.Handlers.Accounts.{arguments}

abbrev pub flag_or_false : Option Value → Bool
flag_or_false none = false
flag_or_false (some v) = elim (as_bool v) [ none ↦ false | some b ↦ b ]

abbrev pub fields_of : Option Value → Fields
fields_of none = end
fields_of (some v) = fields_or_empty (as_object v)

abbrev pub count_or : ℕ → Option Value → ℕ
count_or default none = default
count_or default (some v) = elim (parse_u64 v) [ ok n ↦ n | err e ↦ default ]

abbrev pub rewards_per_block : Option Value → ℕ
rewards_per_block none = 1
rewards_per_block (some v) = elim (as_array v) [ none ↦ 1 | some rows ↦ max (length rows) 1 ]

abbrev pub repeat : ℕ → Value → Items
repeat zero v = nil
repeat (suc n) v = cons v (repeat n v)

-- `latest`, `pending` and `earliest`, or a quantity; none is the head.
abbrev pub block_text : Text → Parsed (Option ℕ)
block_text t =
    if bytes_eq t (codes "latest") || bytes_eq t (codes "pending")
    then ok none
    else if bytes_eq t (codes "earliest")
    then ok (some 0)
    else parse_u64 (string t) >>= λ n. ok (some n)

abbrev pub block_param : Value → Parsed (Option ℕ)
block_param (string t) = block_text t
block_param null = parse_u64 null >>= λ n. ok (some n)
block_param (boolean b) = parse_u64 (boolean b) >>= λ n. ok (some n)
block_param (number n) = parse_u64 (number n) >>= λ k. ok (some k)
block_param (array items) = parse_u64 (array items) >>= λ n. ok (some n)
block_param (object fields) = parse_u64 (object fields) >>= λ n. ok (some n)

abbrev pub number_or : ℕ → Option ℕ → ℕ
number_or latest none = latest
number_or latest (some n) = n

-- The number of blocks that a fee history is asked for: 4 where it does not parse, clamped.
abbrev pub block_count : Value → ℕ
block_count params = min (max (count_or 4 (get_elem? (arguments params) 0)) 1) 32

module _ (s : Services) where
  open s use {machine, forms}

  unfoldable pub net_version : KanariNode machine → Reply Value
  net_version node = ok (string (decimal_text 20 node.spec.chain_id))

  unfoldable pub get_transaction_by_hash : Value → KanariNode machine → Reply Value
  get_transaction_by_hash params node = do
    hash_v ← want "want [hash]" (get_elem? (arguments params) 0)
    hash ← of_parsed (parse_hash forms hash_v)
    ok (null_if_none (tx_view forms machine node hash))

  unfoldable pub get_transaction_receipt : Value → KanariNode machine → Reply Value
  get_transaction_receipt params node = do
    hash_v ← want "want [hash]" (get_elem? (arguments params) 0)
    hash ← of_parsed (parse_hash forms hash_v)
    ok (null_if_none (receipt_view forms machine node hash))

  abbrev pub log_passes : Option (List Bytes) → List (Option (List Bytes)) → SealedLog → Bool
  log_passes addresses topics l =
      address_matches addresses l.log.address && topics_match topics l.log.topics

  -- The range is resolved before the addresses and the topics are parsed.
  unfoldable pub get_logs_json : Value → KanariNode machine → Reply Value
  get_logs_json params node = do
    let filter = fields_of (get_elem? (arguments params) 0)
    range ← of_parsed (log_range_from_json forms machine filter (block_number machine node) node)
    addresses ← of_parsed (log_addresses forms filter)
    topics ← of_parsed (log_topics forms filter)
    let found = keep (log_passes addresses topics) (logs_in_range machine node range.0 range.1)
    ok (array (of_list (render_logs forms found)))

  unfoldable pub get_block_by_hash : Value → KanariNode machine → Reply Value
  get_block_by_hash params node = do
    hash_v ← want "want [blockHash, fullTxs]" (get_elem? (arguments params) 0)
    hash ← of_parsed (parse_hash forms hash_v)
    let full_txs = flag_or_false (get_elem? (arguments params) 1)
    ok (null_if_none (block_view_by_hash forms machine node hash full_txs))

  unfoldable pub get_block_by_number : Value → KanariNode machine → Reply Value
  get_block_by_number params node = do
    number_v ← want "want [blockNumber, fullTxs]" (get_elem? (arguments params) 0)
    asked ← of_parsed (block_param number_v)
    let full_txs = flag_or_false (get_elem? (arguments params) 1)
    ok (
        null_if_none
          (block_view forms machine node (number_or (block_number machine node) asked) full_txs))

  abbrev pub fee_at : KanariNode machine → Option SealedBlock → ℕ
  fee_at node none = pending_base_fee machine node
  fee_at node (some b) = b.base_fee

  -- The fee and the gas use of a block, 0 where there is none.
  abbrev pub gas_at : KanariNode machine → ℕ → Option SealedBlock → ℕ
  gas_at node n none = 0
  gas_at node n (some b) = block_gas_used machine node n

  -- The rows from block `n` on, `rounds` of them; the fees end with the pending one.
  unfoldable pub history_fees : KanariNode machine → ℕ → ℕ → Items
  history_fees node zero n = cons (string (quantity_u256 (pending_base_fee machine node))) nil
  history_fees node (suc rounds) n =
      cons (string (quantity_u256 (fee_at node (block_by_number machine node n))))
        (history_fees node rounds (suc n))

  unfoldable pub history_ratios : KanariNode machine → ℕ → ℕ → Items
  history_ratios node zero n = nil
  history_ratios node (suc rounds) n =
      cons (number (quotient (gas_at node n (block_by_number machine node n)) block_gas_limit))
        (history_ratios node rounds (suc n))

  abbrev pub history_view : KanariNode machine → ℕ → ℕ → Value
  history_view node count n_rewards =
      let latest = block_number machine node in
      let oldest = latest - (count - 1) in
      object (
        field (codes "oldestBlock") (string (quantity_u64 oldest)) (
          field (codes "baseFeePerGas") (array (history_fees node (latest + 1 - oldest) oldest)) (
            field (codes "gasUsedRatio") (array (history_ratios node (latest + 1 - oldest) oldest))
              (field (codes "reward") (array (repeat count (array (repeat n_rewards (lit "0x0")))))
                end))))

  unfoldable pub fee_history : Value → KanariNode machine → Reply Value
  unfolding history_fees history_ratios
  fee_history params node =
      ok (
        history_view node (block_count params) (rewards_per_block (get_elem? (arguments params) 2)))

  unfoldable pub supply_view : KanariNode machine → Reply Value
  supply_view node =
      let (total, most) = supply machine node in
      ok (
        object (
          field (codes "totalSupply") (string (quantity_u256 total))
            (field (codes "maxSupply") (string (quantity_u256 most)) end)))
