-- ===== src/Rpc/Handlers/History.antt =====
-- The rows of `eth_feeHistory`.
use kanari_evm.Prelude.{
  ℕ, zero, suc, ◌+◌, ◌-◌, ◌≤◌, ◌<◌, ◌≡◌, refl, min, some, ok, length, get_elem?, arith, bytes_eq,
}
use kanari_evm.Storage.Keys.{codes}
use kanari_evm.Types.Hex.{quantity_u256}
use kanari_evm.Json.{Value, array, object, string, Items, Fields, get, to_list}
use kanari_evm.Execution.Node.{KanariNode, block_number, block_by_number, pending_base_fee}
use kanari_evm.Rpc.Response.{Reply}
use kanari_evm.Rpc.Services.{Services}
use kanari_evm.Rpc.Handlers.Blocks.{
  fee_history, fee_at, history_fees, history_ratios, repeat, block_count,
}

length-repeat : (n : ℕ) (v : Value) → length (to_list (repeat n v)) ≡ n
length-repeat zero v = refl
length-repeat (suc n) v = omega (arith, length-repeat n v)

module _ (s : Services) where
  open s use {machine}

  -- The blocks that are told of, of the count that is asked for.
  abbrev pub rows : ℕ → KanariNode machine → ℕ
  rows count n = min count (block_number machine n + 1)

  -- One fee and one ratio for each block, the oldest first, the pending fee after them, and one
  -- row of rewards for each block that was asked for.
  pub record History (n : KanariNode machine) (count : ℕ) (reply : Reply Value) : Type 0 where
    pub fields : Fields
    pub fees : Items
    pub ratios : Items
    pub rewards : Items
    pub answered : reply ≡ ok (object fields)
    pub fees_told : get (codes "baseFeePerGas") fields ≡ some (array fees)
    pub ratios_told : get (codes "gasUsedRatio") fields ≡ some (array ratios)
    pub rewards_told : get (codes "reward") fields ≡ some (array rewards)
    pub fees_length : length (to_list fees) ≡ rows count n + 1
    pub ratios_length : length (to_list ratios) ≡ rows count n
    pub rewards_length : length (to_list rewards) ≡ count
    pub fee_entries :
        (i : ℕ)
        → i < rows count n
        → get_elem? (to_list fees) i
          ≡ some (
              string (
                quantity_u256 (
                  fee_at s n
                    (block_by_number machine n (block_number machine n + 1 - rows count n + i)))))
    pub last_entry :
        get_elem? (to_list fees) (rows count n)
        ≡ some (string (quantity_u256 (pending_base_fee machine n)))

  length-history_fees :
      (n : KanariNode machine) (rounds first : ℕ)
      → length (to_list (history_fees s n rounds first)) ≡ rounds + 1
  unfolding history_fees
  length-history_fees n zero first = omega arith
  length-history_fees n (suc rounds) first = omega (arith, length-history_fees n rounds (suc first))

  length-history_ratios :
      (n : KanariNode machine) (rounds first : ℕ)
      → length (to_list (history_ratios s n rounds first)) ≡ rounds
  unfolding history_ratios
  length-history_ratios n zero first = refl
  length-history_ratios n (suc rounds) first =
      omega (arith, length-history_ratios n rounds (suc first))

  history_fees-entry :
      (n : KanariNode machine) (rounds first i : ℕ)
      → i < rounds
      → get_elem? (to_list (history_fees s n rounds first)) i
        ≡ some (string (quantity_u256 (fee_at s n (block_by_number machine n (first + i)))))
  unfolding history_fees
  history_fees-entry n zero first i h = absurd (omega arith)
  history_fees-entry n (suc rounds) first zero h =
      let e : first + 0 ≡ first = omega arith in rw e refl
  history_fees-entry n (suc rounds) first (suc i) h =
      let e : first + suc i ≡ suc first + i = omega arith in
      rw e (history_fees-entry n rounds (suc first) i (omega arith))

  history_fees-last :
      (n : KanariNode machine) (rounds first : ℕ)
      → get_elem? (to_list (history_fees s n rounds first)) rounds
        ≡ some (string (quantity_u256 (pending_base_fee machine n)))
  unfolding history_fees
  history_fees-last n zero first = refl
  history_fees-last n (suc rounds) first = history_fees-last n rounds (suc first)

  -- Whatever is asked, the fee history is one of at least 1 and at most 32 blocks that end with the
  -- head: the fees are theirs and the pending one. It has a row of rewards also for a block that
  -- was asked for and that there is not.
  pub fee_history-History :
      (params : Value) (n : KanariNode machine)
      → (1 ≤ block_count params)
        × (block_count params ≤ 32)
        × History n (block_count params) (fee_history s params n)
  unfolding fee_history get bytes_eq
  fee_history-History params n =
      let count : ℕ = block_count params in
      let low : 1 ≤ count = omega arith in
      let first : ℕ = block_number machine n - (count - 1) in
      let same : block_number machine n + 1 - first ≡ rows count n = omega arith in
      let start : block_number machine n + 1 - rows count n ≡ first = omega arith in
      (
        low,
        omega arith,
        record {
          fields = _;
          fees = history_fees s n (block_number machine n + 1 - first) first;
          ratios = history_ratios s n (block_number machine n + 1 - first) first;
          rewards = _;
          answered = refl;
          fees_told = refl;
          ratios_told = refl;
          rewards_told = refl;
          fees_length = rw same (length-history_fees n (rows count n) first);
          ratios_length = rw same (length-history_ratios n (rows count n) first);
          rewards_length = length-repeat count _;
          fee_entries = λ i h. rw (same, start) (history_fees-entry n (rows count n) first i h);
          last_entry = rw same (history_fees-last n (rows count n) first);
        },
      )
