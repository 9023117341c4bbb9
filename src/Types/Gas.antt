-- ===== src/Types/Gas.antt =====
-- `crates/evm-types/src/gas.rs`: fee constants, the EIP-1559 base fee, effective price and the
-- base-fee share.
pub mod Bounds
pub mod Reference
pub mod Shares
use kanari_evm.Prelude.{ℕ, ◌+◌, ◌-◌, ◌/◌, min, max, ltb, ◌==◌, if◌then◌else◌}
use kanari_evm.Types.Word.{u128_max, u256_max, saturating_add, saturating_mul}

abbrev pub block_gas_limit : ℕ
block_gas_limit = 30_000_000

abbrev pub genesis_base_fee_wei : ℕ
genesis_base_fee_wei = 1_000_000_000

abbrev pub min_base_fee_wei : ℕ
min_base_fee_wei = 1

abbrev pub base_fee_max_change_denominator : ℕ
base_fee_max_change_denominator = 8

abbrev pub gas_target_divisor : ℕ
gas_target_divisor = 2

unfoldable pub calc_next_base_fee : ℕ → ℕ → ℕ → ℕ
calc_next_base_fee parent_fee_wei gas_used gas_limit =
    let gas_target : ℕ = gas_limit / gas_target_divisor in
    if gas_target == 0
    then max parent_fee_wei min_base_fee_wei
    else if gas_used == gas_target
    then max parent_fee_wei min_base_fee_wei
    else if ltb gas_target gas_used
    then (let delta : ℕ =
          saturating_mul u128_max parent_fee_wei (gas_used - gas_target)
          / gas_target
          / base_fee_max_change_denominator in
        max (saturating_add u128_max parent_fee_wei (max delta 1)) min_base_fee_wei)
    else (let delta : ℕ =
          saturating_mul u128_max parent_fee_wei (gas_target - gas_used)
          / gas_target
          / base_fee_max_change_denominator in
        max (parent_fee_wei - delta) min_base_fee_wei)

unfoldable pub effective_gas_price : ℕ → ℕ → ℕ → ℕ
effective_gas_price max_fee_per_gas base_fee_wei max_priority_fee_per_gas =
    min max_fee_per_gas (saturating_add u128_max base_fee_wei max_priority_fee_per_gas)

unfoldable pub base_fee_share : ℕ → ℕ → ℕ
base_fee_share gas_used base_fee_wei = saturating_mul u256_max gas_used base_fee_wei
