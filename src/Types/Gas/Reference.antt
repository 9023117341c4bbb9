-- ===== src/Types/Gas/Reference.antt =====
-- `calc_next_base_fee` against the base-fee rule of EIP-1559 over unbounded integers.
use kanari_evm.Prelude.{
  ℕ, ◌+◌, ◌-◌, ◌*◌, ◌/◌, ◌^◌, ◌≤◌, ◌<◌, max, ◌≡◌, arith, ltb, ◌==◌, if◌then◌else◌,
}
use kanari_evm.Types.Gas.{calc_next_base_fee}
use kanari_evm.Types.Gas.Bounds.{mul-le-mul_right, delta-le}

-- The rule as the EIP states it: elasticity 2, denominator 8, no machine words.
pub eip1559_base_fee : ℕ → ℕ → ℕ → ℕ
eip1559_base_fee fee used target =
    if used == target
    then fee
    else if ltb target used
    then fee + max (fee * (used - target) / target / 8) 1
    else fee - fee * (target - used) / target / 8

mul-lt : (a b : ℕ) → a < 2 ^ 64 → b < 2 ^ 64 → a * b < 2 ^ 128
mul-lt a b p q = omega (arith, mul-le-mul_right a b (2 ^ 64 - 1) (omega arith))

-- On words of 64 bits nothing saturates and the floor is never reached: the code computes the
-- rule of EIP-1559 exactly.
pub calc_next_base_fee-eq-eip1559 :
    (fee used limit : ℕ)
    → 1 ≤ fee
    → fee < 2 ^ 64
    → used < 2 ^ 64
    → 2 ≤ limit
    → limit < 2 ^ 64
    → calc_next_base_fee fee used limit ≡ eip1559_base_fee fee used (limit / 2)
unfolding calc_next_base_fee eip1559_base_fee
calc_next_base_fee-eq-eip1559 fee used limit p q u l m = ground (
  arith,
  mul-lt fee (used - limit / 2) q (omega arith),
  mul-lt fee (limit / 2 - used) q (omega arith),
  delta-le fee (limit / 2 - used) (limit / 2) (omega arith),
)
