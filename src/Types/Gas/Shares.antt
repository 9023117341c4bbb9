-- ===== src/Types/Gas/Shares.antt =====
-- What a transaction pays by `effective_gas_price`, and how it splits into the base-fee share and
-- the priority share.
use kanari_evm.Prelude.{ℕ, ◌+◌, ◌-◌, ◌*◌, ◌≤◌, min, ◌≡◌, arith}
use kanari_evm.Types.Word.{u128_max, u64_max}
use kanari_evm.Types.Gas.{effective_gas_price, base_fee_share}
use kanari_evm.Types.Gas.Bounds.{mul-le-mul_right}

-- The price is within the cap; where the cap covers the base fee, the price is the base fee and
-- the priority fee, or what the cap leaves of it.
pub effective_gas_price_split :
    (cap fee tip : ℕ)
    → cap ≤ u128_max
    → fee ≤ cap
    → (effective_gas_price cap fee tip ≤ cap)
      × (effective_gas_price cap fee tip ≡ fee + min tip (cap - fee))
unfolding effective_gas_price
effective_gas_price_split cap fee tip c h = omega arith

-- The product of a gas count and a fee fits 256 bits.
pub base_fee_share_exact :
    (gas fee : ℕ) → gas ≤ u64_max → fee ≤ u128_max → base_fee_share gas fee ≡ gas * fee
unfolding base_fee_share
base_fee_share_exact gas fee g f = omega (arith, mul-le-mul_right gas fee u128_max f)

distribute : (gas fee tip price : ℕ) → price ≡ fee + tip → gas * price ≡ gas * fee + gas * tip
distribute gas fee tip price e = grind arith

-- No burn: where the cap covers the base fee, what the sender pays for the gas is exactly the
-- base-fee share, which the beneficiary is credited, and the priority share.
sender_pays_shares :
    (gas cap fee tip : ℕ)
    → gas ≤ u64_max
    → cap ≤ u128_max
    → fee ≤ cap
    → gas * effective_gas_price cap fee tip ≡ base_fee_share gas fee + gas * min tip (cap - fee)
sender_pays_shares gas cap fee tip g c h = omega (
  arith,
  base_fee_share_exact gas fee g (omega arith),
  distribute gas fee (min tip (cap - fee)) (effective_gas_price cap fee tip)
      (effective_gas_price_split cap fee tip c h).1,
)
