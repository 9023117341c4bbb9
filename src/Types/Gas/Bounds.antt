-- ===== src/Types/Gas/Bounds.antt =====
-- Bounds on the next base fee of `calc_next_base_fee`, and its growth with the gas used.
use native.Mathlib.Nat.{le_trans, div-le_of_le-mul, le-div_iff_mul-le, div-mul-le_self, mul_comm}
use kanari_evm.Prelude.{ℕ, ◌+◌, ◌-◌, ◌*◌, ◌/◌, ◌^◌, ◌≤◌, ◌<◌, max, ◌≡◌, arith}
use kanari_evm.Types.Word.{u128_max, saturating_mul, as_u64}
use kanari_evm.Types.Gas.{calc_next_base_fee}

pub mul-le-mul_right : (c a b : ℕ) → a ≤ b → c * a ≤ c * b
mul-le-mul_right c a b h = grind arith

pub div-le-div : (k a b : ℕ) → 0 < k → a ≤ b → a / k ≤ b / k
div-le-div k a b p h = (le-div_iff_mul-le p).1 (le_trans (div-mul-le_self a k) h)

-- The change of the fee for a distance `d` from the target `t`.
pub delta-le : (fee d t : ℕ) → d ≤ t → saturating_mul u128_max fee d / t / 8 ≤ fee / 8
delta-le fee d t h = div-le-div 8 (saturating_mul u128_max fee d / t) fee (omega arith) (
    div-le_of_le-mul t
      (le_trans {m = fee * d} (omega arith) (rw (mul_comm t fee) (mul-le-mul_right fee d t h))))

pub delta_mono :
    (fee c d t : ℕ)
    → 0 < t
    → c ≤ d
    → saturating_mul u128_max fee c / t / 8 ≤ saturating_mul u128_max fee d / t / 8
delta_mono fee c d t p h =
    div-le-div 8 (saturating_mul u128_max fee c / t) (saturating_mul u128_max fee d / t)
      (omega arith)
      (div-le-div t (saturating_mul u128_max fee c) (saturating_mul u128_max fee d) p
        (omega (arith, mul-le-mul_right fee c d h)))

-- The next base fee is at least one wei and fits the word, whatever the block used.
calc_next_base_fee_range :
    (fee used limit : ℕ)
    → fee ≤ u128_max
    → (1 ≤ calc_next_base_fee fee used limit) × (calc_next_base_fee fee used limit ≤ u128_max)
unfolding calc_next_base_fee
calc_next_base_fee_range fee used limit h = ground arith

-- A block that used at most twice its target moves the fee by at most one eighth, rounded down,
-- or up by one wei where that is more.
pub calc_next_base_fee_step :
    (fee used limit : ℕ)
    → 1 ≤ fee
    → fee ≤ u128_max
    → used ≤ limit / 2 + limit / 2
    → (calc_next_base_fee fee used limit ≤ fee + max (fee / 8) 1)
      × (fee ≤ calc_next_base_fee fee used limit + fee / 8)
unfolding calc_next_base_fee
calc_next_base_fee_step fee used limit p w h = ground (
  arith,
  delta-le fee (used - limit / 2) (limit / 2),
  delta-le fee (limit / 2 - used) (limit / 2),
)

-- More gas used never lowers the next base fee.
calc_next_base_fee_mono :
    (fee used more limit : ℕ)
    → fee ≤ u128_max
    → used ≤ more
    → calc_next_base_fee fee used limit ≤ calc_next_base_fee fee more limit
unfolding calc_next_base_fee
calc_next_base_fee_mono fee used more limit p h = ground (
  arith,
  delta_mono fee (used - limit / 2) (more - limit / 2) (limit / 2),
  delta_mono fee (limit / 2 - more) (limit / 2 - used) (limit / 2),
)

-- For a head fee of at most 2^63 wei and a block within twice its target, the cast `as u64` by
-- which blocks are sealed loses nothing.
as_u64-calc_next_base_fee :
    (fee used limit : ℕ)
    → 1 ≤ fee
    → fee ≤ 2 ^ 63
    → used ≤ limit / 2 + limit / 2
    → as_u64 (calc_next_base_fee fee used limit) ≡ calc_next_base_fee fee used limit
as_u64-calc_next_base_fee fee used limit p q h =
    omega (arith, calc_next_base_fee_step fee used limit p (omega arith) h)
