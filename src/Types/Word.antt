-- ===== src/Types/Word.antt =====
-- Rust's unsigned machine words as natural numbers below a power of two, with the saturating
-- operations and the truncating casts of the standard library.
use kanari_evm.Prelude.{ℕ, ◌+◌, ◌-◌, ◌*◌, ◌%◌, ◌^◌, min}

abbrev pub u8_max : ℕ
u8_max = 255

abbrev pub u16_max : ℕ
u16_max = 65535

abbrev pub u32_max : ℕ
u32_max = 2 ^ 32 - 1

abbrev pub u64_max : ℕ
u64_max = 2 ^ 64 - 1

abbrev pub u128_max : ℕ
u128_max = 2 ^ 128 - 1

abbrev pub u256_max : ℕ
u256_max = 2 ^ 256 - 1

-- `saturating_add` and `saturating_mul` of the word type whose largest value is `top`;
-- `saturating_sub` is the subtraction of natural numbers.
abbrev pub saturating_add : ℕ → ℕ → ℕ → ℕ
saturating_add top a b = min (a + b) top

abbrev pub saturating_mul : ℕ → ℕ → ℕ → ℕ
saturating_mul top a b = min (a * b) top

-- `as u64`
abbrev pub as_u64 : ℕ → ℕ
as_u64 n = n % 2 ^ 64
