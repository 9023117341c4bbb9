-- ===== src/Types/Tests.antt =====
-- The definitions and theorems of `Types` at concrete inputs.
use kanari_evm.Prelude.{ℕ, ◌+◌, ◌/◌, ◌≤◌, max, ◌≡◌, refl, List, [], ◌∷◌, ok, arith}
use kanari_evm.Types.Gas.{calc_next_base_fee, block_gas_limit}
use kanari_evm.Types.Gas.Reference.{eip1559_base_fee, calc_next_base_fee-eq-eip1559}
use kanari_evm.Types.Gas.Bounds.{calc_next_base_fee_step}
use kanari_evm.Types.Text.{
  trim_start, trim_end, utf8, digits_value, trim_0x, trim, as_bytes, from_str_radix16, to_digit,
  is_whitespace,
}
use kanari_evm.Types.Hex.{hex_encode, hex_prefixed, hex_decode, decode_pairs}
use kanari_evm.Types.Hex.RoundTrip.{IsBytes, hex_decode-hex_encode}
use kanari_evm.Types.Hex.Decode.{hex_decode-plus_sign}

full_block : calc_next_base_fee 1_000_000_000 30_000_000 30_000_000 ≡ 1_125_000_000
unfolding calc_next_base_fee
full_block = refl

empty_block : calc_next_base_fee 1_000_000_000 0 30_000_000 ≡ 875_000_000
unfolding calc_next_base_fee
empty_block = refl

calc_next_base_fee-eq-eip1559_example :
    calc_next_base_fee 1_000_000_000 30_000_000 block_gas_limit
    ≡ eip1559_base_fee 1_000_000_000 30_000_000 (block_gas_limit / 2)
calc_next_base_fee-eq-eip1559_example =
    calc_next_base_fee-eq-eip1559 1_000_000_000 30_000_000 block_gas_limit (omega arith)
      (omega arith) (omega arith) (omega arith) (omega arith)

calc_next_base_fee_step_example :
    (calc_next_base_fee 1_000_000_000 21_000 block_gas_limit
      ≤ 1_000_000_000 + max (1_000_000_000 / 8) 1)
    × (1_000_000_000 ≤ calc_next_base_fee 1_000_000_000 21_000 block_gas_limit + 1_000_000_000 / 8)
calc_next_base_fee_step_example =
    calc_next_base_fee_step 1_000_000_000 21_000 block_gas_limit (omega arith) (omega arith)
      (omega arith)

abbrev two_bytes : List ℕ
two_bytes = 0xde ∷ 0x0d ∷ []

two_bytes-IsBytes : IsBytes two_bytes
two_bytes-IsBytes = (omega arith, (omega arith, tt))

hex_decode-hex_encode_example :
    (hex_decode (hex_encode two_bytes) ≡ ok two_bytes)
    × (hex_decode (hex_prefixed two_bytes) ≡ ok two_bytes)
hex_decode-hex_encode_example = hex_decode-hex_encode two_bytes two_bytes-IsBytes

abbrev spaced : List ℕ
spaced = b' ' ∷ b'0' ∷ b'x' ∷ b'D' ∷ b'e' ∷ []

abbrev one_byte : List ℕ
one_byte = 0xde ∷ []

decoded : hex_decode spaced ≡ ok one_byte
unfolding hex_decode decode_pairs trim trim_start trim_end is_whitespace trim_0x as_bytes utf8
    from_str_radix16 digits_value to_digit
decoded = refl

hex_decode-plus_sign_example : hex_decode (b'+' ∷ b'f' ∷ []) ≡ ok (15 ∷ [])
unfolding is_whitespace to_digit
hex_decode-plus_sign_example = hex_decode-plus_sign b'f' (omega arith) refl refl
