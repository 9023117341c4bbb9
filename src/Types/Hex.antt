-- ===== src/Types/Hex.antt =====
-- `crates/evm-types/src/lib.rs`: hex and Ethereum quantities.
pub mod RoundTrip
pub mod Decode
pub mod Quantity
use kanari_evm.Prelude.{
  Result, ok, err, ℕ, ◌/◌, ◌%◌, ◌+◌, ◌*◌, Option, none, some, List, [], ◌∷◌, length, ◌==◌,
  if◌then◌else◌,
}
use kanari_evm.Types.Word.{u8_max}
use kanari_evm.Types.Text.{
  Text, trim, trim_0x, as_bytes, from_str_radix16, hex_char, padded_hex, lower_hex,
}

pub data HexError : Type 0 where
  odd_length invalid_char : HexError
  invalid_length : ℕ → ℕ → HexError

abbrev pub HexResult : Type 0
HexResult = Result HexError (List ℕ)

-- `b >> 4` and `b & 0x0f` of a byte.
unfoldable pub hex_encode : List ℕ → Text
hex_encode [] = []
hex_encode (b ∷ bytes) = hex_char (b / 16) ∷ hex_char (b % 16) ∷ hex_encode bytes

unfoldable pub hex_prefixed : List ℕ → Text
hex_prefixed bytes = b'0' ∷ b'x' ∷ hex_encode bytes

abbrev pub push_byte : Option ℕ → HexResult → HexResult
push_byte none rest = err invalid_char
push_byte (some byte) (ok out) = ok (byte ∷ out)
push_byte (some byte) (err e) = err e

-- The loop over `chunks(2)`. A pair that is not UTF-8 holds a byte that is no digit, so both errors
-- are `invalid_char`; the last chunk of a text of odd length is never reached.
unfoldable pub decode_pairs : List ℕ → HexResult
decode_pairs (a ∷ b ∷ bytes) = push_byte (from_str_radix16 u8_max (a ∷ b ∷ [])) (decode_pairs bytes)
decode_pairs _ = ok []

unfoldable pub hex_decode : Text → HexResult
hex_decode hex =
    let bytes : List ℕ = as_bytes (trim_0x (trim hex)) in
    if length bytes % 2 == 0 then decode_pairs bytes else err odd_length

unfoldable pub exactly_32 : HexResult → HexResult
exactly_32 (err e) = err e
exactly_32 (ok bytes) =
    if length bytes == 32 then ok bytes else err (invalid_length 32 (length bytes))

unfoldable pub hex_decode32 : Text → HexResult
unfolding exactly_32
hex_decode32 hex = exactly_32 (hex_decode hex)

unfoldable pub quantity_u64 : ℕ → Text
quantity_u64 v = b'0' ∷ b'x' ∷ lower_hex 16 v

unfoldable pub quantity_u256 : ℕ → Text
quantity_u256 v = b'0' ∷ b'x' ∷ lower_hex 64 v

unfoldable pub bytes32_hex : ℕ → Text
bytes32_hex v = b'0' ∷ b'x' ∷ padded_hex 64 v
