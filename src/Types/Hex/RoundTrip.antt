-- ===== src/Types/Hex/RoundTrip.antt =====
-- `hex_decode` after `hex_encode`, with and without the prefix.
use kanari_evm.Prelude.{
  ok, err, ℕ, ◌*◌, ◌/◌, ◌%◌, ◌≤◌, ◌≡◌, refl, List, [], ◌∷◌, length, ◌==◌, if◌then◌else◌, arith,
  some,
}
use kanari_evm.Types.Word.{u8_max}
use kanari_evm.Types.Text.{Text, trim, trim_0x, as_bytes, from_str_radix16, digits_value, hex_char}
use kanari_evm.Types.Text.Digits.{hex_char-IsHexChar, to_digit-hex_char, hex_char_lem}
use kanari_evm.Types.Text.Ascii.{
  IsHexText, trim-hex, trim_0x-hex, as_bytes-hex, trim-0x_hex, trim_0x-0x_hex,
}
use kanari_evm.Types.Hex.{
  invalid_length, odd_length, hex_encode, hex_prefixed, decode_pairs, hex_decode, hex_decode32,
}

-- A list of bytes.
abbrev pub IsBytes : List ℕ → Type 0
IsBytes [] = Unit {0}
IsBytes (b ∷ bytes) = (b ≤ u8_max) × IsBytes bytes

pub hex_encode-IsHexText : (bytes : List ℕ) → IsBytes bytes → IsHexText (hex_encode bytes)
unfolding hex_encode
hex_encode-IsHexText [] h = tt
hex_encode-IsHexText (b ∷ bytes) h = (
  hex_char-IsHexChar (b / 16) (omega arith),
  (hex_char-IsHexChar (b % 16) (omega arith), hex_encode-IsHexText bytes h.1),
)

pub length-hex_encode : (bytes : List ℕ) → length (hex_encode bytes) ≡ 2 * length bytes
unfolding hex_encode
length-hex_encode [] = refl
length-hex_encode (b ∷ bytes) = omega (arith, length-hex_encode bytes)

pub from_str_radix16-byte :
    (b : ℕ)
    → b ≤ u8_max
    → from_str_radix16 u8_max (hex_char (b / 16) ∷ hex_char (b % 16) ∷ []) ≡ some b
unfolding from_str_radix16 digits_value
from_str_radix16-byte b h = ground (
  arith,
  hex_char_lem (b / 16) (omega arith),
  to_digit-hex_char (b / 16) (omega arith),
  to_digit-hex_char (b % 16) (omega arith),
)

pub decode_pairs-hex_encode :
    (bytes : List ℕ) → IsBytes bytes → decode_pairs (hex_encode bytes) ≡ ok bytes
unfolding decode_pairs hex_encode
decode_pairs-hex_encode [] h = refl
decode_pairs-hex_encode (b ∷ bytes) h =
    rw (from_str_radix16-byte b h.0, decode_pairs-hex_encode bytes h.1)

-- What `hex_decode` does with the digits once they are trimmed.
decode_digits :
    (bytes : List ℕ) (digits : Text)
    → digits ≡ hex_encode bytes
    → IsBytes bytes
    → (if length digits % 2 == 0 then decode_pairs digits else err odd_length) ≡ ok bytes
decode_digits bytes digits e h =
    rw e (ground (arith, length-hex_encode bytes, decode_pairs-hex_encode bytes h))

-- Decoding what was encoded gives the bytes back, with the prefix or without it.
pub hex_decode-hex_encode :
    (bytes : List ℕ)
    → IsBytes bytes
    → (hex_decode (hex_encode bytes) ≡ ok bytes) × (hex_decode (hex_prefixed bytes) ≡ ok bytes)
unfolding hex_decode hex_prefixed
hex_decode-hex_encode bytes h =
    let t : IsHexText (hex_encode bytes) = hex_encode-IsHexText bytes h in
    (
      decode_digits bytes (as_bytes (trim_0x (trim (hex_encode bytes))))
          (rw (trim-hex _ t, trim_0x-hex _ t) (as_bytes-hex _ t)) h,
      decode_digits bytes (as_bytes (trim_0x (trim (48 ∷ 120 ∷ hex_encode bytes))))
          (rw (trim-0x_hex _ t, trim_0x-0x_hex _ t) (as_bytes-hex _ t)) h,
    )

-- `hex_decode32` gives the bytes back exactly when there are 32; otherwise it reports the length.
hex_decode32-hex_prefixed :
    (bytes : List ℕ)
    → IsBytes bytes
    → hex_decode32 (hex_prefixed bytes)
      ≡ (if length bytes == 32 then ok bytes else err (invalid_length 32 (length bytes)))
unfolding hex_decode32
hex_decode32-hex_prefixed bytes h = rw ((hex_decode-hex_encode bytes h).1)
