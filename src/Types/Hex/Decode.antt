-- ===== src/Types/Hex/Decode.antt =====
-- What `hex_decode` accepts.
use kanari_evm.Prelude.{
  ok, err, Bool-cases, false, ℕ, ◌*◌, ◌/◌, ◌%◌, ◌≤◌, ◌<◌, ◌≡◌, refl, List, [], ◌∷◌, length, ◌==◌,
  arith, some, none, Option, inl, inr, Option-cases,
}
use kanari_evm.Types.Word.{u8_max}
use kanari_evm.Types.Text.{
  Text, trim, trim_0x, as_bytes, from_str_radix16, digits_value, to_digit, is_whitespace,
  trim_start, trim_end, utf8, push_digit,
}
use kanari_evm.Types.Hex.{HexResult, decode_pairs, push_byte, hex_decode}
use kanari_evm.Types.Hex.RoundTrip.{IsBytes}

-- Whatever a text parses to is within the word.
pub digits_value-le :
    (top : ℕ) (acc : Option ℕ) (s : List ℕ) {v : ℕ}
    → ((a : ℕ) → acc ≡ some a → a ≤ top)
    → digits_value top acc s ≡ some v
    → v ≤ top
unfolding digits_value
digits_value-le top none s h e = cc
digits_value-le top (some a) [] {v} h e = h v e
digits_value-le top (some a) (c ∷ s) h e =
    digits_value-le top (push_digit top a (to_digit c)) s
      (λ b eb. elim (Option-cases (to_digit c)) [
        | inl x ↦ cc (rw x at eb)
        | inr (d, x) ↦ ground arith
      ])
      e

pub from_str_radix16-le : (top : ℕ) (s : List ℕ) {v : ℕ} → from_str_radix16 top s ≡ some v → v ≤ top
unfolding from_str_radix16
from_str_radix16-le top [] e = cc
from_str_radix16-le top (c ∷ []) e = digits_value-le top (some 0) (c ∷ []) (λ a x. ground arith) e
from_str_radix16-le top (c ∷ d ∷ s) e = elim (Bool-cases (c == b'+')) [
  | inl plus ↦ digits_value-le top (some 0) (d ∷ s) (λ a x. ground arith) (rw plus at e)
  | inr other ↦ digits_value-le top (some 0) (c ∷ d ∷ s) (λ a x. ground arith) (rw other at e)
]

push_byte-ok :
    (o : Option ℕ) (r : HexResult) {bytes : List ℕ}
    → push_byte o r ≡ ok bytes
    → (byte : ℕ) × (rest : List ℕ) × (o ≡ some byte) × (r ≡ ok rest) × (bytes ≡ byte ∷ rest)
push_byte-ok none r h = cc
push_byte-ok (some byte) (ok rest) h = (byte, rest, refl, refl, cc)
push_byte-ok (some byte) (err e) h = cc

-- Pairs that decode give one byte for each pair.
decode_pairs-IsBytes :
    (s bytes : List ℕ) → decode_pairs s ≡ ok bytes → IsBytes bytes × (length bytes ≡ length s / 2)
unfolding decode_pairs
decode_pairs-IsBytes [] bytes h = let e : bytes ≡ [] = cc in rw e (tt, refl)
decode_pairs-IsBytes (a ∷ []) bytes h = let e : bytes ≡ [] = cc in rw e (tt, refl)
decode_pairs-IsBytes (a ∷ b ∷ s) bytes h =
    let (byte, rest, e, d, split) = push_byte-ok _ _ h in
    let (rest_bytes, count) = decode_pairs-IsBytes s rest d in
    rw split ((from_str_radix16-le u8_max (a ∷ b ∷ []) e, rest_bytes), omega arith)

-- Whatever `hex_decode` returns is a list of bytes, one for two bytes of the trimmed text, whose
-- length is even.
hex_decode-IsBytes :
    (hex : Text) (bytes : List ℕ)
    → hex_decode hex ≡ ok bytes
    → IsBytes bytes × (2 * length bytes ≡ length (as_bytes (trim_0x (trim hex))))
unfolding hex_decode
hex_decode-IsBytes hex bytes h =
    let text : List ℕ = as_bytes (trim_0x (trim hex)) in
    elim (Bool-cases (length text % 2 == 0)) [
      | inl even ↦
          let (all, count) = decode_pairs-IsBytes text bytes (rw even at h) in (all, ground arith)
      | inr odd ↦ cc (rw odd at h)
    ]

-- A sign is taken for a digit: `+` and a hex digit decode to the byte of that digit.
pub hex_decode-plus_sign :
    (d : ℕ) {v : ℕ}
    → d < 128
    → is_whitespace d ≡ false
    → to_digit d ≡ some v
    → hex_decode (b'+' ∷ d ∷ []) ≡ ok (v ∷ [])
unfolding hex_decode decode_pairs from_str_radix16 digits_value trim trim_start trim_end
    is_whitespace trim_0x as_bytes utf8
hex_decode-plus_sign d lt ws e = ground arith
