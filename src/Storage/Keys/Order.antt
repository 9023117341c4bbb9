-- ===== src/Storage/Keys/Order.antt =====
-- Block keys sort as their numbers.
use Prim.Native.Nat.{compare}
use native.Mathlib.Nat.{pow-suc}
use kanari_evm.Prelude.{
  ℕ, zero, suc, ◌/◌, ◌%◌, ◌^◌, ◌<◌, ◌≡◌, [], ◌∷◌, arith, compare_bytes, compare_bytes-append,
  then_compare,
}
use kanari_evm.Types.Text.{padded_hex, hex_char}
use kanari_evm.Types.Text.Digits.{hex_char_lem}
use kanari_evm.Types.Hex.Quantity.{length-padded_hex}
use kanari_evm.Storage.Keys.{block_key}

compare-hex_char : (m n : ℕ) → m < 16 → n < 16 → compare (hex_char m) (hex_char n) ≡ compare m n
compare-hex_char m n p q = ground (arith, hex_char_lem m p, hex_char_lem n q)

compare-div-mod :
    (m n : ℕ) → then_compare (compare (m / 16) (n / 16)) (compare (m % 16) (n % 16)) ≡ compare m n
compare-div-mod m n = ground arith

compare_bytes-digit :
    (m n : ℕ) → m < 16 → n < 16 → compare_bytes (hex_char m ∷ []) (hex_char n ∷ []) ≡ compare m n
unfolding compare_bytes
compare_bytes-digit m n p q = rw (compare-hex_char m n p q) (ground arith)

pub compare_bytes-padded_hex :
    (w m n : ℕ)
    → m < 16 ^ w
    → n < 16 ^ w
    → compare_bytes (padded_hex w m) (padded_hex w n) ≡ compare m n
unfolding padded_hex
compare_bytes-padded_hex zero m n p q = unfold compare_bytes in ground arith
compare_bytes-padded_hex (suc w) m n p q =
    rw
      (
        compare_bytes-append (padded_hex w (m / 16)) (padded_hex w (n / 16))
            (hex_char (m % 16) ∷ []) (hex_char (n % 16) ∷ [])
            (omega (arith, length-padded_hex w (m / 16), length-padded_hex w (n / 16))),
        compare_bytes-padded_hex w (m / 16) (n / 16) (omega (arith, pow-suc 16 w))
            (omega (arith, pow-suc 16 w)),
        compare_bytes-digit (m % 16) (n % 16) (omega arith) (omega arith),
      )
      (compare-div-mod m n)

-- The database's byte order of block keys is the order of block numbers.
pub compare_bytes-block_key :
    (m n : ℕ) → m < 2 ^ 64 → n < 2 ^ 64 → compare_bytes (block_key m) (block_key n) ≡ compare m n
unfolding block_key compare_bytes
compare_bytes-block_key m n p q = compare_bytes-padded_hex 16 m n p q
