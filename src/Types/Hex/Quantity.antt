-- ===== src/Types/Hex/Quantity.antt =====
-- Ethereum quantities: minimal hex that `from_str_radix` reads back, and fixed-width words.
use native.Mathlib.Nat.{pow-suc}
use kanari_evm.Prelude.{
  ℕ, zero, suc, ◌/◌, ◌%◌, ◌^◌, ◌≤◌, ◌<◌, ◌≡◌, ◌≢◌, refl, List, [], ◌∷◌, ◌++◌, length, ◌==◌, arith,
  some, none, Option, inl, inr, Bool-cases, length-append,
}
use kanari_evm.Types.Word.{u64_max}
use kanari_evm.Types.Text.{
  Text, trim_0x, from_str_radix16, digits_value, push_digit, to_digit, lower_hex, padded_hex,
  hex_char,
}
use kanari_evm.Types.Text.Digits.{hex_char_lem, to_digit-hex_char, hex_char-IsHexChar}
use kanari_evm.Types.Text.Ascii.{IsHexText, IsHexText-append, trim_0x-0x_hex}
use kanari_evm.Types.Hex.{quantity_u64}

pub lower_hex-IsHexText : (w v : ℕ) → IsHexText (lower_hex w v)
unfolding lower_hex
lower_hex-IsHexText zero v = tt
lower_hex-IsHexText (suc w) v = elim (Bool-cases (v / 16 == 0)) [
  | inl small ↦ rw small (hex_char-IsHexChar (v % 16) (omega arith), tt)
  | inr big ↦ rw big (
      IsHexText-append _ _ (lower_hex-IsHexText w (v / 16))
        (hex_char-IsHexChar (v % 16) (omega arith), tt))
]

-- Reading digits continues from the value of those before.
digits_value-append :
    (top : ℕ) (s t : List ℕ) (acc : Option ℕ)
    → digits_value top acc (s ++ t) ≡ digits_value top (digits_value top acc s) t
unfolding digits_value
digits_value-append top [] t none = refl
digits_value-append top (c ∷ s) t none = digits_value_none top t
  where
    digits_value_none : (top : ℕ) (t : List ℕ) → none ≡ digits_value top none t
    digits_value_none top [] = refl
    digits_value_none top (c ∷ t) = refl
digits_value-append top [] t (some a) = refl
digits_value-append top (c ∷ s) t (some a) =
    digits_value-append top s t (push_digit top a (to_digit c))

digits_value-last :
    (top v : ℕ) → v ≤ top → digits_value top (some (v / 16)) (hex_char (v % 16) ∷ []) ≡ some v
unfolding digits_value
digits_value-last top v h =
    ground (arith, hex_char_lem (v % 16) (omega arith), to_digit-hex_char (v % 16) (omega arith))

digits_value-lower_hex :
    (w top v : ℕ) → v < 16 ^ w → v ≤ top → digits_value top (some 0) (lower_hex w v) ≡ some v
unfolding lower_hex
digits_value-lower_hex zero top v h k = unfold digits_value in ground arith
digits_value-lower_hex (suc w) top v h k =
    let last : digits_value top (some (v / 16)) (hex_char (v % 16) ∷ []) ≡ some v =
      digits_value-last top v k in
    elim (Bool-cases (v / 16 == 0)) [
      | inl small ↦ let z : v / 16 ≡ 0 = ground arith in rw small (rw z at last)
      | inr big ↦
          rw
            (
              big,
              digits_value-append top (lower_hex w (v / 16)) (hex_char (v % 16) ∷ []) (some 0),
              digits_value-lower_hex w top (v / 16) (omega (arith, pow-suc 16 w)) (omega arith),
            )
            last
    ]

-- With no sign in front the parser reads the digits.
from_str_radix16-hex :
    (top : ℕ) (s : Text)
    → s ≢ []
    → IsHexText s
    → from_str_radix16 top s ≡ digits_value top (some 0) s
unfolding from_str_radix16
from_str_radix16-hex top [] e h = absurd (e refl)
from_str_radix16-hex top (c ∷ []) e h = refl
from_str_radix16-hex top (c ∷ d ∷ s) e h = ground arith

append-ne-nil : (s : Text) (c : ℕ) → s ++ c ∷ [] ≢ []
append-ne-nil [] c e = cc
append-ne-nil (d ∷ s) c e = cc

lower_hex-ne-nil : (w v : ℕ) → lower_hex (suc w) v ≢ []
unfolding lower_hex
lower_hex-ne-nil w v = append-ne-nil _ _

-- A quantity is read back by removing the prefix and parsing hex, as the RPC server does.
from_str_radix16-quantity_u64 :
    (v : ℕ) → v ≤ u64_max → from_str_radix16 u64_max (trim_0x (quantity_u64 v)) ≡ some v
unfolding quantity_u64
from_str_radix16-quantity_u64 v h =
    let digits : IsHexText (lower_hex 16 v) = lower_hex-IsHexText 16 v in
    rw (trim_0x-0x_hex _ digits, from_str_radix16-hex u64_max _ (lower_hex-ne-nil 15 v) digits)
      (digits_value-lower_hex 16 u64_max v (omega arith) h)

pub length-padded_hex : (w v : ℕ) → length (padded_hex w v) ≡ w
unfolding padded_hex
length-padded_hex zero v = refl
length-padded_hex (suc w) v = omega (
  arith,
  length-append (padded_hex w (v / 16)) (hex_char (v % 16) ∷ []),
  length-padded_hex w (v / 16),
)
