-- ===== src/Types/Text/Digits.antt =====
-- Hex digits: `hex_char` and `to_digit` are inverse.
use kanari_evm.Prelude.{
  ℕ, zero, suc, ◌+◌, ◌≤◌, ◌<◌, ◌≡◌, refl, ◌⊎◌, Bool, true, ◌&&◌, some, arith, ltb, ◌==◌, Bool-cases,
  inl, inr, if◌then◌else◌,
}
use kanari_evm.Types.Text.{hex_char, to_digit}

-- Two functions agree below a bound, by a test.
agree : (ℕ → ℕ) → (ℕ → ℕ) → ℕ → Bool
agree f g zero = true
agree f g (suc bound) = agree f g bound && (f bound == g bound)

agree→eq : (f g : ℕ → ℕ) (bound k : ℕ) → k < bound → agree f g bound ≡ true → f k ≡ g k
unfolding agree
agree→eq f g zero k below h = absurd (omega (arith, below))
agree→eq f g (suc bound) k below h = elim (Bool-cases (k == bound)) [
  | inl last ↦ let e : k ≡ bound = ground arith in rw e (ground arith)
  | inr other ↦ agree→eq f g bound k (ground arith) (ground arith)
]

hex_char_table : agree hex_char (λ n. if ltb n 10 then 48 + n else 87 + n) 16 ≡ true
unfolding agree hex_char
hex_char_table = refl

pub hex_char_lem : (n : ℕ) → n < 16 → hex_char n ≡ (if ltb n 10 then 48 + n else 87 + n)
hex_char_lem n h =
    agree→eq hex_char (λ k. if ltb k 10 then 48 + k else 87 + k) 16 n h hex_char_table

-- A lowercase hex digit.
abbrev pub IsHexChar : ℕ → Type 0
IsHexChar c = ((48 ≤ c) × (c ≤ 57)) ⊎ ((97 ≤ c) × (c ≤ 102))

pub hex_char-IsHexChar : (n : ℕ) → n < 16 → IsHexChar (hex_char n)
hex_char-IsHexChar n h = ground (arith, hex_char_lem n h)

pub to_digit-hex_char : (n : ℕ) → n < 16 → to_digit (hex_char n) ≡ some n
unfolding to_digit
to_digit-hex_char n h = ground (arith, hex_char_lem n h)
