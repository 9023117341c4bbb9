-- ===== src/Storage/Keys/Distinct.antt =====
-- The keys of one kind are equal only for one number or hash, and the kinds never meet: not one
-- another, and not the keys of the state tree, which begin with `n:` and `d:`.
use Prim.Native.Nat.{compare, Ordering}
use kanari_evm.Prelude.{
  ℕ, ◌^◌, ◌<◌, ◌≡◌, refl, ap, [], ◌∷◌, ◌==◌, arith, Bytes, bytes_eq, bytes_eq→eq, bytes_eq_self,
  compare_bytes, inl, inr, Bool-cases, ok, Result,
}
use kanari_evm.Types.Hex.{HexError, hex_encode, hex_decode}
use kanari_evm.Types.Hex.RoundTrip.{IsBytes, hex_decode-hex_encode}
use kanari_evm.Storage.Keys.{block_key}
use kanari_evm.Storage.Keys.Order.{compare_bytes-block_key}

compare_bytes_self : (xs : Bytes) → compare_bytes xs xs ≡ Ordering.eq
unfolding compare_bytes
compare_bytes_self [] = refl
compare_bytes_self (a ∷ xs) = ground (arith, compare_bytes_self xs)

eq_of_block_key : (m n : ℕ) → m < 2 ^ 64 → n < 2 ^ 64 → block_key m ≡ block_key n → m ≡ n
eq_of_block_key m n p q e =
    let c : compare m n ≡ Ordering.eq = cc (
      compare_bytes-block_key m n p q,
      compare_bytes_self (block_key n),
      ap (λ (k : Bytes). compare_bytes k (block_key n)) e,
    ) in
    ground arith

pub bytes_eq-block_key :
    (m n : ℕ) → m < 2 ^ 64 → n < 2 ^ 64 → bytes_eq (block_key m) (block_key n) ≡ (m == n)
bytes_eq-block_key m n p q = elim (Bool-cases (bytes_eq (block_key m) (block_key n))) [
  | inl same ↦
      rw same (let e : m ≡ n = eq_of_block_key m n p q (bytes_eq→eq _ _ same) in ground arith)
  | inr other ↦ elim (Bool-cases (m == n)) [
    | inl e ↦
        let same : m ≡ n = ground arith in
        cc (bytes_eq_self (block_key n), ap (λ (k : ℕ). bytes_eq (block_key k) (block_key n)) same)
    | inr e ↦ rw (other, e)
  ]
]

-- Hashes with one encoding are equal.
eq_of_hex_encode : (g h : Bytes) → IsBytes g → IsBytes h → hex_encode g ≡ hex_encode h → g ≡ h
eq_of_hex_encode g h p q e =
    let decoded : ◌≡◌ {A = Result HexError Bytes} (ok g) (ok h) =
      cc ((hex_decode-hex_encode g p).0, (hex_decode-hex_encode h q).0, ap hex_decode e) in
    cc decoded

pub bytes_eq-hex_encode :
    (g h : Bytes) → IsBytes g → IsBytes h → bytes_eq (hex_encode g) (hex_encode h) ≡ bytes_eq g h
bytes_eq-hex_encode g h p q = elim (Bool-cases (bytes_eq (hex_encode g) (hex_encode h))) [
  | inl same ↦
      rw (eq_of_hex_encode g h p q (bytes_eq→eq _ _ same))
        (cc (bytes_eq_self (hex_encode h), bytes_eq_self h))
  | inr other ↦ elim (Bool-cases (bytes_eq g h)) [
    | inl e ↦ cc (
      bytes_eq_self (hex_encode h),
      ap (λ (k : Bytes). bytes_eq (hex_encode k) (hex_encode h)) (bytes_eq→eq g h e),
    )
    | inr e ↦ rw (other, e)
  ]
]
