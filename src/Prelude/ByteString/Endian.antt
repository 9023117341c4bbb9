-- ===== src/Prelude/ByteString/Endian.antt =====
-- Numbers as byte strings of a fixed width.
use Prim.Native.Nat.{ℕ, zero, suc, ◌+◌, ◌*◌, ◌/◌, ◌%◌, ◌^◌, ◌<◌}
use mathlib.Core.Path.{◌≡◌, refl}
use mathlib.Core.List.{[], ◌∷◌, ◌++◌}
use native.Mathlib.Omega.{arith}
use native.Mathlib.Nat.{pow-suc}
use kanari_evm.Prelude.Lists.{length, length-append}
use kanari_evm.Prelude.ByteString.Order.{Bytes}

-- `to_le_bytes` and `from_le_bytes` of a word of `w` bytes.
unfoldable pub to_le_bytes : ℕ → ℕ → Bytes
to_le_bytes zero n = []
to_le_bytes (suc w) n = (n % 256) ∷ to_le_bytes w (n / 256)

unfoldable pub from_le_bytes : Bytes → ℕ
from_le_bytes [] = 0
from_le_bytes (b ∷ bs) = b + 256 * from_le_bytes bs

pub length-to_le_bytes : (w n : ℕ) → length (to_le_bytes w n) ≡ w
unfolding to_le_bytes
length-to_le_bytes zero n = refl
length-to_le_bytes (suc w) n = omega (arith, length-to_le_bytes w (n / 256))

pub from_le_bytes-to_le_bytes : (w n : ℕ) → n < 256 ^ w → from_le_bytes (to_le_bytes w n) ≡ n
unfolding to_le_bytes from_le_bytes
from_le_bytes-to_le_bytes zero n h = omega arith
from_le_bytes-to_le_bytes (suc w) n h =
    omega (arith, from_le_bytes-to_le_bytes w (n / 256) (omega (arith, pow-suc 256 w)))

-- `to_be_bytes` of a word of `w` bytes.
unfoldable pub to_be_bytes : ℕ → ℕ → Bytes
to_be_bytes zero n = []
to_be_bytes (suc w) n = to_be_bytes w (n / 256) ++ (n % 256) ∷ []

pub length-to_be_bytes : (w n : ℕ) → length (to_be_bytes w n) ≡ w
unfolding to_be_bytes
length-to_be_bytes zero n = refl
length-to_be_bytes (suc w) n = omega (
  arith,
  length-to_be_bytes w (n / 256),
  length-append (to_be_bytes w (n / 256)) ((n % 256) ∷ []),
)

-- `from_be_bytes`, after the bytes whose value is `high`.
unfoldable pub from_be_bytes_after : ℕ → Bytes → ℕ
from_be_bytes_after high [] = high
from_be_bytes_after high (b ∷ bs) = from_be_bytes_after (high * 256 + b) bs

abbrev pub from_be_bytes : Bytes → ℕ
from_be_bytes bs = from_be_bytes_after 0 bs

pub from_be_bytes_after-append :
    (high : ℕ) (xs ys : Bytes)
    → from_be_bytes_after high (xs ++ ys) ≡ from_be_bytes_after (from_be_bytes_after high xs) ys
unfolding from_be_bytes_after
from_be_bytes_after-append high [] ys = refl
from_be_bytes_after-append high (x ∷ xs) ys = from_be_bytes_after-append (high * 256 + x) xs ys

pub from_be_bytes-to_be_bytes : (w n : ℕ) → n < 256 ^ w → from_be_bytes (to_be_bytes w n) ≡ n
unfolding to_be_bytes from_be_bytes_after
from_be_bytes-to_be_bytes zero n h = omega arith
from_be_bytes-to_be_bytes (suc w) n h = omega (
  arith,
  from_be_bytes_after-append 0 (to_be_bytes w (n / 256)) ((n % 256) ∷ []),
  from_be_bytes-to_be_bytes w (n / 256) (omega (arith, pow-suc 256 w)),
)
