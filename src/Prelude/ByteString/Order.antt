-- ===== src/Prelude/ByteString/Order.antt =====
-- Byte strings compared byte by byte.
use Prim.Native.Nat.{ℕ, compare, Ordering}
use mathlib.Core.Path.{◌≡◌, refl}
use mathlib.Core.Logic.{◌↔◌}
use mathlib.Core.Bool.{Bool, true, false, ◌&&◌}
use mathlib.Core.List.{List, [], ◌∷◌, ◌++◌}
use native.Mathlib.Omega.{arith}
use kanari_evm.Prelude.Tests.{◌==◌}
use kanari_evm.Prelude.Lists.{length}

abbrev pub Bytes : Type 0
Bytes = List ℕ

unfoldable pub bytes_eq : Bytes → Bytes → Bool
bytes_eq [] [] = true
bytes_eq [] (b ∷ ys) = false
bytes_eq (a ∷ xs) [] = false
bytes_eq (a ∷ xs) (b ∷ ys) = a == b && bytes_eq xs ys

pub bytes_eq→eq : (xs ys : Bytes) → bytes_eq xs ys ≡ true → xs ≡ ys
unfolding bytes_eq
bytes_eq→eq [] [] h = refl
bytes_eq→eq [] (b ∷ ys) h = cc
bytes_eq→eq (a ∷ xs) [] h = cc
bytes_eq→eq (a ∷ xs) (b ∷ ys) h = ground (arith, bytes_eq→eq xs ys)

pub bytes_eq_self : (xs : Bytes) → bytes_eq xs xs ≡ true
unfolding bytes_eq
bytes_eq_self [] = refl
bytes_eq_self (a ∷ xs) = ground (arith, bytes_eq_self xs)

pub bytes_eq_iff : (xs ys : Bytes) → (bytes_eq xs ys ≡ true) ↔ (xs ≡ ys)
bytes_eq_iff xs ys = (bytes_eq→eq xs ys, λ e. rw (← e) (bytes_eq_self xs))

-- The lexicographic order.
abbrev pub then_compare : Ordering → Ordering → Ordering
then_compare Ordering.lt o = Ordering.lt
then_compare Ordering.eq o = o
then_compare Ordering.gt o = Ordering.gt

unfoldable pub compare_bytes : Bytes → Bytes → Ordering
compare_bytes [] [] = Ordering.eq
compare_bytes [] (b ∷ ys) = Ordering.lt
compare_bytes (a ∷ xs) [] = Ordering.gt
compare_bytes (a ∷ xs) (b ∷ ys) = then_compare (compare a b) (compare_bytes xs ys)

then_compare_assoc :
    (o p q : Ordering) → then_compare o (then_compare p q) ≡ then_compare (then_compare o p) q
then_compare_assoc Ordering.lt p q = refl
then_compare_assoc Ordering.eq p q = refl
then_compare_assoc Ordering.gt p q = refl

-- Of strings that begin with parts of one length the first parts decide first.
pub compare_bytes-append :
    (xs ys us vs : Bytes)
    → length xs ≡ length ys
    → compare_bytes (xs ++ us) (ys ++ vs) ≡ then_compare (compare_bytes xs ys) (compare_bytes us vs)
unfolding compare_bytes
compare_bytes-append [] [] us vs h = refl
compare_bytes-append [] (b ∷ ys) us vs h = absurd (omega arith)
compare_bytes-append (a ∷ xs) [] us vs h = absurd (omega arith)
compare_bytes-append (a ∷ xs) (b ∷ ys) us vs h =
    rw (compare_bytes-append xs ys us vs (omega arith)) (then_compare_assoc (compare a b) _ _)
