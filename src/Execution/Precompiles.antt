-- ===== src/Execution/Precompiles.antt =====
-- The signature precompiles of `crates/move-execution/src/precompiles.rs`. Verification itself is
-- the SDK's and a parameter.
pub mod Layout
pub mod Parsed
pub mod Run
pub mod Provider
mod Tests
use kanari_evm.Prelude.{
  ℕ, ◌+◌, ◌*◌, Bool, true, false, not, ◌&&◌, Option, none, some, List, [], ◌∷◌, ◌++◌, Bytes, ok,
  err, Result, length, take, drop, leb, ltb, ◌==◌, if◌then◌else◌, is_empty, to_be_bytes,
}

abbrev pub falcon512_verify_gas : ℕ
falcon512_verify_gas = 3_000

abbrev pub dilithium3_verify_gas : ℕ
dilithium3_verify_gas = 5_000

abbrev pub falcon512_public_key_len : ℕ
falcon512_public_key_len = 897

abbrev pub dilithium3_public_key_len : ℕ
dilithium3_public_key_len = 1952

abbrev pub dilithium3_signature_len : ℕ
dilithium3_signature_len = 3309

-- `slice.get(..n)` and `slice.get(n..)`
abbrev pub get_to : ℕ → Bytes → Option Bytes
get_to n bytes = if leb n (length bytes) then some (take n bytes) else none

abbrev pub get_from : ℕ → Bytes → Option Bytes
get_from n bytes = if leb n (length bytes) then some (drop n bytes) else none

infixl 5 ◌>>=◌
abbrev ◌>>=◌ : {A B : Type 0} → Option A → (A → Option B) → Option B
none >>= f = none
some a >>= f = f a

-- A two-byte big-endian length and the rest; shorter inputs have none.
unfoldable pub split_u16_prefix : Bytes → Option (ℕ × Bytes)
split_u16_prefix [] = none
split_u16_prefix (a ∷ []) = none
split_u16_prefix (a ∷ b ∷ rest) = some (a * 256 + b, rest)

abbrev pub sig_len_fits : Option ℕ → Bytes → Bool
sig_len_fits none sig = true
sig_len_fits (some expected) sig = length sig == expected

-- The index `rest[pubkey_len + 2..]` is in range, since the two lengths before it were read.
unfoldable pub parse_verify_input : Bytes → ℕ → Option ℕ → Option (Bytes × Bytes × Bytes)
parse_verify_input input expected_pubkey_len expected_sig_len = do
  (pubkey_len, rest) ← split_u16_prefix input
  tail ← get_from pubkey_len rest
  (msg_len, ignored) ← split_u16_prefix tail
  pubkey ← get_to pubkey_len rest
  let after_pubkey = drop (pubkey_len + 2) rest
  msg ← (if length pubkey == expected_pubkey_len then get_to msg_len after_pubkey else none)
  sig ← get_from msg_len after_pubkey
  if is_empty sig
      then none
      else if sig_len_fits expected_sig_len sig
      then some (pubkey, msg, sig)
      else none

pub data PrecompileHalt : Type 0 where
  out_of_gas : PrecompileHalt

abbrev pub verified : (Bytes → Bytes → Bytes → Bool) → Option (Bytes × Bytes × Bytes) → Bool
verified verify none = false
verified verify (some (pubkey, msg, sig)) = verify pubkey msg sig

-- A 32-byte word whose last byte is the Boolean.
abbrev pub bool_word : Bool → Bytes
bool_word true = to_be_bytes 31 0 ++ 1 ∷ []
bool_word false = to_be_bytes 31 0 ++ 0 ∷ []

-- The gas used and the output word.
unfoldable pub run_pqc_verify :
    Bytes
    → ℕ
    → ℕ
    → ℕ
    → Option ℕ
    → (Bytes → Bytes → Bytes → Bool)
    → Result PrecompileHalt (ℕ × Bytes)
unfolding parse_verify_input
run_pqc_verify input gas_limit cost expected_pubkey_len expected_sig_len verify =
    if ltb gas_limit cost
    then err out_of_gas
    else ok (
      cost,
      bool_word (verified verify (parse_verify_input input expected_pubkey_len expected_sig_len)),
    )

unfoldable pub falcon512_verify_run :
    (Bytes → Bytes → Bytes → Bool) → Bytes → ℕ → Result PrecompileHalt (ℕ × Bytes)
falcon512_verify_run verify input gas_limit =
    run_pqc_verify input gas_limit falcon512_verify_gas falcon512_public_key_len none verify

unfoldable pub dilithium3_verify_run :
    (Bytes → Bytes → Bytes → Bool) → Bytes → ℕ → Result PrecompileHalt (ℕ × Bytes)
dilithium3_verify_run verify input gas_limit =
    run_pqc_verify input gas_limit dilithium3_verify_gas dilithium3_public_key_len
      (some dilithium3_signature_len) verify
