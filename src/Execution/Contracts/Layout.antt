-- ===== src/Execution/Contracts/Layout.antt =====
-- What the bytes of the call data and of the init code say.
use kanari_evm.Prelude.{
  ℕ, zero, suc, ◌+◌, ◌^◌, ◌%◌, ◌≤◌, ◌<◌, ◌≡◌, refl, ◌∙◌, ap, some, true, [], ◌∷◌, ◌++◌, Bytes,
  length, length-append, take, drop, leb, arith, to_be_bytes, length-to_be_bytes, from_be_bytes,
  from_be_bytes_after, from_be_bytes_after-append, from_be_bytes-to_be_bytes,
}
use kanari_evm.Execution.Contracts.Evm.{read_from, write_at, execute, returned, steps-returned}
use kanari_evm.Execution.Contracts.{
  deploy_init, encode_set, simple_storage_set_selector, init_prefix,
}

-- The byte at a position, 0 beyond the end.
unfoldable pub byte_at : ℕ → Bytes → ℕ
byte_at i [] = 0
byte_at zero (b ∷ bs) = b
byte_at (suc i) (b ∷ bs) = byte_at i bs

-- An init code of this runtime: its size, and what it returns when it is run on an empty stack and
-- memory.
pub record Deploys (init runtime : Bytes) : Type 0 where
  pub size : length init ≡ 13 + length runtime
  pub deploys : execute init ≡ returned runtime

take-length-append : (xs ys : Bytes) → take (length xs) (xs ++ ys) ≡ xs
take-length-append [] ys = refl
take-length-append (x ∷ xs) ys = ap (λ (l : Bytes). x ∷ l) (take-length-append xs ys)

take-length-append_both : (xs ys zs : Bytes) → take (length xs) ((xs ++ ys) ++ zs) ≡ xs
take-length-append_both [] ys zs = refl
take-length-append_both (x ∷ xs) ys zs =
    ap (λ (l : Bytes). x ∷ l) (take-length-append_both xs ys zs)

-- The copy of the code from byte 13 on is the runtime, and it is what memory holds.
copied :
    (n : ℕ) (runtime : Bytes)
    → read_from 13 (length runtime) (init_prefix n 13 ++ runtime) ≡ runtime
copied n runtime = take-length-append runtime _

stored : (runtime : Bytes) → read_from 0 (length runtime) (write_at 0 runtime []) ≡ runtime
stored runtime = take-length-append_both runtime _ _

execute-init_prefix :
    (n : ℕ) (runtime : Bytes)
    → n ≡ length runtime
    → execute (init_prefix n 13 ++ runtime) ≡ returned runtime
execute-init_prefix n runtime e =
    steps-returned (init_prefix n 13 ++ runtime) runtime _
    ∙ ap returned (
        ap (λ k. read_from 0 k (write_at 0 (read_from 13 k (init_prefix n 13 ++ runtime)) [])) e
        ∙ ap (λ l. read_from 0 (length runtime) (write_at 0 l [])) (copied n runtime)
        ∙ stored runtime)

prefix-Deploys :
    (runtime : Bytes)
    → length runtime ≤ 242
    → Deploys (init_prefix (length runtime % 256) 13 ++ runtime) runtime
prefix-Deploys runtime fits =
    let byte : length runtime % 256 ≡ length runtime = omega arith in
    record { size = omega arith; deploys = execute-init_prefix (length runtime % 256) runtime byte }

-- A runtime of 1 to 242 bytes has an init code, 13 bytes longer, that returns exactly the runtime
-- when the EVM runs it: PUSH1, DUP1, CODECOPY and RETURN are run as they are documented.
pub deploy_init-Deploys :
    (runtime : Bytes)
    → 1 ≤ length runtime
    → length runtime ≤ 242
    → (init : Bytes) × (deploy_init runtime ≡ some init) × Deploys init runtime
unfolding deploy_init
deploy_init-Deploys [] filled fits = absurd (omega arith)
deploy_init-Deploys (b ∷ bs) filled fits =
    let within : leb (length (b ∷ bs)) 242 ≡ true = ground arith in
    (init_prefix (length (b ∷ bs) % 256) 13 ++ b ∷ bs, rw within refl, prefix-Deploys (b ∷ bs) fits)

-- The call data of `set` for a 64-bit value has 36 bytes: the selector, then a word whose value,
-- most significant byte first, is the argument.
encode_set-argument :
    (value : ℕ)
    → value < 2 ^ 64
    → (length (encode_set value) ≡ 36)
      × (take 4 (encode_set value) ≡ simple_storage_set_selector)
      × (from_be_bytes (drop 4 (encode_set value)) ≡ value)
unfolding encode_set
encode_set-argument value h = (
  omega (
    arith,
    length-append (to_be_bytes 24 0) (to_be_bytes 8 value),
    length-to_be_bytes 24 0,
    length-to_be_bytes 8 value,
  ),
  refl,
  from_be_bytes_after-append 0 (to_be_bytes 24 0) (to_be_bytes 8 value)
      ∙ ap (λ (n : ℕ). from_be_bytes_after n (to_be_bytes 8 value))
          (from_be_bytes-to_be_bytes 24 0 (omega arith))
      ∙ from_be_bytes-to_be_bytes 8 value h,
)
