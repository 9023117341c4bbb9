-- ===== src/Execution/Precompiles/Layout.antt =====
-- The input layout of the precompiles: what is parsed is exactly what was laid out.
use kanari_evm.Prelude.{
  ℕ, suc, ◌+◌, ◌*◌, ◌/◌, ◌%◌, ◌≡◌, ◌≢◌, refl, true, false, Option, some, [], ◌∷◌, ◌++◌, Bytes,
  length, length-append, drop, take-append_length, drop-append_length, is_empty, arith, ◌==◌,
}
use kanari_evm.Execution.Precompiles.{
  split_u16_prefix, parse_verify_input, get_to, get_from, sig_len_fits,
}

-- `pubkey_len:u16BE || pubkey || msg_len:u16BE || msg || sig`
abbrev pub layout : Bytes → Bytes → Bytes → Bytes
layout pubkey msg sig =
    length pubkey / 256
    ∷ length pubkey % 256
    ∷ (pubkey ++ length msg / 256 ∷ length msg % 256 ∷ (msg ++ sig))

drop-append_more : (n : ℕ) (xs ys : Bytes) → drop (length xs + n) (xs ++ ys) ≡ drop n ys
drop-append_more n [] ys = let e : length {A = ℕ} [] + n ≡ n = omega arith in rw e refl
drop-append_more n (x ∷ xs) ys =
    let e : length (x ∷ xs) + n ≡ suc (length xs + n) = omega arith in
    rw e (drop-append_more n xs ys)

get_to-append : (xs ys : Bytes) → get_to (length xs) (xs ++ ys) ≡ some xs
get_to-append xs ys = ground (arith, length-append xs ys, take-append_length xs ys)

get_from-append : (xs ys : Bytes) → get_from (length xs) (xs ++ ys) ≡ some ys
get_from-append xs ys = ground (arith, length-append xs ys, drop-append_length xs ys)

split_u16_prefix-length :
    (xs ys : Bytes)
    → split_u16_prefix (length xs / 256 ∷ length xs % 256 ∷ ys) ≡ some (length xs, ys)
unfolding split_u16_prefix
split_u16_prefix-length xs ys =
    let e : length xs / 256 * 256 + length xs % 256 ≡ length xs = omega arith in rw e refl

is_empty-ne : (sig : Bytes) → sig ≢ [] → is_empty sig ≡ false
is_empty-ne [] h = absurd (h refl)
is_empty-ne (b ∷ sig) h = refl

-- Parsing what was laid out gives the parts back, where the key has the expected length and the
-- signature is not empty and has the expected length, if one is expected.
pub parse_verify_input-layout :
    (pubkey msg sig : Bytes) (expected_sig_len : Option ℕ)
    → sig ≢ []
    → sig_len_fits expected_sig_len sig ≡ true
    → parse_verify_input (layout pubkey msg sig) (length pubkey) expected_sig_len
      ≡ some (pubkey, msg, sig)
unfolding parse_verify_input
parse_verify_input-layout pubkey msg sig expected_sig_len filled fits =
    let body : Bytes = length msg / 256 ∷ length msg % 256 ∷ (msg ++ sig) in
    let same : (length pubkey == length pubkey) ≡ true = ground arith in
    rw
      (
        split_u16_prefix-length pubkey (pubkey ++ body),
        get_from-append pubkey body,
        split_u16_prefix-length msg (msg ++ sig),
        get_to-append pubkey body,
        same,
        drop-append_more 2 pubkey body,
        get_to-append msg sig,
        get_from-append msg sig,
        is_empty-ne sig filled,
        fits,
      )
      refl
