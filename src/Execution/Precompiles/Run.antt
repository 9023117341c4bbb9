-- ===== src/Execution/Precompiles/Run.antt =====
-- What the precompiles accept, exactly.
use kanari_evm.Prelude.{
  ℕ, ◌≤◌, ◌≡◌, ◌↔◌, refl, sym, ap, Bool, true, false, Option, some, [], Bytes, arith, Option-cases,
  inl, inr, ltb, if◌then◌else◌, ok, err, last?, last?-append, Result, to_be_bytes,
}
use kanari_evm.Types.Hex.RoundTrip.{IsBytes}
use kanari_evm.Execution.Precompiles.{
  parse_verify_input, run_pqc_verify, bool_word, verified, PrecompileHalt,
}
use kanari_evm.Execution.Precompiles.Layout.{parse_verify_input-layout}
use kanari_evm.Execution.Precompiles.Parsed.{Laid, parse_verify_input-Laid}

last_of_word : (b : Bool) → last? (bool_word b) ≡ some (if b then 1 else 0)
last_of_word true = last?-append (to_be_bytes 31 0) 1
last_of_word false = last?-append (to_be_bytes 31 0) 0

bool_word-inj : (b : Bool) → bool_word b ≡ bool_word true → b ≡ true
bool_word-inj true h = refl
bool_word-inj false h = cc (last_of_word false, last_of_word true, ap last? h)

-- A valid input: laid out, with the expected lengths, and with a signature that verifies.
abbrev pub Accepted : Bytes → ℕ → Option ℕ → (Bytes → Bytes → Bytes → Bool) → Type 0
Accepted input expected_pubkey_len expected_sig_len verify =
    (pubkey : Bytes) × (msg : Bytes) × (sig : Bytes) × Laid input pubkey msg sig expected_pubkey_len
      expected_sig_len
    × (verify pubkey msg sig ≡ true)

module _ (input : Bytes) (expected_pubkey_len : ℕ) (expected_sig_len : Option ℕ)
    (verify : Bytes → Bytes → Bytes → Bool) where
  abbrev parsed : Option (Bytes × Bytes × Bytes)
  parsed = parse_verify_input input expected_pubkey_len expected_sig_len

  verified-Accepted :
      IsBytes input
      → verified verify parsed ≡ true
      → Accepted input expected_pubkey_len expected_sig_len verify
  verified-Accepted bytes h = elim (Option-cases parsed) [
    | inl malformed ↦ cc (rw malformed at h)
    | inr (parts, p) ↦ (
      parts.0,
      parts.1,
      parts.2,
      parse_verify_input-Laid input expected_pubkey_len expected_sig_len parts.0 parts.1 parts.2
          bytes p,
      rw p at h,
    )
  ]

  Accepted-verified :
      Accepted input expected_pubkey_len expected_sig_len verify → verified verify parsed ≡ true
  Accepted-verified (pubkey, msg, sig, laid, good) =
      let p : parsed ≡ some (pubkey, msg, sig) =
        rw (laid.laid, sym laid.key_length)
          (parse_verify_input-layout pubkey msg sig expected_sig_len laid.filled laid.sig_length) in
      rw p good

  -- With enough gas, a byte input gets the word 1 exactly where it is the layout of a key of the
  -- expected length, a message and a non-empty signature of the expected length, if one is
  -- expected, that verifies.
  pub run_pqc_verify_iff :
      (gas_limit cost : ℕ)
      → IsBytes input
      → cost ≤ gas_limit
      → (run_pqc_verify input gas_limit cost expected_pubkey_len expected_sig_len verify
          ≡ ok (cost, bool_word true))
        ↔ Accepted input expected_pubkey_len expected_sig_len verify
  unfolding run_pqc_verify
  run_pqc_verify_iff gas_limit cost bytes enough =
      let paid : ltb gas_limit cost ≡ false = ground arith in
      rw paid (
        (λ h. verified-Accepted bytes (bool_word-inj _ (ap word_of h))),
        (λ a. ap (λ b. ok (cost, bool_word b)) (Accepted-verified a)),
      )
    where
      word_of : Result PrecompileHalt (ℕ × Bytes) → Bytes
      word_of (ok (gas, word)) = word
      word_of (err halt) = []
