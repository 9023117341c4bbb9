-- ===== src/Execution/Tx/Decode.antt =====
-- Which raw transactions `decode` accepts, and what it makes of them.
use Prim.Native.String.{String}
use kanari_evm.Prelude.{
  ℕ, ◌≡◌, refl, ◌>>=◌, Bool, true, false, ◌∙◌, ap, Option, some, Bytes, Result, ok, err, >>=-eq-ok,
  arith, inl, inr, Result-cases,
}
use kanari_evm.Execution.Errors.{
  Message, NodeError, NodeResult, unsupported_blob_transactions, invalid_transaction, bad_signature,
  or_error,
}
use kanari_evm.Execution.Tx.{
  TxEnvelope, TxEnv, PreparedTx, legacy, eip2930, eip1559, eip7702, eip4844, envelope_env,
  kind_address, check_chain_id, decode,
}

-- The chain id that an envelope names.
abbrev pub named_chain_id : TxEnvelope → Option ℕ
named_chain_id (legacy tx) = tx.chain_id
named_chain_id (eip2930 tx) = some tx.chain_id
named_chain_id (eip1559 tx) = some tx.chain_id
named_chain_id (eip7702 tx) = some tx.chain_id
named_chain_id (eip4844 tx) = some tx.chain_id

abbrev pub is_blob : TxEnvelope → Bool
is_blob (eip4844 tx) = true
is_blob (legacy tx) = false
is_blob (eip2930 tx) = false
is_blob (eip1559 tx) = false
is_blob (eip7702 tx) = false

pub or_error-eq-ok {ℓ} :
    {A : Type ℓ} (wrap : Message → NodeError) (r : Result String A) {a : A}
    → or_error wrap r ≡ ok a
    → r ≡ ok a
or_error-eq-ok wrap (ok a) h = cc
or_error-eq-ok wrap (err e) h = cc

-- What an accepted transaction guarantees.
pub record IsFor (sender : Bytes) (envelope : TxEnvelope) (chain_id : ℕ) (tx : PreparedTx)
    : Type 0 where
  pub named : named_chain_id envelope ≡ some chain_id
  pub replay_protected : tx.inner.chain_id ≡ some chain_id
  pub caller : tx.inner.caller ≡ sender
  pub from_sender : tx.sender ≡ sender
  pub target : tx.to ≡ kind_address tx.inner.kind

checked :
    (sender : Bytes) (envelope : TxEnvelope) (chain_id : ℕ) (tx : PreparedTx) (found : ℕ × TxEnv)
    → envelope_env sender envelope ≡ ok found
    → check_chain_id sender chain_id found ≡ ok tx
    → IsFor sender envelope chain_id tx
unfolding envelope_env check_chain_id
checked sender (legacy t) chain_id tx found e c = ground arith
checked sender (eip2930 t) chain_id tx found e c = ground arith
checked sender (eip1559 t) chain_id tx found e c = ground arith
checked sender (eip7702 t) chain_id tx found e c = ground arith
checked sender (eip4844 t) chain_id tx found e c = cc

found_eq :
    (sender : Bytes) (envelope : TxEnvelope) (chain_id : ℕ) (found : ℕ × TxEnv)
    → envelope_env sender envelope ≡ ok found
    → named_chain_id envelope ≡ some chain_id
    → found ≡ (chain_id, found.1)
unfolding envelope_env
found_eq sender (legacy t) chain_id found e named = ground arith
found_eq sender (eip2930 t) chain_id found e named = ground arith
found_eq sender (eip1559 t) chain_id found e named = ground arith
found_eq sender (eip7702 t) chain_id found e named = ground arith
found_eq sender (eip4844 t) chain_id found e named = cc

never_fails :
    (sender : Bytes) (envelope : TxEnvelope) (chain_id : ℕ) {why : NodeError}
    → envelope_env sender envelope ≡ err why
    → named_chain_id envelope ≡ some chain_id
    → is_blob envelope ≡ false
    → ⊥
unfolding envelope_env
never_fails sender (legacy t) chain_id e named plain = ground arith
never_fails sender (eip2930 t) chain_id e named plain = cc
never_fails sender (eip1559 t) chain_id e named plain = cc
never_fails sender (eip7702 t) chain_id e named plain = cc
never_fails sender (eip4844 t) chain_id e named plain = cc plain

env_for :
    (sender : Bytes) (envelope : TxEnvelope) (chain_id : ℕ)
    → named_chain_id envelope ≡ some chain_id
    → is_blob envelope ≡ false
    → (inner : TxEnv) × (envelope_env sender envelope ≡ ok (chain_id, inner))
env_for sender envelope chain_id named plain = elim (Result-cases (envelope_env sender envelope)) [
  | inl (found, e) ↦ (found.1, e ∙ ap ok (found_eq sender envelope chain_id found e named))
  | inr (why, e) ↦ absurd (never_fails sender envelope chain_id e named plain)
]

check_chain_id_self :
    (sender : Bytes) (chain_id : ℕ) (inner : TxEnv)
    → check_chain_id sender chain_id (chain_id, inner)
      ≡ ok (record { sender = sender; to = kind_address inner.kind; inner = inner })
unfolding check_chain_id
check_chain_id_self sender chain_id inner = ground arith

module _ (decode_2718_exact : Bytes → Result String TxEnvelope)
    (recover_signer : TxEnvelope → Result String Bytes) (raw : Bytes) (chain_id : ℕ) where
  -- An accepted transaction decodes, has a recovered sender, is protected for this chain, and is
  -- run as that sender.
  pub decode_sound :
      (tx : PreparedTx)
      → decode decode_2718_exact recover_signer raw chain_id ≡ ok tx
      → (envelope : TxEnvelope) × (sender : Bytes) × (decode_2718_exact raw ≡ ok envelope)
        × (recover_signer envelope ≡ ok sender)
        × IsFor sender envelope chain_id tx
  unfolding decode
  decode_sound tx h =
      let (envelope, d, h1) =
        >>=-eq-ok (or_error invalid_transaction (decode_2718_exact raw)) _ h in
      let (sender, r, h2) = >>=-eq-ok (or_error bad_signature (recover_signer envelope)) _ h1 in
      let (found, e, c) = >>=-eq-ok (envelope_env sender envelope) _ h2 in
      (
        envelope,
        sender,
        or_error-eq-ok invalid_transaction (decode_2718_exact raw) d,
        or_error-eq-ok bad_signature (recover_signer envelope) r,
        checked sender envelope chain_id tx found e c,
      )

  -- The verdict on a transaction that decodes, is signed and names this chain.
  abbrev pub Decided : Bool → NodeResult PreparedTx → Type 0
  Decided true r = r ≡ err unsupported_blob_transactions
  Decided false r = (tx : PreparedTx) × (r ≡ ok tx)

  accepted :
      (sender : Bytes) (envelope : TxEnvelope)
      → named_chain_id envelope ≡ some chain_id
      → is_blob envelope ≡ false
      → (tx : PreparedTx) × ((envelope_env sender envelope >>= λ found.
            check_chain_id sender chain_id found)
          ≡ ok tx)
  accepted sender envelope named plain =
      let (inner, e) = env_for sender envelope chain_id named plain in
      (
        record { sender = sender; to = kind_address inner.kind; inner = inner },
        rw e (check_chain_id_self sender chain_id inner),
      )

  decided :
      (sender : Bytes) (envelope : TxEnvelope)
      → named_chain_id envelope ≡ some chain_id
      → Decided
          (is_blob envelope)
          (envelope_env sender envelope >>= λ found. check_chain_id sender chain_id found)
  unfolding envelope_env
  decided sender (eip4844 tx) named = refl
  decided sender (legacy tx) named = accepted sender (legacy tx) named refl
  decided sender (eip2930 tx) named = accepted sender (eip2930 tx) named refl
  decided sender (eip1559 tx) named = accepted sender (eip1559 tx) named refl
  decided sender (eip7702 tx) named = accepted sender (eip7702 tx) named refl

  -- A transaction that decodes, whose sender is recovered, and that names this chain id is accepted,
  -- but for a blob transaction, which is rejected as such.
  pub decode_complete :
      (sender : Bytes) (envelope : TxEnvelope)
      → decode_2718_exact raw ≡ ok envelope
      → recover_signer envelope ≡ ok sender
      → named_chain_id envelope ≡ some chain_id
      → Decided (is_blob envelope) (decode decode_2718_exact recover_signer raw chain_id)
  unfolding decode
  decode_complete sender envelope d r named = rw (d, r) (decided sender envelope named)
