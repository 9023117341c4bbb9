-- ===== src/Execution/TxView/Agreement.antt =====
-- A transaction that is accepted for execution has a view, and the view shows what is executed.
use Prim.Native.String.{String}
use kanari_evm.Prelude.{
  ℕ, ◌≤◌, ◌≡◌, refl, ap, ◌∙◌, subst, ◌==◌, Bool-cases, Option, none, some, Bytes, Result, ok,
  >>=-eq-ok, arith, inl, inr,
}
use kanari_evm.Types.Gas.{effective_gas_price}
use kanari_evm.Execution.Errors.{NodeError, invalid_transaction, bad_signature, or_error}
use kanari_evm.Execution.Tx.{
  TxEnvelope, TxEnv, LegacyTx, PreparedTx, legacy, eip2930, eip1559, eip7702, eip4844, envelope_env,
  check_chain_id, kind_address, decode,
}
use kanari_evm.Execution.TxView.{TxView, legacy_view, envelope_view, view_of, decode_tx_view}
use kanari_evm.Execution.Tx.Decode.{or_error-eq-ok}

ok-inj : {A : Type 0} {a b : A} → ◌≡◌ {A = Result NodeError A} (ok a) (ok b) → a ≡ b
ok-inj h = cc h

-- The view and what is executed.
pub record Shows (view : TxView) (tx : PreparedTx) : Type 0 where
  pub nonce : view.nonce ≡ tx.inner.nonce
  pub gas_limit : view.gas_limit ≡ tx.inner.gas_limit
  pub to : view.to ≡ tx.to
  pub value : view.value ≡ tx.inner.value
  pub input : view.input ≡ tx.inner.input
  pub chain_id : some view.chain_id ≡ tx.inner.chain_id
  pub price : view.effective_gas_price ≤ tx.inner.gas_price

-- What the check of the chain id passes.
abbrev prepared : Bytes → ℕ × TxEnv → PreparedTx
prepared sender found = record { sender = sender; to = kind_address found.1.kind; inner = found.1 }

check_chain_id-eq-ok :
    (sender : Bytes) (chain_id : ℕ) (found : ℕ × TxEnv) (tx : PreparedTx)
    → check_chain_id sender chain_id found ≡ ok tx
    → prepared sender found ≡ tx
unfolding check_chain_id
check_chain_id-eq-ok sender chain_id found tx h = elim (Bool-cases (found.0 == chain_id)) [
  | inl same ↦ cc (rw same at h)
  | inr other ↦ cc (rw other at h)
]

abbrev HasView : ℕ → TxEnvelope → PreparedTx → Type 0
HasView base_fee envelope tx =
    (view : TxView) × (envelope_view base_fee envelope ≡ some view) × Shows view tx

-- From the environment that the envelope gives.
has_view :
    (sender : Bytes) (base_fee : ℕ) (envelope : TxEnvelope) (found env : ℕ × TxEnv)
    (tx : PreparedTx)
    → env ≡ found
    → prepared sender found ≡ tx
    → HasView base_fee envelope (prepared sender env)
    → HasView base_fee envelope tx
has_view sender base_fee envelope found env tx e p v =
    subst (HasView base_fee envelope) (ap (prepared sender) e ∙ p) v

capped : (cap fee tip : ℕ) → effective_gas_price cap fee tip ≤ cap
unfolding effective_gas_price
capped cap fee tip = omega arith

legacy_shows :
    (sender : Bytes) (base_fee : ℕ) (t : LegacyTx) (named : Option ℕ) (found : ℕ × TxEnv)
    (tx : PreparedTx)
    → t.chain_id ≡ named
    → envelope_env sender (legacy t) ≡ ok found
    → prepared sender found ≡ tx
    → HasView base_fee (legacy t) tx
unfolding envelope_env envelope_view
legacy_shows sender base_fee t none found tx n e p = cc (rw n at e)
legacy_shows sender base_fee t (some id) found tx n e p =
    has_view sender base_fee (legacy t) found _ tx (ok-inj (rw n at e)) p (
      _,
      ap (legacy_view t) n,
      record {
        nonce = refl;
        gas_limit = refl;
        to = refl;
        value = refl;
        input = refl;
        chain_id = refl;
        price = omega arith;
      },
    )

envelope_view-Shows :
    (sender : Bytes) (base_fee : ℕ) (envelope : TxEnvelope) (found : ℕ × TxEnv) (tx : PreparedTx)
    → envelope_env sender envelope ≡ ok found
    → prepared sender found ≡ tx
    → HasView base_fee envelope tx
unfolding envelope_env envelope_view
envelope_view-Shows sender base_fee (legacy t) found tx e p =
    legacy_shows sender base_fee t t.chain_id found tx refl e p
envelope_view-Shows sender base_fee (eip2930 t) found tx e p =
    has_view sender base_fee (eip2930 t) found (_, _) tx (ok-inj e) p
      (
        _,
        refl,
        record {
          nonce = refl;
          gas_limit = refl;
          to = refl;
          value = refl;
          input = refl;
          chain_id = refl;
          price = omega arith;
        },
      )
envelope_view-Shows sender base_fee (eip1559 t) found tx e p =
    has_view sender base_fee (eip1559 t) found (_, _) tx (ok-inj e) p
      (
        _,
        refl,
        record {
          nonce = refl;
          gas_limit = refl;
          to = refl;
          value = refl;
          input = refl;
          chain_id = refl;
          price = capped t.max_fee_per_gas base_fee t.max_priority_fee_per_gas;
        },
      )
envelope_view-Shows sender base_fee (eip7702 t) found tx e p =
    has_view sender base_fee (eip7702 t) found (_, _) tx (ok-inj e) p
      (
        _,
        refl,
        record {
          nonce = refl;
          gas_limit = refl;
          to = refl;
          value = refl;
          input = refl;
          chain_id = refl;
          price = capped t.max_fee_per_gas base_fee t.max_priority_fee_per_gas;
        },
      )
envelope_view-Shows sender base_fee (eip4844 t) found tx e p = cc e

-- A raw transaction that `decode` accepts has a view, whatever the base fee, with the nonce, gas limit, target,
-- value, input and chain id that are executed, and a price within the cap that is executed.
pub decode_tx_view-Shows :
    (decode_2718_exact : Bytes → Result String TxEnvelope)
    (recover_signer : TxEnvelope → Result String Bytes) (raw : Bytes) (chain_id base_fee : ℕ)
    (tx : PreparedTx)
    → decode decode_2718_exact recover_signer raw chain_id ≡ ok tx
    → (view : TxView) × (decode_tx_view decode_2718_exact raw base_fee ≡ some view) × Shows view tx
unfolding decode decode_tx_view
decode_tx_view-Shows decode_2718_exact recover_signer raw chain_id base_fee tx h =
    let (envelope, d, h1) = >>=-eq-ok (or_error invalid_transaction (decode_2718_exact raw)) _ h in
    let (sender, r, h2) = >>=-eq-ok (or_error bad_signature (recover_signer envelope)) _ h1 in
    let (found, e, c) = >>=-eq-ok (envelope_env sender envelope) _ h2 in
    let (view, v, shows) =
      envelope_view-Shows sender base_fee envelope found tx e
        (check_chain_id-eq-ok sender chain_id found tx c) in
    (
      view,
      ap (view_of base_fee) (or_error-eq-ok invalid_transaction (decode_2718_exact raw) d) ∙ v,
      shows,
    )
