-- ===== src/Execution/Faucet/Limits.antt =====
-- What a faucet call that succeeds has passed.
use kanari_evm.Prelude.{
  ℕ, ◌+◌, ◌≤◌, ◌≡◌, ap, Option, none, some, [], Bytes, refl, ok, err, ltb, arith, Bool-cases, inl,
  inr,
}
use kanari_evm.Execution.Errors.{NodeError, NodeResult, storage, bad_signature, or_error}
use kanari_evm.Execution.Tx.{Eip1559Tx, call}
use kanari_evm.Execution.Tx.Decode.{or_error-eq-ok}
use kanari_evm.Execution.Machine.{Machine}
use kanari_evm.Execution.Action.{Action, lift, ◌>>=◌}
use kanari_evm.Execution.Commitment.{balance_of, nonce_of}
use kanari_evm.Execution.Node.{KanariNode, pending_base_fee}
use kanari_evm.Execution.Seal.{send_raw_transaction}
use kanari_evm.Execution.Faucet.{
  Wallet, faucet_cap, key_or, check_amount, check_balance, gas_cost, drip, faucet,
}

module _ (m : Machine) (w : Wallet) where
  -- A step that only checks leaves the node, and the rest goes on from it.
  lift_then :
      {A : Type 0} (r : NodeResult A) (f : A → Action (KanariNode m) Bytes) (n : KanariNode m)
      {hash : Bytes} {n' : KanariNode m}
      → (lift r >>= f) n ≡ (ok hash, n')
      → (a : A) × (r ≡ ok a) × (f a n ≡ (ok hash, n'))
  lift_then (ok a) f n h = (a, refl, h)
  lift_then (err e) f n h = absurd (err-ne-ok (ap (λ (p : NodeResult Bytes × KanariNode m). p.0) h))
    where
      err-ne-ok : {e : NodeError} {b : Bytes} → ◌≡◌ {A = NodeResult Bytes} (err e) (ok b) → ⊥
      err-ne-ok k = cc k

  check_amount-eq-ok : (amount : ℕ) → check_amount m w amount ≡ ok tt → amount ≤ faucet_cap
  check_amount-eq-ok amount h = elim (Bool-cases (ltb faucet_cap amount)) [
    | inl over ↦ cc (rw over at h)
    | inr within ↦ ground (arith, within)
  ]

  check_balance-eq-ok :
      (balance needed : ℕ) → check_balance m w balance needed ≡ ok tt → needed ≤ balance
  check_balance-eq-ok balance needed h = elim (Bool-cases (ltb balance needed)) [
    | inl dry ↦ cc (rw dry at h)
    | inr covered ↦ ground (arith, covered)
  ]

  key_or-eq-ok :
      (key : Option Bytes) {secret : Bytes} → key_or m w key ≡ ok secret → key ≡ some secret
  key_or-eq-ok none h = cc h
  key_or-eq-ok (some k) h = cc h

  -- The call that is left once all checks have passed.
  pub record Covered (now_secs : ℕ) (to : Bytes) (amount_wei : ℕ) (n : KanariNode m) (hash : Bytes)
      (n' : KanariNode m) : Type 0 where
    pub within_cap : amount_wei ≤ faucet_cap
    pub secret : Bytes
    pub configured : n.faucet_key ≡ some secret
    pub signer : w.Signer
    pub key_of : w.from_bytes secret ≡ ok signer
    pub balance : ℕ
    pub balance_is : balance_of m n.db (w.address signer) ≡ ok balance
    pub covered : amount_wei + gas_cost m w (pending_base_fee m n) ≤ balance
    pub nonce : ℕ
    pub nonce_is : nonce_of m n.db (w.address signer) ≡ ok nonce
    pub tx : Eip1559Tx
    pub recipient : tx.to ≡ call to
    pub amount : tx.value ≡ amount_wei
    pub for_chain : tx.chain_id ≡ n.spec.chain_id
    pub next_nonce : tx.nonce ≡ nonce
    pub gas : tx.gas_limit ≡ 21_000
    pub fees :
        (tx.max_fee_per_gas ≡ pending_base_fee m n)
        × (tx.max_priority_fee_per_gas ≡ pending_base_fee m n)
    pub plain : (tx.input ≡ []) × (tx.access_list ≡ [])
    pub raw : Bytes
    pub signed : w.sign signer tx ≡ ok raw
    pub sent : send_raw_transaction m now_secs raw n ≡ (ok hash, n')

  -- A faucet call that succeeds asked for at most 10,000 ETH of a configured key whose account's
  -- balance covers the amount and the price of the transfer's gas, and is the sending of one
  -- transaction that this key has signed: a plain transfer of exactly the amount to the recipient,
  -- for this chain, with the account's next nonce and the pending base fee for cap and tip.
  pub faucet-Covered :
      (now_secs : ℕ) (to : Bytes) (amount_wei : ℕ) (n n' : KanariNode m) (hash : Bytes)
      → faucet m w now_secs to amount_wei n ≡ (ok hash, n')
      → Covered now_secs to amount_wei n hash n'
  unfolding faucet
  faucet-Covered now_secs to amount_wei n n' hash h =
      let (u1, c1, h1) = lift_then (check_amount m w amount_wei) _ n h in
      let (secret, c2, h2) = lift_then (key_or m w n.faucet_key) _ n h1 in
      let (signer, c3, h3) = lift_then (or_error storage (w.from_bytes secret)) _ n h2 in
      let (balance, c4, h4) = lift_then (balance_of m n.db (w.address signer)) _ n h3 in
      let (u5, c5, h5) =
        lift_then (check_balance m w balance (amount_wei + gas_cost m w (pending_base_fee m n))) _ n
          h4 in
      let (nonce, c6, h6) = lift_then (nonce_of m n.db (w.address signer)) _ n h5 in
      let (raw, c7, h7) =
        lift_then
          (or_error bad_signature
            (w.sign signer (drip m w n.spec.chain_id nonce (pending_base_fee m n) to amount_wei)))
          _ n h6 in
      record {
        within_cap = check_amount-eq-ok amount_wei c1;
        secret = secret;
        configured = key_or-eq-ok n.faucet_key c2;
        signer = signer;
        key_of = or_error-eq-ok storage (w.from_bytes secret) c3;
        balance = balance;
        balance_is = c4;
        covered = check_balance-eq-ok balance (amount_wei + gas_cost m w (pending_base_fee m n)) c5;
        nonce = nonce;
        nonce_is = c6;
        tx = drip m w n.spec.chain_id nonce (pending_base_fee m n) to amount_wei;
        recipient = refl;
        amount = refl;
        for_chain = refl;
        next_nonce = refl;
        gas = refl;
        fees = (refl, refl);
        plain = (refl, refl);
        raw = raw;
        signed =
            or_error-eq-ok bad_signature
              (w.sign signer (drip m w n.spec.chain_id nonce (pending_base_fee m n) to amount_wei))
              c7;
        sent = h7;
      }
