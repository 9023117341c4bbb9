-- ===== src/Rpc/Server/Receipts.antt =====
-- A transaction that was sent is found by the text that the sender was answered.
use kanari_evm.Prelude.{
  ok_injective, ℕ, ◌+◌, ◌≡◌, refl, sym, ap, ◌∙◌, none, some, Bytes, ok, err, ◌>>=◌,
}
use kanari_evm.Types.Hex.{quantity_u64}
use kanari_evm.Storage.Keys.{codes}
use kanari_evm.Json.{Value, string, array, object, nil, cons, Fields, get}
use kanari_evm.Execution.Errors.{NodeResult}
use kanari_evm.Execution.Node.{KanariNode, block_number, receipt}
use kanari_evm.Execution.Seal.{send_raw_transaction, seal_committed}
use kanari_evm.Execution.Seal.Chain.{IsValid}
use kanari_evm.Execution.Seal.Lookup.{outcome, newest_receipt}
use kanari_evm.Rpc.Params.{parse_hash}
use kanari_evm.Rpc.Response.{Reply, Failure, of_node}
use kanari_evm.Rpc.Services.{Services}
use kanari_evm.Rpc.Views.Shape.{receipt_view-fields}
use kanari_evm.Storage.Records.{StoredReceipt}
use kanari_evm.Rpc.Handlers.Calls.{send_raw, then_act, raw_param}
use kanari_evm.Rpc.Handlers.Blocks.{get_transaction_receipt}

err-ne-ok : {e : Failure} {v : Value} → ◌≡◌ {A = Reply Value} (err e) (ok v) → ⊥
err-ne-ok h = cc h

module _ (s : Services) where
  open s use {machine, forms}

  -- The sent transaction and its hash, of a request that was answered.
  pub record Sent (now : ℕ) (n n' : KanariNode machine) (v : Value) : Type 0 where
    pub raw : Bytes
    pub hash : Bytes
    pub sent : send_raw_transaction machine now raw n ≡ (ok hash, n')
    pub told : v ≡ string (forms.b256_text hash)

  acted-Sent :
      (now : ℕ) (raw : Bytes) (n n' : KanariNode machine) (v : Value)
      (out : NodeResult Bytes × KanariNode machine)
      → send_raw_transaction machine now raw n ≡ out
      → ◌≡◌ {A = Reply Value × KanariNode machine}
          (of_node out.0 >>= λ hash. ok (string (forms.b256_text hash)), out.1)
          (ok v, n')
      → Sent now n n' v
  acted-Sent now raw n n' v (ok hash, after) e h = record {
    raw = raw;
    hash = hash;
    sent = e ∙ ap (λ (x : KanariNode machine). (ok hash, x)) (ap (λ p. p.1) h);
    told = sym (ok_injective (ap (λ p. p.0) h));
  }
  acted-Sent now raw n n' v (err why, after) e h = absurd (err-ne-ok (ap (λ p. p.0) h))

  then_act-Sent :
      (now : ℕ) (params : Reply Bytes) (n n' : KanariNode machine) (v : Value)
      → then_act s params (send_raw_transaction machine now) n ≡ (ok v, n')
      → Sent now n n' v
  then_act-Sent now (ok raw) n n' v h =
      acted-Sent now raw n n' v (send_raw_transaction machine now raw n) refl h
  then_act-Sent now (err e) n n' v h = absurd (err-ne-ok (ap (λ p. p.0) h))

  -- With no DAG the transaction is sealed at once.
  sealed_at_once :
      (now : ℕ) (raw : Bytes) (n : KanariNode machine)
      → n.dag_sender ≡ none
      → send_raw_transaction machine now raw n ≡ seal_committed machine raw now n
  unfolding send_raw_transaction seal_committed
  sealed_at_once now raw n alone = rw alone refl

  -- Where the text of the hash parses back, a transaction that a valid single node accepts has a
  -- receipt under the text that was answered: of that hash and the next block's number.
  pub send_raw-get_transaction_receipt :
      (now : ℕ) (params v : Value) (n n' : KanariNode machine)
      → IsValid machine n
      → n.dag_sender ≡ none
      → ((raw : Bytes)
          → forms.parse_b256 (forms.b256_text (machine.keccak256 raw))
            ≡ some (machine.keccak256 raw))
      → send_raw s now params n ≡ (ok v, n')
      → (fields : Fields) × (get_transaction_receipt s (array (cons v nil)) n' ≡ ok (object fields))
        × (get (codes "transactionHash") fields ≡ some v)
        × (get (codes "blockNumber") fields
            ≡ some (string (quantity_u64 (block_number machine n + 1))))
  unfolding send_raw get_transaction_receipt
  send_raw-get_transaction_receipt now params v n n' valid alone parses h =
      let sent : Sent now n n' v = then_act-Sent now (raw_param s params) n n' v h in
      let sealed : seal_committed machine sent.raw now n ≡ (ok sent.hash, n') =
        sym (sealed_at_once now sent.raw n alone) ∙ sent.sent in
      let out = outcome machine sent.raw now n n' sent.hash valid sealed in
      let r : StoredReceipt = out.receipt in
      let found : receipt machine n' sent.hash ≡ some r =
        unfold receipt in newest_receipt machine sent.raw now n n' sent.hash valid sealed in
      let read : parse_hash forms v ≡ ok sent.hash =
        unfold parse_hash in rw (sent.told, out.hash_of_raw, parses sent.raw) refl in
      let (fields, view, hash_shown, number_shown) =
        receipt_view-fields forms machine n' sent.hash r found in
      (
        fields,
        rw (read, view) refl,
        hash_shown
            ∙ ap (λ (x : Bytes). some (string (forms.b256_text x))) out.receipt_of_tx.0
            ∙ ap some (sym sent.told),
        number_shown ∙ ap (λ (k : ℕ). some (string (quantity_u64 k))) out.receipt_of_tx.1,
      )
