-- ===== src/Rpc/Server/Safety.antt =====
-- What requests do to the node: those of two methods send one transaction, the others nothing.
use kanari_evm.Prelude.{ℕ, ◌+◌, ◌<◌, ◌^◌, Option, none, some, Bytes, ok, err, length}
use kanari_evm.Json.{Value}
use kanari_evm.Execution.Errors.{NodeResult, storage, bad_signature, or_error}
use kanari_evm.Execution.Machine.{Machine}
use kanari_evm.Execution.Action.{Action, lift, ◌>>=◌}
use kanari_evm.Execution.Commitment.{balance_of, nonce_of}
use kanari_evm.Execution.Node.{KanariNode, pending_base_fee}
use kanari_evm.Execution.Seal.{seal_committed, send_raw_transaction}
use kanari_evm.Execution.Seal.Chain.{IsValid, seal_committed-IsValid, send_raw_transaction-IsValid}
use kanari_evm.Execution.Seal.Ledger.{
  Extends, Extends-refl, Extends-trans, seal_committed-Extends, send_raw_transaction-Extends,
}
use kanari_evm.Execution.Faucet.{
  Wallet, faucet, check_amount, key_or, check_balance, gas_cost, drip,
}
use kanari_evm.Rpc.Response.{Reply}
use kanari_evm.Rpc.Services.{Services}
use kanari_evm.Rpc.Handlers.Calls.{send_raw, kanari_faucet, then_act, raw_param, faucet_params}
use kanari_evm.Rpc.Server.{run_method, run_named, dispatch_inner}
use kanari_evm.Rpc.Request.{
  Method, method_of, RpcRequest, client_version, version, chain_number, head_number, syncing,
  listening, code_at, history, gas_price, max_priority_fee, balance_at, transaction_count,
  storage_at, send_transaction, transaction_by_hash, transaction_receipt, logs,
  block_by_hash_method, block_by_number_method, call, estimate_gas, trace_transaction_method,
  trace_call_method, faucet_method, supply_method, smt_proof_method,
}

module _ (m : Machine) (P : KanariNode m → Type 0) where
  -- A step that only checks keeps what holds of the node.
  lift_keeps :
      {A : Type 0} (r : NodeResult A) (f : A → Action (KanariNode m) Bytes) (n : KanariNode m)
      → P n
      → ((a : A) → P (f a n).1)
      → P ((lift r >>= f) n).1
  lift_keeps (ok a) f n here after = after a
  lift_keeps (err e) f n here after = here

  -- The faucet sends one transaction, or changes nothing.
  faucet_keeps :
      (w : Wallet) (now_secs : ℕ) (to : Bytes) (amount_wei : ℕ) (n : KanariNode m)
      → P n
      → ((raw : Bytes) → P (send_raw_transaction m now_secs raw n).1)
      → P (faucet m w now_secs to amount_wei n).1
  unfolding faucet
  faucet_keeps w now_secs to amount_wei n here sent =
      let fee = pending_base_fee m n in
      lift_keeps (check_amount m w amount_wei) _ n here λ _.
        lift_keeps (key_or m w n.faucet_key) _ n here λ secret.
          lift_keeps (or_error storage (w.from_bytes secret)) _ n here λ signer.
            lift_keeps (balance_of m n.db (w.address signer)) _ n here λ balance.
              lift_keeps (check_balance m w balance (amount_wei + gas_cost m w fee)) _ n here λ _.
                lift_keeps (nonce_of m n.db (w.address signer)) _ n here λ nonce.
                  lift_keeps
                    (or_error bad_signature
                      (w.sign signer (drip m w n.spec.chain_id nonce fee to amount_wei)))
                    _ n here sent

module _ (s : Services) where
  open s use {machine, wallet}

  module _ (P : KanariNode machine → Type 0) (now : ℕ) (n : KanariNode machine) (here : P n)
      (sent : (raw : Bytes) → P (send_raw_transaction machine now raw n).1) where
    acted :
        {A : Type 0} (params : Reply A) (act : A → Action (KanariNode machine) Bytes)
        → ((a : A) → P (act a n).1)
        → P (then_act s params act n).1
    acted (ok a) act after = after a
    acted (err e) act after = here

    run_method_keeps : (method : Method) (params : Value) → P (run_method s method now params n).1
    unfolding run_method send_raw kanari_faucet
    run_method_keeps send_transaction params =
        acted (raw_param s params) (send_raw_transaction machine now) sent
    run_method_keeps faucet_method params =
        acted (faucet_params s params) (λ p. faucet machine wallet now p.0 p.1)
          (λ p. faucet_keeps machine P wallet now p.0 p.1 n here sent)
    run_method_keeps client_version params = here
    run_method_keeps version params = here
    run_method_keeps chain_number params = here
    run_method_keeps head_number params = here
    run_method_keeps syncing params = here
    run_method_keeps listening params = here
    run_method_keeps code_at params = here
    run_method_keeps history params = here
    run_method_keeps gas_price params = here
    run_method_keeps max_priority_fee params = here
    run_method_keeps balance_at params = here
    run_method_keeps transaction_count params = here
    run_method_keeps storage_at params = here
    run_method_keeps transaction_by_hash params = here
    run_method_keeps transaction_receipt params = here
    run_method_keeps logs params = here
    run_method_keeps block_by_hash_method params = here
    run_method_keeps block_by_number_method params = here
    run_method_keeps call params = here
    run_method_keeps estimate_gas params = here
    run_method_keeps trace_transaction_method params = here
    run_method_keeps trace_call_method params = here
    run_method_keeps supply_method params = here
    run_method_keeps smt_proof_method params = here

    -- What holds of a node, and of it after any one transaction is sent, holds after a request.
    pub dispatch_keeps : (req : RpcRequest) → P (dispatch_inner s req now n).1
    unfolding dispatch_inner
    dispatch_keeps req = named (method_of req.method)
      where
        named : (method : Option Method) → P (run_named s req method now n).1
        named none = here
        named (some method) = run_method_keeps method req.params

  -- One step of a node that serves: a request in full, under the lock, or a committed transaction.
  -- The chain has room for one more block.
  pub data Step (n : KanariNode machine) : KanariNode machine → Type 0 where
    request :
        (req : RpcRequest) (now : ℕ)
        → length n.blocks + 1 < 2 ^ 64
        → Step n (dispatch_inner s req now n).1
    committed :
        (raw : Bytes) (timestamp : ℕ)
        → length n.blocks + 1 < 2 ^ 64
        → Step n (seal_committed machine raw timestamp n).1

  pub data Reach (n : KanariNode machine) : KanariNode machine → Type 0 where
    here : Reach n n
    next : {n' n'' : KanariNode machine} → Reach n n' → Step n' n'' → Reach n n''

  Step-IsValid : {n n' : KanariNode machine} → Step n n' → IsValid machine n → IsValid machine n'
  Step-IsValid {n} (request req now room) v =
      dispatch_keeps (IsValid machine) now n v
        (λ raw. send_raw_transaction-IsValid machine now raw n v room) req
  Step-IsValid {n} (committed raw timestamp room) v =
      seal_committed-IsValid machine raw timestamp n v room

  Step-Extends : {n n' : KanariNode machine} → Step n n' → Extends machine n n'
  Step-Extends {n} (request req now room) =
      dispatch_keeps (Extends machine n) now n (Extends-refl machine n)
        (λ raw. send_raw_transaction-Extends machine now raw n) req
  Step-Extends {n} (committed raw timestamp room) = seal_committed-Extends machine raw timestamp n

  -- Whatever requests and committed transactions a valid node serves, in any order and each with
  -- room for one more block number below 2^64, it stays valid and its chain is only extended.
  pub Reach-IsValid :
      {n n' : KanariNode machine}
      → Reach n n'
      → IsValid machine n
      → IsValid machine n' × Extends machine n n'
  Reach-IsValid {n} here v = (v, Extends-refl machine n)
  Reach-IsValid {n} {n'} (next {n' = mid_node} r step) v =
      let (mid, grown) = Reach-IsValid r v in
      (Step-IsValid step mid, Extends-trans machine n mid_node n' grown (Step-Extends step))
