-- ===== src/Samples/Machines.antt =====
-- An execution environment in memory. A raw transaction is its nonce and its input; the
-- interpreter runs it where the nonce is the sender's next, and the hash of bytes is the bytes.
use Prim.Native.String.{String}
use kanari_evm.Prelude.{
  ℕ, ◌+◌, ◌≡◌, refl, sym, ◌∙◌, ap, Option, none, some, List, [], ◌∷◌, Bytes, Result, ok, err,
  bytes_eq, ◌==◌, if◌then◌else◌, arith, length,
}
use kanari_evm.Storage.Engine.{after_put, last_put}
use kanari_evm.Samples.Stores.{Memory, memory, written}
use kanari_evm.Execution.Tx.{TxEnvelope, TxEnv, eip1559, call}
use kanari_evm.Execution.Machine.{
  Machine, AccountInfo, Output, ExecutionResult, success, KanariEvmParams, CachedAccount,
  IsChainKey,
}

abbrev pub Accounts : Type 0
Accounts = List CachedAccount

abbrev pub new_account : Bytes → CachedAccount
new_account address = record {
  address = address;
  info = record { balance = 0; nonce = 0; code_hash = []; code = none };
  slots = [];
}

abbrev pub find_account : Accounts → Bytes → Option AccountInfo
find_account [] address = none
find_account (a ∷ accounts) address =
    if bytes_eq a.address address then some a.info else find_account accounts address

-- The account with the address is changed, or a new one is.
abbrev pub change : (CachedAccount → CachedAccount) → Accounts → Bytes → Accounts
change f [] address = f (new_account address) ∷ []
change f (a ∷ accounts) address =
    let rest = change f accounts address in
    if bytes_eq a.address address then f a ∷ accounts else a ∷ rest

abbrev pub put_info : Accounts → Bytes → AccountInfo → Accounts
put_info accounts address info = change (λ a. record a { info = info }) accounts address

abbrev pub put_slot : Accounts → Bytes → ℕ → ℕ → Accounts
put_slot accounts address slot value =
    change (λ a. record a { slots = (slot, value) ∷ a.slots }) accounts address

abbrev pub nonce_or_zero : Option AccountInfo → ℕ
nonce_or_zero none = 0
nonce_or_zero (some info) = info.nonce

abbrev pub bump : CachedAccount → CachedAccount
bump a = record a { info = record a.info { nonce = a.info.nonce + 1 } }

abbrev pub run : Accounts → KanariEvmParams → TxEnv → Result String (ExecutionResult × Accounts)
run accounts params tx =
    if nonce_or_zero (find_account accounts tx.caller) == tx.nonce
    then ok (success 21000 (Output.call []) [], change bump accounts tx.caller)
    else err "nonce"

abbrev pub read_tx : Bytes → Result String TxEnvelope
read_tx [] = err "empty"
read_tx (nonce ∷ input) = ok (
    eip1559 (record {
      chain_id = 1;
      nonce = nonce;
      gas_limit = 21000;
      max_fee_per_gas = 2_000_000_000;
      max_priority_fee_per_gas = 0;
      to = call [];
      value = 0;
      input = input;
      access_list = [];
    }))

abbrev pub root_key : Bytes
root_key = b'd' ∷ []

abbrev pub rebuilt : Memory → List (Bytes × Bytes) → Memory
rebuilt db entries = written db ((root_key, length entries ∷ []) ∷ [])

abbrev pub root_of : Option Bytes → Bytes
root_of none = []
root_of (some root) = root

not_root : (root key : Bytes) → IsChainKey key → last_put ((root_key, root) ∷ []) key ≡ none
unfolding last_put bytes_eq
not_root root [] h = refl
not_root root (c ∷ key) h = ground (arith, h.1)

pub read-rebuilt :
    (db db' : Memory) (entries : List (Bytes × Bytes)) (key : Bytes)
    → ◌≡◌ {A = Result String Memory} (ok (rebuilt db entries)) (ok db')
    → IsChainKey key
    → ◌≡◌ {A = Result String (Option Bytes)} (ok (db' key)) (ok (db key))
read-rebuilt db db' entries key h k =
    let e : rebuilt db entries ≡ db' = cc h in
    ap (λ (d : Memory). ok (d key)) (sym e)
    ∙ ap (λ (o : Option Bytes). ok (after_put o (λ v. v) (db key)))
        (not_root (length entries ∷ []) key k)

abbrev pub sample : Machine
sample = record {
  engine = memory;
  keccak256 = λ bytes. bytes;
  keccak_empty = [];
  blake3 = λ bytes. bytes;
  hash_slow = λ bytes. bytes;
  decode_2718_exact = read_tx;
  recover_signer = λ tx. ok (9 ∷ []);
  State = Accounts;
  empty_state = [];
  basic = λ accounts address. ok (find_account accounts address);
  insert_account_info = put_info;
  insert_account_storage = put_slot;
  cached_accounts = λ accounts. accounts;
  transact = run;
  rebuild = λ db entries. ok (rebuilt db entries);
  root_hash = λ db. ok (root_of (db root_key));
  get-rebuild = read-rebuilt;
}
