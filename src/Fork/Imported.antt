-- ===== src/Fork/Imported.antt =====
-- What a fetched genesis holds, from what the remote node has answered.
use Prim.Native.String.{String}
use kanari_evm.Prelude.{
  ℕ, ◌+◌, ◌*◌, ◌≡◌, refl, ap, subst, Option, none, some, List, [], ◌∷◌, Bytes, Result, ok, err,
  arith, >>=-eq-ok, ok_injective, ok_or, Option-cases, inl, inr, length,
}
use kanari_evm.Types.Word.{u64_max}
use kanari_evm.Types.Text.{Text, lower_hex, trim_0x, from_str_radix16}
use kanari_evm.Json.{Value, string, as_str}
use kanari_evm.Rpc.Forms.{Forms}
use kanari_evm.Fork.{
  ForkError, ForkResult, remote_failed, no_result, SlotRef, ForkedGenesis, bad_code, want_hex,
  check_block, rpc_call, member, posted, request_body, hex_quantity, parse_hex_u64, parse_hex_u256,
  add_code, account_requests, fetch_accounts, fetch_slots, fetch_fork_genesis,
}

account_requests-eq : (accounts : List Bytes) → account_requests accounts ≡ 2 * length accounts
account_requests-eq [] = refl
account_requests-eq (a ∷ accounts) = omega (arith, account_requests-eq accounts)

ok_or-eq-ok : {A : Type 0} (e : ForkError) (o : Option A) {a : A} → ok_or e o ≡ ok a → o ≡ some a
ok_or-eq-ok e none h = cc h
ok_or-eq-ok e (some a) h = ap some (ok_injective h)

no_error :
    (method : String) (failure found : Option Value) {v : Value}
    → ◌≡◌ {A = ForkResult Value}
        (elim failure [
          | some e ↦ err (remote_failed method)
          | none ↦ ok_or (no_result method) found
        ])
        (ok v)
    → (failure ≡ none) × (found ≡ some v)
no_error method none found h = (refl, ok_or-eq-ok (no_result method) found h)
no_error method (some e) found h = cc h

-- A quantity in hex, as this parser of digits reads it.
abbrev pub Quantity : (Text → Option ℕ) → Value → ℕ → Type 0
Quantity parse v n = (s : Text) × (as_str v ≡ some s) × (parse (trim_0x s) ≡ some n)

hex_quantity-eq-ok :
    (parse : Text → Option ℕ) (v : Value) {n : ℕ}
    → hex_quantity parse (as_str v) ≡ ok n
    → Quantity parse v n
hex_quantity-eq-ok parse v h = elim (Option-cases (as_str v)) [
  | inl e ↦ cc (rw e at h)
  | inr (s, e) ↦ (s, e, ok_or-eq-ok _ (parse (trim_0x s)) (rw e at h))
]

module _ (forms : Forms) (post : ℕ → Value → Result String Value) (block : Text) where
  -- The `i`-th request is this one, and was answered with this result and no error.
  abbrev pub Answered : ℕ → String → List Value → Value → Type 0
  Answered i method params v =
      (response : Value) × (post i (request_body method params) ≡ ok response)
      × (member "error" response ≡ none)
      × (member "result" response ≡ some v)

  abbrev of_account : Bytes → List Value
  of_account address = string (forms.address_text address) ∷ string block ∷ []

  abbrev pub HasBalance : ℕ → Bytes → ℕ → Type 0
  HasBalance i address balance =
      (v : Value) × Answered i "eth_getBalance" (of_account address) v
      × Quantity forms.u256_from_str_radix16 v balance

  abbrev pub HasCode : ℕ → Bytes → Bytes → Type 0
  HasCode i address bytes =
      (v : Value) × (s : Text) × Answered i "eth_getCode" (of_account address) v
      × (as_str v ≡ some s)
      × (forms.parse_bytes s ≡ some bytes)

  abbrev of_slot : SlotRef → List Value
  of_slot ref =
      string (forms.address_text ref.address)
      ∷ string (b'0' ∷ b'x' ∷ lower_hex 64 ref.slot)
      ∷ string block
      ∷ []

  abbrev pub HasValue : ℕ → SlotRef → ℕ → Type 0
  HasValue i ref value =
      (v : Value) × Answered i "eth_getStorageAt" (of_slot ref) v
      × Quantity forms.u256_from_str_radix16 v value

  -- The balances and the codes of accounts, of which the first is asked for from the `i`-th request
  -- on: an account without code has none.
  pub data Accounts : ℕ → List Bytes → List (Bytes × ℕ) → List (Bytes × Bytes) → Type 0 where
    no_more : {i : ℕ} → Accounts i [] [] []
    plain :
        {i : ℕ} {a : Bytes} {balance : ℕ} {accounts : List Bytes} {alloc : List (Bytes × ℕ)}
        {code : List (Bytes × Bytes)}
        → HasBalance i a balance
        → HasCode (i + 1) a []
        → Accounts (i + 2) accounts alloc code
        → Accounts i (a ∷ accounts) ((a, balance) ∷ alloc) code
    contract :
        {i : ℕ} {a : Bytes} {balance b : ℕ} {bytes : Bytes} {accounts : List Bytes}
        {alloc : List (Bytes × ℕ)} {code : List (Bytes × Bytes)}
        → HasBalance i a balance
        → HasCode (i + 1) a (b ∷ bytes)
        → Accounts (i + 2) accounts alloc code
        → Accounts i (a ∷ accounts) ((a, balance) ∷ alloc) ((a, b ∷ bytes) ∷ code)

  pub data Storage : ℕ → List SlotRef → List (Bytes × ℕ × ℕ) → Type 0 where
    no_slots : {i : ℕ} → Storage i [] []
    slot :
        {i : ℕ} {ref : SlotRef} {value : ℕ} {slots : List SlotRef} {storage : List (Bytes × ℕ × ℕ)}
        → HasValue i ref value
        → Storage (i + 1) slots storage
        → Storage i (ref ∷ slots) ((ref.address, ref.slot, value) ∷ storage)

  pub record Imports (accounts : List Bytes) (slots : List SlotRef) (g : ForkedGenesis)
      : Type 0 where
    pub chain :
        (v : Value) × Answered 0 "eth_chainId" [] v
        × Quantity (from_str_radix16 u64_max) v g.chain_id
    pub accounts_are : Accounts 1 accounts g.alloc g.code
    pub slots_are : Storage (1 + 2 * length accounts) slots g.storage

  posted-eq-ok : (r : Result String Value) {v : Value} → posted forms post r ≡ ok v → r ≡ ok v
  posted-eq-ok (ok v) h = ap ok (ok_injective h)
  posted-eq-ok (err e) h = cc h

  rpc_call-eq-ok :
      (i : ℕ) (method : String) (params : List Value) {v : Value}
      → rpc_call forms post i method params ≡ ok v
      → Answered i method params v
  unfolding rpc_call
  rpc_call-eq-ok i method params h =
      let (response, p, h1) =
        >>=-eq-ok (posted forms post (post i (request_body method params))) _ h in
      let answered = posted-eq-ok (post i (request_body method params)) p in
      let (fine, found) = no_error method (member "error" response) (member "result" response) h1 in
      (response, answered, fine, found)

  add_code-Accounts :
      {i : ℕ} {a : Bytes} {balance : ℕ} (bytes : Bytes) {accounts : List Bytes}
      {alloc : List (Bytes × ℕ)} {code : List (Bytes × Bytes)}
      → HasBalance i a balance
      → HasCode (i + 1) a bytes
      → Accounts (i + 2) accounts alloc code
      → Accounts i (a ∷ accounts) ((a, balance) ∷ alloc) (add_code a bytes code)
  add_code-Accounts [] b c rest = plain b c rest
  add_code-Accounts (x ∷ bytes) b c rest = contract b c rest

  fetch_accounts-eq-ok :
      (i : ℕ) (accounts : List Bytes) (fetched : List (Bytes × ℕ) × List (Bytes × Bytes))
      → fetch_accounts forms post block i accounts ≡ ok fetched
      → Accounts i accounts fetched.0 fetched.1
  unfolding fetch_accounts parse_hex_u256
  fetch_accounts-eq-ok i [] fetched h = subst (λ f. Accounts i [] f.0 f.1) (ok_injective h) no_more
  fetch_accounts-eq-ok i (a ∷ accounts) fetched h =
      let (balance_v, e1, h1) =
        >>=-eq-ok (rpc_call forms post i "eth_getBalance" (of_account a)) _ h in
      let (balance, e2, h2) = >>=-eq-ok (parse_hex_u256 forms balance_v) _ h1 in
      let (code_v, e3, h3) =
        >>=-eq-ok (rpc_call forms post (i + 1) "eth_getCode" (of_account a)) _ h2 in
      let (code_hex, e4, h4) = >>=-eq-ok (ok_or want_hex (as_str code_v)) _ h3 in
      let (bytes, e5, h5) =
        >>=-eq-ok (ok_or (bad_code (forms.address_text a)) (forms.parse_bytes code_hex)) _ h4 in
      let (rest, e6, h6) = >>=-eq-ok (fetch_accounts forms post block (i + 2) accounts) _ h5 in
      let has_balance : HasBalance i a balance = (
        balance_v,
        rpc_call-eq-ok i "eth_getBalance" (of_account a) e1,
        hex_quantity-eq-ok forms.u256_from_str_radix16 balance_v e2,
      ) in
      let has_code : HasCode (i + 1) a bytes = (
        code_v,
        code_hex,
        rpc_call-eq-ok (i + 1) "eth_getCode" (of_account a) e3,
        ok_or-eq-ok want_hex (as_str code_v) e4,
        ok_or-eq-ok _ (forms.parse_bytes code_hex) e5,
      ) in
      subst (λ f. Accounts i (a ∷ accounts) f.0 f.1) (ok_injective h6)
        (add_code-Accounts bytes has_balance has_code
          (fetch_accounts-eq-ok (i + 2) accounts rest e6))

  fetch_slots-eq-ok :
      (i : ℕ) (slots : List SlotRef) (storage : List (Bytes × ℕ × ℕ))
      → fetch_slots forms post block i slots ≡ ok storage
      → Storage i slots storage
  unfolding fetch_slots parse_hex_u256
  fetch_slots-eq-ok i [] storage h = subst (Storage i []) (ok_injective h) no_slots
  fetch_slots-eq-ok i (s ∷ slots) storage h =
      let (value_v, e1, h1) =
        >>=-eq-ok (rpc_call forms post i "eth_getStorageAt" (of_slot s)) _ h in
      let (value, e2, h2) = >>=-eq-ok (parse_hex_u256 forms value_v) _ h1 in
      let (rest, e3, h3) = >>=-eq-ok (fetch_slots forms post block (i + 1) slots) _ h2 in
      let has_value : HasValue i s value = (
        value_v,
        rpc_call-eq-ok i "eth_getStorageAt" (of_slot s) e1,
        hex_quantity-eq-ok forms.u256_from_str_radix16 value_v e2,
      ) in
      subst (Storage i (s ∷ slots)) (ok_injective h3)
        (slot has_value (fetch_slots-eq-ok (i + 1) slots rest e3))

  -- A fetch that succeeds holds what the remote node has answered to its requests, one after the
  -- other: the chain id, then the balance and the code of each listed account, in their order, and
  -- then the value of each listed slot, in theirs. Exactly the accounts with code have an entry
  -- among the codes.
  pub fetch_fork_genesis-Imports :
      (accounts : List Bytes) (slots : List SlotRef) (g : ForkedGenesis)
      → fetch_fork_genesis forms post block accounts slots ≡ ok g
      → Imports accounts slots g
  unfolding fetch_fork_genesis parse_hex_u64
  fetch_fork_genesis-Imports accounts slots g h =
      let (u, e0, h0) = >>=-eq-ok (check_block block) _ h in
      let (chain_v, e1, h1) = >>=-eq-ok (rpc_call forms post 0 "eth_chainId" []) _ h0 in
      let (chain_id, e2, h2) = >>=-eq-ok (parse_hex_u64 chain_v) _ h1 in
      let (fetched, e3, h3) = >>=-eq-ok (fetch_accounts forms post block 1 accounts) _ h2 in
      let (storage, e4, h4) =
        >>=-eq-ok (fetch_slots forms post block (1 + account_requests accounts) slots) _ h3 in
      let count : 1 + account_requests accounts ≡ 1 + 2 * length accounts =
        ap (λ k. 1 + k) (account_requests-eq accounts) in
      subst (Imports accounts slots) (ok_injective h4) (record {
        chain = (
          chain_v,
          rpc_call-eq-ok 0 "eth_chainId" [] e1,
          hex_quantity-eq-ok (from_str_radix16 u64_max) chain_v e2,
        );
        accounts_are = fetch_accounts-eq-ok 1 accounts fetched e3;
        slots_are =
            subst (λ k. Storage k slots storage) count
              (fetch_slots-eq-ok (1 + account_requests accounts) slots storage e4);
      })
