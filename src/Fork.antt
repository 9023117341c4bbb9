-- ===== src/Fork.antt =====
-- `crates/kanari-node/src/fork.rs`: the state of listed accounts is fetched from a remote node into
-- genesis shapes. The HTTP client is a parameter: what it gives for the i-th request body.
pub mod Imported
pub mod Slots
mod Tests
use Prim.Native.String.{String}
use kanari_evm.Prelude.{
  ℕ, ◌+◌, Bool, true, false, not, ◌&&◌, ◌||◌, Option, none, some, List, [], ◌∷◌, Bytes, bytes_eq,
  Result, ok, err, ◌>>=◌, ◌>>◌, ok_or, is_empty, if◌then◌else◌, ◌==◌,
}
use kanari_evm.Types.Word.{u64_max}
use kanari_evm.Types.Text.{Text, trim, trim_0x, from_str_radix16, lower_hex}
use kanari_evm.Storage.Keys.{codes}
use kanari_evm.Json.{
  Value, number, unsigned, string, array, object, Items, nil, cons, Fields, field, end, get, lit,
  as_str, as_object,
}
use kanari_evm.Rpc.Forms.{Forms}

pub data ForkError : Type 0 where
  no_colon bad_address bad_slot bad_block bad_code : Text → ForkError
  unreachable remote_failed no_result : String → ForkError
  want_quantity invalid_quantity want_hex : ForkError

abbrev pub ForkResult : Type 0 → Type 0
ForkResult = Result ForkError

pub record SlotRef : Type 0 where
  pub address : Bytes
  pub slot : ℕ

-- `split_once(':')`: the texts before and after the first colon.
unfoldable pub split_once : Text → Option (Text × Text)
split_once [] = none
split_once (c ∷ s) =
    let rest = split_once s in
    if c == b':'
    then some ([], s)
    else elim rest [ none ↦ none | some (before, after) ↦ some (c ∷ before, after) ]

pub record ForkedGenesis : Type 0 where
  pub chain_id : ℕ
  pub alloc : List (Bytes × ℕ)
  pub code : List (Bytes × Bytes)
  pub storage : List (Bytes × ℕ × ℕ)

-- The body of a request to the remote node.
abbrev pub request_body : String → List Value → Value
request_body method params = object (
    field (codes "jsonrpc") (lit "2.0") (
      field (codes "id") (number (unsigned 1)) (
        field (codes "method") (lit method)
          (field (codes "params") (array (list_items params)) end))))
  where
    list_items : List Value → Items
    list_items [] = nil
    list_items (v ∷ values) = cons v (list_items values)

-- A field of what may be no object.
abbrev pub member : String → Value → Option Value
member key v = elim (as_object v) [ none ↦ none | some fields ↦ get (codes key) fields ]

abbrev pub response_value : String → Value → ForkResult Value
response_value method response = elim (member "error" response) [
  | some e ↦ err (remote_failed method)
  | none ↦ ok_or (no_result method) (member "result" response)
]

-- A quantity of a remote response.
abbrev pub hex_quantity : (Text → Option ℕ) → Option Text → ForkResult ℕ
hex_quantity parse none = err want_quantity
hex_quantity parse (some s) = ok_or invalid_quantity (parse (trim_0x s))

unfoldable pub parse_hex_u64 : Value → ForkResult ℕ
parse_hex_u64 v = hex_quantity (from_str_radix16 u64_max) (as_str v)

abbrev starts_with_0x : Text → Bool
starts_with_0x [] = false
starts_with_0x (c ∷ []) = false
starts_with_0x (c ∷ d ∷ s) = c == b'0' && d == b'x'

abbrev is_ok : {A : Type 0} → ForkResult A → Bool
is_ok (ok a) = true
is_ok (err e) = false

-- `latest`, or a block number in hex.
unfoldable pub check_block : Text → ForkResult (Unit {0})
unfolding parse_hex_u64
check_block block =
    if bytes_eq block (codes "latest")
      || (starts_with_0x block && is_ok (parse_hex_u64 (string block)))
    then ok tt
    else err (bad_block block)

-- An account without code has no entry.
abbrev pub add_code : Bytes → Bytes → List (Bytes × Bytes) → List (Bytes × Bytes)
add_code address [] code = code
add_code address (b ∷ bytes) code = (address, b ∷ bytes) ∷ code

-- The requests of the loop over the accounts.
abbrev pub account_requests : List Bytes → ℕ
account_requests [] = 0
account_requests (addr ∷ accounts) = 2 + account_requests accounts

module _ (forms : Forms) where
  open forms use {parse_address, parse_bytes, address_text, u256_from_str_radix16}

  abbrev slot_of : Text → Option (Text × Text) → ForkResult SlotRef
  slot_of s none = err (no_colon s)
  slot_of s (some (addr, slot)) = do
    address ← ok_or (bad_address addr) (parse_address (trim addr))
    value ← ok_or (bad_slot slot) (u256_from_str_radix16 (trim_0x (trim slot)))
    ok (record { address = address; slot = value })

  unfoldable pub parse_slot : Text → ForkResult SlotRef
  unfolding split_once
  parse_slot s = slot_of s (split_once s)

  unfoldable pub parse_hex_u256 : Value → ForkResult ℕ
  parse_hex_u256 v = hex_quantity u256_from_str_radix16 (as_str v)

  module _ (post : ℕ → Value → Result String Value) where
    abbrev posted : Result String Value → ForkResult Value
    posted (ok v) = ok v
    posted (err e) = err (unreachable e)

    unfoldable pub rpc_call : ℕ → String → List Value → ForkResult Value
    rpc_call i method params = do
      response ← posted (post i (request_body method params))
      response_value method response

    -- The accounts from the `i`-th request on, two requests for each.
    unfoldable pub fetch_accounts :
        Text → ℕ → List Bytes → ForkResult (List (Bytes × ℕ) × List (Bytes × Bytes))
    unfolding rpc_call parse_hex_u256
    fetch_accounts block i [] = ok ([], [])
    fetch_accounts block i (addr ∷ accounts) = do
      balance_v ← rpc_call i "eth_getBalance" (string (address_text addr) ∷ string block ∷ [])
      balance ← parse_hex_u256 balance_v
      code_v ← rpc_call (i + 1) "eth_getCode" (string (address_text addr) ∷ string block ∷ [])
      code_hex ← ok_or want_hex (as_str code_v)
      bytes ← ok_or (bad_code (address_text addr)) (parse_bytes code_hex)
      rest ← fetch_accounts block (i + 2) accounts
      ok ((addr, balance) ∷ rest.0, add_code addr bytes rest.1)

    unfoldable pub fetch_slots : Text → ℕ → List SlotRef → ForkResult (List (Bytes × ℕ × ℕ))
    unfolding rpc_call parse_hex_u256
    fetch_slots block i [] = ok []
    fetch_slots block i (s ∷ slots) = do
      value_v ← rpc_call i "eth_getStorageAt" (
          string (address_text s.address)
          ∷ string (b'0' ∷ b'x' ∷ lower_hex 64 s.slot)
          ∷ string block
          ∷ [])
      value ← parse_hex_u256 value_v
      rest ← fetch_slots block (i + 1) slots
      ok ((s.address, s.slot, value) ∷ rest)

    unfoldable pub fetch_fork_genesis : Text → List Bytes → List SlotRef → ForkResult ForkedGenesis
    unfolding check_block fetch_accounts fetch_slots
    fetch_fork_genesis block accounts slots = do
      check_block block
      chain_v ← rpc_call 0 "eth_chainId" []
      chain_id ← parse_hex_u64 chain_v
      fetched ← fetch_accounts block 1 accounts
      storage ← fetch_slots block (1 + account_requests accounts) slots
      ok (record { chain_id = chain_id; alloc = fetched.0; code = fetched.1; storage = storage })
