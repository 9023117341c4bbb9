-- ===== src/Rpc/Params.antt =====
-- The parameters of a request, as `crates/server_rpc/src/rpc.rs` parses them. A conversion that
-- panics is an error of its own.
pub mod Ranges
use Prim.Native.String.{String}
use kanari_evm.Prelude.{
  ℕ, ◌+◌, min, max, Bool, true, false, ◌||◌, Option, none, some, List, [], ◌∷◌, Bytes, bytes_eq,
  Result, ok, err, ◌>>=◌, ok_or, ltb, if◌then◌else◌,
}
use kanari_evm.Types.Word.{u64_max, u128_max}
use kanari_evm.Types.Text.{Text, trim_0x, from_str_radix16}
use kanari_evm.Storage.Keys.{codes}
use kanari_evm.Storage.Records.{SealedBlock}
use kanari_evm.Json.{
  Value, null, boolean, number, string, array, object, Fields, get, present, as_str, as_array,
  to_list,
}
use kanari_evm.Execution.Machine.{Machine}
use kanari_evm.Execution.Node.{KanariNode, block_by_hash}
use kanari_evm.Execution.Call.{CallRequest}
use kanari_evm.Rpc.Forms.{Forms}

pub data ParamError : Type 0 where
  invalid : String → ParamError
  panicked : ParamError

abbrev pub Parsed : Type 0 → Type 0
Parsed = Result ParamError

-- A text in the form that `parse` reads, and otherwise the message.
abbrev pub text_form : {A : Type 0} → String → (Text → Option A) → Option Text → Parsed A
text_form message parse none = err (invalid message)
text_form message parse (some s) = ok_or (invalid message) (parse s)

-- The digits of a quantity behind its prefix.
abbrev pub quantity_form : {A : Type 0} → (Text → Option A) → Option Text → Parsed A
quantity_form parse none = err (invalid "want 0x quantity")
quantity_form parse (some s) = ok_or (invalid "invalid 0x quantity") (parse (trim_0x s))

unfoldable pub parse_u64 : Value → Parsed ℕ
parse_u64 v = quantity_form (from_str_radix16 u64_max) (as_str v)

-- `collect` of results: the first error, or all values.
unfoldable pub collect : {A B : Type 0} → (A → Parsed B) → List A → Parsed (List B)
collect parse [] = ok []
collect parse (v ∷ values) = do x ← parse v; xs ← collect parse values; ok (x ∷ xs)

abbrev pub parse_some : {A : Type 0} → (Value → Parsed A) → Option Value → Parsed (Option A)
parse_some parse none = ok none
parse_some parse (some v) = do a ← parse v; ok (some a)

unfoldable pub take_parsed : {A : Type 0} → Fields → String → (Value → Parsed A) → Parsed (Option A)
take_parsed obj key parse = parse_some parse (present (get (codes key) obj))

module _ (forms : Forms) where
  open forms use {parse_b256, u256_from_str_radix16}

  unfoldable pub parse_address : Value → Parsed Bytes
  parse_address v = text_form "invalid address (want 0x-hex)" forms.parse_address (as_str v)

  unfoldable pub parse_hash : Value → Parsed Bytes
  parse_hash v = text_form "invalid hash (want 0x-hex)" parse_b256 (as_str v)

  unfoldable pub parse_bytes : Value → Parsed Bytes
  parse_bytes v = text_form "invalid bytes (want 0x-hex)" forms.parse_bytes (as_str v)

  unfoldable pub parse_u256 : Value → Parsed ℕ
  parse_u256 v = quantity_form u256_from_str_radix16 (as_str v)

  -- `to::<u128>`, which panics on a larger value.
  abbrev pub to_u128 : ℕ → Parsed ℕ
  to_u128 n = if ltb u128_max n then err panicked else ok n

  unfoldable pub parse_gas_price : Value → Parsed ℕ
  unfolding parse_u256
  parse_gas_price v = do u ← parse_u256 v; to_u128 u

  -- One value or an array of them.
  abbrev pub one_or_many : (Value → Parsed Bytes) → Value → Parsed (Option (List Bytes))
  one_or_many parse null = do a ← parse null; ok (some (a ∷ []))
  one_or_many parse (boolean b) = do a ← parse (boolean b); ok (some (a ∷ []))
  one_or_many parse (number n) = do a ← parse (number n); ok (some (a ∷ []))
  one_or_many parse (string t) = do a ← parse (string t); ok (some (a ∷ []))
  one_or_many parse (object fields) = do a ← parse (object fields); ok (some (a ∷ []))
  one_or_many parse (array items) = do all ← collect parse (to_list items); ok (some all)

  abbrev pub addresses_of : Option Value → Parsed (Option (List Bytes))
  addresses_of none = ok none
  addresses_of (some v) = one_or_many parse_address v

  unfoldable pub log_addresses : Fields → Parsed (Option (List Bytes))
  unfolding parse_address
  log_addresses filter = addresses_of (present (get (codes "address") filter))

  -- `null` is a wildcard.
  abbrev pub topic_slot : Value → Parsed (Option (List Bytes))
  topic_slot null = ok none
  topic_slot (boolean b) = one_or_many parse_hash (boolean b)
  topic_slot (number n) = one_or_many parse_hash (number n)
  topic_slot (string t) = one_or_many parse_hash (string t)
  topic_slot (array items) = one_or_many parse_hash (array items)
  topic_slot (object fields) = one_or_many parse_hash (object fields)

  abbrev pub topics_of : Option Value → Parsed (List (Option (List Bytes)))
  topics_of none = ok []
  topics_of (some v) = do
    entries ← ok_or (invalid "topics must be an array") (as_array v)
    collect topic_slot entries

  unfoldable pub log_topics : Fields → Parsed (List (Option (List Bytes)))
  unfolding parse_hash collect
  log_topics filter = topics_of (get (codes "topics") filter)

  -- `input` stands for `data` where there is no `data`; a `null` is no byte string.
  abbrev pub call_data : Option Value → Option Value → Parsed (Option Bytes)
  call_data (some v) _ = do bytes ← parse_bytes v; ok (some bytes)
  call_data none (some v) = do bytes ← parse_bytes v; ok (some bytes)
  call_data none none = ok none

  -- The fields are parsed in the order of the code, and the first error is the answer.
  unfoldable pub call_request_from_json : Fields → Parsed CallRequest
  unfolding take_parsed parse_address parse_bytes parse_u256 parse_u64 parse_gas_price
  call_request_from_json obj = do
    bytes ← call_data (get (codes "data") obj) (get (codes "input") obj)
    sender ← take_parsed obj "from" parse_address
    to ← take_parsed obj "to" parse_address
    value ← take_parsed obj "value" parse_u256
    gas ← take_parsed obj "gas" parse_u64
    gas_price ← take_parsed obj "gasPrice" parse_gas_price
    nonce ← take_parsed obj "nonce" parse_u64
    ok (record {
      sender = sender;
      to = to;
      data_bytes = bytes;
      value = value;
      gas = gas;
      gas_price = gas_price;
      nonce = nonce;
    })

  -- `latest`, `pending` and `earliest` are texts; every other value is a quantity.
  abbrev pub bound_text : ℕ → Text → Parsed ℕ
  bound_text latest s =
      if bytes_eq s (codes "latest") || bytes_eq s (codes "pending")
      then ok latest
      else if bytes_eq s (codes "earliest")
      then ok 0
      else parse_u64 (string s)

  abbrev pub bound_value : ℕ → Option Value → Parsed ℕ
  bound_value latest none = ok latest
  bound_value latest (some (string s)) = bound_text latest s
  bound_value latest (some null) = parse_u64 null
  bound_value latest (some (boolean b)) = parse_u64 (boolean b)
  bound_value latest (some (number n)) = parse_u64 (number n)
  bound_value latest (some (array items)) = parse_u64 (array items)
  bound_value latest (some (object fields)) = parse_u64 (object fields)

  module _ (m : Machine) where
    abbrev pub pinned_range : Option SealedBlock → Parsed (ℕ × ℕ)
    pinned_range none = err (invalid "unknown blockHash")
    pinned_range (some b) = ok (b.number, b.number)

    -- With a block hash both ends are that block and the bounds are not read.
    abbrev pub range_from :
        ℕ → KanariNode m → Option Value → Option Value → Option Value → Parsed (ℕ × ℕ)
    range_from latest node (some v) from_v to_v = do
      hash ← parse_hash v
      pinned_range (block_by_hash m node hash)
    range_from latest node none from_v to_v = do
      from ← bound_value latest from_v
      to ← bound_value latest to_v
      ok (min from to, min (max to from) latest)

    unfoldable pub log_range_from_json : Fields → ℕ → KanariNode m → Parsed (ℕ × ℕ)
    unfolding parse_hash parse_u64
    log_range_from_json filter latest node =
        range_from latest node (present (get (codes "blockHash") filter))
          (present (get (codes "fromBlock") filter)) (present (get (codes "toBlock") filter))
