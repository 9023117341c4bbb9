-- ===== src/Fork/Tests.antt =====
-- A fork of one account with code from a remote that answers every call alike.
use Prim.Native.String.{String}
use kanari_evm.Prelude.{ℕ, ◌≡◌, refl, [], ◌∷◌, List, Result, ok, bytes_eq}
use kanari_evm.Types.Text.{trim_0x, from_str_radix16, digits_value, to_digit}
use kanari_evm.Storage.Keys.{codes}
use kanari_evm.Json.{Value, object, field, end, lit, get}
use kanari_evm.Fork.{
  SlotRef, ForkedGenesis, fetch_fork_genesis, fetch_accounts, fetch_slots, rpc_call, check_block,
  parse_hex_u64, parse_hex_u256,
}
use kanari_evm.Fork.Imported.{Imports, fetch_fork_genesis-Imports}
use kanari_evm.Samples.Servers.{plain_forms}

abbrev remote : ℕ → Value → Result String Value
remote i body = ok (object (field (codes "result") (lit "0x10") end))

abbrev wanted : List SlotRef
wanted = record { address = 5 ∷ []; slot = 3 } ∷ []

fetching :
    (g : ForkedGenesis) × (fetch_fork_genesis plain_forms remote
        (codes "latest")
        ((5 ∷ []) ∷ [])
        wanted
      ≡ ok g)
unfolding fetch_fork_genesis fetch_accounts fetch_slots rpc_call check_block parse_hex_u64
    parse_hex_u256 get bytes_eq trim_0x from_str_radix16 digits_value to_digit
fetching = (_, refl)

fetch_fork_genesis-Imports_example :
    Imports plain_forms remote (codes "latest") ((5 ∷ []) ∷ []) wanted fetching.0
fetch_fork_genesis-Imports_example =
    fetch_fork_genesis-Imports plain_forms remote (codes "latest") ((5 ∷ []) ∷ []) wanted fetching.0
      fetching.1
