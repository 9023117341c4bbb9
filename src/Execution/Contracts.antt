-- ===== src/Execution/Contracts.antt =====
-- The demo contract of `crates/move-execution/src/contracts.rs`: its call data and its init code.
-- An assertion that fails is `none`.
pub mod Evm
pub mod Layout
mod Tests
use kanari_evm.Prelude.{
  ℕ, ◌%◌, ◌&&◌, not, Option, none, some, [], ◌∷◌, ◌++◌, Bytes, length, leb, if◌then◌else◌, is_empty,
  to_be_bytes,
}

abbrev pub simple_storage_set_selector : Bytes
simple_storage_set_selector = 0x60 ∷ 0xfe ∷ 0x47 ∷ 0xb1 ∷ []

abbrev pub simple_storage_get_selector : Bytes
simple_storage_get_selector = 0x6d ∷ 0x4c ∷ 0xe6 ∷ 0x3c ∷ []

-- The dispatcher, `set` at 0x2a and `get` at 0x33.
abbrev pub simple_storage_runtime : Bytes
simple_storage_runtime =
    0x60 ∷ 0x00 ∷ 0x35 ∷ 0x60 ∷ 0xe0 ∷ 0x1c ∷ 0x80 ∷ 0x63 ∷ 0x60 ∷ 0xfe ∷ 0x47 ∷ 0xb1 ∷ 0x14 ∷ 0x60
    ∷ 0x2a ∷ 0x57 ∷ 0x63 ∷ 0x6d ∷ 0x4c ∷ 0xe6 ∷ 0x3c ∷ 0x14 ∷ 0x60 ∷ 0x33 ∷ 0x57 ∷ 0x60 ∷ 0x00
    ∷ 0x80 ∷ 0xfd ∷ 0x00 ∷ 0x00 ∷ 0x00 ∷ 0x00 ∷ 0x00 ∷ 0x00 ∷ 0x00 ∷ 0x00 ∷ 0x00 ∷ 0x00 ∷ 0x00
    ∷ 0x00 ∷ 0x00 ∷ 0x5b ∷ 0x60 ∷ 0x04 ∷ 0x35 ∷ 0x60 ∷ 0x00 ∷ 0x55 ∷ 0x00 ∷ 0x00 ∷ 0x5b ∷ 0x60
    ∷ 0x00 ∷ 0x54 ∷ 0x60 ∷ 0x00 ∷ 0x52 ∷ 0x60 ∷ 0x20 ∷ 0x60 ∷ 0x00 ∷ 0xf3 ∷ []

-- PUSH1 len, DUP1, PUSH1 off, PUSH1 0, CODECOPY, PUSH1 len, PUSH1 0, RETURN.
abbrev pub init_prefix : ℕ → ℕ → Bytes
init_prefix len off =
    0x60 ∷ len ∷ 0x80 ∷ 0x60 ∷ off ∷ 0x60 ∷ 0x00 ∷ 0x39 ∷ 0x60 ∷ len ∷ 0x60 ∷ 0x00 ∷ 0xf3 ∷ []

unfoldable pub deploy_init : Bytes → Option Bytes
deploy_init runtime =
    if not (is_empty runtime) && leb (length runtime) 242
    then some (init_prefix (length runtime % 256) 13 ++ runtime)
    else none

-- The last eight bytes of a zero word are the value.
unfoldable pub encode_set : ℕ → Bytes
encode_set value = simple_storage_set_selector ++ (to_be_bytes 24 0 ++ to_be_bytes 8 value)

unfoldable pub encode_get : Bytes
encode_get = simple_storage_get_selector
