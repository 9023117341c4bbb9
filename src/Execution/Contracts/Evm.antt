-- ===== src/Execution/Contracts/Evm.antt =====
-- A machine for the EVM's code without jumps, as far as the init code of
-- `crates/move-execution/src/contracts.rs` needs it: what the deployment of a contract runs.
use kanari_evm.Prelude.{
  ℕ, zero, suc, ◌+◌, ◌≡◌, refl, Bool, true, false, List, [], ◌∷◌, ◌++◌, Bytes, length, take, drop,
  ◌==◌, if◌then◌else◌,
}

abbrev zeros : ℕ → Bytes
zeros zero = []
zeros (suc n) = 0 ∷ zeros n

-- `size` bytes from a place on, with zeros beyond the end, as code and memory are read.
abbrev pub read_from : ℕ → ℕ → Bytes → Bytes
read_from off size bytes = take size (drop off bytes ++ zeros size)

abbrev pub write_at : ℕ → Bytes → Bytes → Bytes
write_at off bytes memory = read_from 0 off memory ++ (bytes ++ drop (off + length bytes) memory)

-- The opcodes that are known; any other is a failure.
pub data Op : Type 0 where
  push1 dup1 codecopy return unknown : Op

abbrev pub opcode : ℕ → Op
opcode b =
    if b == 0x60
    then push1
    else if b == 0x80
    then dup1
    else if b == 0x39
    then codecopy
    else if b == 0xf3
    then return
    else unknown

-- Whether the next byte is an operand, the stack from its top, and the memory.
pub data Evm : Type 0 where
  running : Bool → List ℕ → Bytes → Evm
  returned : Bytes → Evm
  failed : Evm

abbrev pub run_op : Bytes → Op → List ℕ → Bytes → Evm
run_op code push1 stack memory = running true stack memory
run_op code dup1 (x ∷ stack) memory = running false (x ∷ x ∷ stack) memory
run_op code codecopy (dest ∷ off ∷ size ∷ stack) memory =
    running false stack (write_at dest (read_from off size code) memory)
run_op code return (off ∷ size ∷ stack) memory = returned (read_from off size memory)
run_op code op stack memory = failed

abbrev pub step : Bytes → ℕ → Evm → Evm
step code b (running true stack memory) = running false (b ∷ stack) memory
step code b (running false stack memory) = run_op code (opcode b) stack memory
step code b (returned out) = returned out
step code b failed = failed

-- The bytes of the code in their order.
abbrev pub steps : Bytes → Bytes → Evm → Evm
steps code [] s = s
steps code (b ∷ rest) s = steps code rest (step code b s)

abbrev pub execute : Bytes → Evm
execute code = steps code code (running false [] [])

-- What has returned stays so.
pub steps-returned : (code rest out : Bytes) → steps code rest (returned out) ≡ returned out
steps-returned code [] out = refl
steps-returned code (b ∷ rest) out = steps-returned code rest out
