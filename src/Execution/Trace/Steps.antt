-- ===== src/Execution/Trace/Steps.antt =====
-- The options and the output of `crates/move-execution/src/trace.rs`: the tracer's lines, step by step.
use Prim.Native.String.{String}
use kanari_evm.Prelude.{
  ℕ, Bool, true, false, Option, none, some, List, [], ◌∷◌, ◌++◌, Bytes, Result, ok, err, ◌>>=◌,
  ◌==◌, if◌then◌else◌, is_empty,
}
use kanari_evm.Types.Word.{u64_max}
use kanari_evm.Types.Text.{Text, trim, trim_0x, from_str_radix16}
use kanari_evm.Storage.Keys.{codes}
use kanari_evm.Json.{
  Value, null, boolean, number, string, array, object, Fields, get, remove, insert, as_str,
  as_object, fields_or_empty,
}
use kanari_evm.Execution.Errors.{NodeResult, execution, or_error}
use kanari_evm.Execution.Machine.{ExecutionResult, success, revert, halt}
use kanari_evm.Execution.Call.{into_data}

pub record TraceOptions : Type 0 where
  pub disable_stack : Bool
  pub disable_memory : Bool

abbrev pub default_options : TraceOptions
default_options = record { disable_stack = false; disable_memory = false }

-- The key of a flag that is no Boolean.
abbrev pub flag_value : String → Option Value → Result String Bool
flag_value key none = ok false
flag_value key (some null) = ok false
flag_value key (some (boolean b)) = ok b
flag_value key (some (number n)) = err key
flag_value key (some (string t)) = err key
flag_value key (some (array items)) = err key
flag_value key (some (object fields)) = err key

-- An error names the flag.
unfoldable pub options_from_json : Value → Result String TraceOptions
options_from_json v = do
  let obj = fields_or_empty (as_object v)
  stack ← flag_value "disableStack" (get (codes "disableStack") obj)
  memory ← flag_value "disableMemory" (get (codes "disableMemory") obj)
  ok (record { disable_stack = stack; disable_memory = memory })

pub record TraceOutput : Type 0 where
  pub gas_used : ℕ
  pub failed : Bool
  pub return_value : Text
  pub struct_logs : List Value

abbrev pub remove_if : Bool → Text → Fields → Fields
remove_if true key fields = remove key fields
remove_if false key fields = fields

abbrev pub rename_op : Option Value → Fields → Fields
rename_op none fields = fields
rename_op (some op) fields = insert (codes "op") op (remove (codes "opName") fields)

abbrev pub remove_all : List String → Fields → Fields
remove_all [] fields = fields
remove_all (key ∷ keys) fields = remove_all keys (remove (codes key) fields)

-- One step line as a Geth struct log.
unfoldable pub map_step : TraceOptions → Fields → Fields
map_step opts obj =
    let named = rename_op (get (codes "opName") obj) obj in
    let kept =
      remove_all
        ("reservoir" ∷ "stateGas" ∷ "refund" ∷ "memSize" ∷ "returnData" ∷ "returnStack" ∷ "storage"
          ∷ [])
        named in
    remove_if opts.disable_memory (codes "memory")
      (remove_if opts.disable_stack (codes "stack") kept)

-- The struct logs and the last line that is no step.
pub record Lines : Type 0 where
  pub struct_logs : List Value
  pub summary : Option Value

abbrev pub no_lines : Lines
no_lines = record { struct_logs = []; summary = none }

-- `value.get("pc")`, which only an object has.
abbrev pub step_of : Value → Option Fields
step_of (object fields) = elim (get (codes "pc") fields) [ none ↦ none | some pc ↦ some fields ]
step_of null = none
step_of (boolean b) = none
step_of (number n) = none
step_of (string t) = none
step_of (array items) = none

abbrev pub add_line : TraceOptions → Value → Option Fields → Lines → Lines
add_line opts value none lines = record lines { summary = some value }
add_line opts value (some step) lines = record lines {
  struct_logs = lines.struct_logs ++ object (map_step opts step) ∷ [];
}

-- `str::lines` without the carriage return, which trimming removes.
unfoldable pub split_lines : Text → Text → List Text
split_lines line [] = line ∷ []
split_lines line (c ∷ s) =
    let rest = split_lines [] s in
    let longer = split_lines (line ++ c ∷ []) s in if c == b'\n' then line ∷ rest else longer

module _ (from_str : Text → Result String Value) where
  -- The loop over the tracer's lines; blank ones are skipped.
  unfoldable pub read_lines : TraceOptions → Lines → List Text → NodeResult Lines
  unfolding map_step
  read_lines opts lines [] = ok lines
  read_lines opts lines (line ∷ rest) = elim (is_empty (trim line)) [
    | true ↦ read_lines opts lines rest
    | false ↦ do
      value ← or_error execution (from_str (trim line))
      read_lines opts (add_line opts value (step_of value) lines) rest
  ]

-- Whether the execution failed, its gas and its output.
unfoldable pub traced_result : ExecutionResult → Bool × ℕ × Bytes
traced_result (success gas output logs) = (false, gas, into_data output)
traced_result (revert gas output) = (true, gas, output)
traced_result (halt gas) = (true, gas, [])

abbrev pub gas_text : Option Value → Option Text
gas_text none = none
gas_text (some (object fields)) = elim (get (codes "gasUsed") fields) [
  | none ↦ none
  | some gas ↦ as_str gas
]
gas_text (some null) = none
gas_text (some (boolean b)) = none
gas_text (some (number n)) = none
gas_text (some (string t)) = none
gas_text (some (array items)) = none

abbrev pub parsed_or : ℕ → Option ℕ → ℕ
parsed_or default none = default
parsed_or default (some n) = n

-- The gas of the summary line where it is a hex text, and else that of the result.
unfoldable pub summary_gas : Option Text → ℕ → ℕ
summary_gas none gas_used = gas_used
summary_gas (some s) gas_used = parsed_or gas_used (from_str_radix16 u64_max (trim_0x s))
