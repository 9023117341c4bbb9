-- ===== src/Json/Lookup.antt =====
-- What is read from an object after a field is written or removed.
use kanari_evm.Prelude.{◌≡◌, none, some, arith, bytes_eq, bytes_eq_iff, if◌then◌else◌}
use kanari_evm.Types.Text.{Text}
use kanari_evm.Json.{Value, Fields, end, field, get, remove, insert}

pub get-remove :
    (j k : Text) (fields : Fields)
    → get j (remove k fields) ≡ (if bytes_eq k j then none else get j fields)
unfolding get remove
get-remove j k end = ground arith
get-remove j k (field i v fields) =
    ground (arith, get-remove j k fields, bytes_eq_iff i k, bytes_eq_iff i j, bytes_eq_iff k j)

-- Writing a field changes what is read under its key and nothing else.
pub get-insert :
    (j k : Text) (v : Value) (fields : Fields)
    → get j (insert k v fields) ≡ (if bytes_eq k j then some v else get j fields)
unfolding insert get
get-insert j k v fields = ground (arith, get-remove j k fields)
