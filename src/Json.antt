-- ===== src/Json.antt =====
-- The JSON values that the server and the tracer read and write, with the accessors of serde_json
-- that they use. An object is an association list in which the first entry of a key counts.
pub mod Lookup
use Prim.Native.String.{String}
use kanari_evm.Prelude.{
  ℕ, Bool, true, false, Option, none, some, List, [], ◌∷◌, Bytes, bytes_eq, if◌then◌else◌,
}
use kanari_evm.Types.Text.{Text}
use kanari_evm.Storage.Keys.{codes}

-- A whole number, a negative one by its magnitude, or a quotient of floating-point numbers.
pub data Number : Type 0 where
  unsigned negative : ℕ → Number
  quotient : ℕ → ℕ → Number

mutual
  pub data Value : Type 0 where
    null : Value
    boolean : Bool → Value
    number : Number → Value
    string : Text → Value
    array : Items → Value
    object : Fields → Value

  pub data Items : Type 0 where
    nil : Items
    cons : Value → Items → Items

  pub data Fields : Type 0 where
    end : Fields
    field : Text → Value → Fields → Fields

abbrev pub to_list : Items → List Value
to_list nil = []
to_list (cons v items) = v ∷ to_list items

abbrev pub of_list : List Value → Items
of_list [] = nil
of_list (v ∷ values) = cons v (of_list values)

-- A list of texts as an array.
abbrev pub texts : List Text → Items
texts [] = nil
texts (t ∷ rest) = cons (string t) (texts rest)

abbrev pub lit : String → Value
lit s = string (codes s)

-- A text or `null`.
abbrev pub text_or_null : Option Text → Value
text_or_null none = null
text_or_null (some t) = string t

unfoldable pub get : Text → Fields → Option Value
get key end = none
get key (field k v fields) = if bytes_eq k key then some v else get key fields

-- `remove`: no entry of the key is left.
unfoldable pub remove : Text → Fields → Fields
remove key end = end
remove key (field k v fields) =
    let rest = remove key fields in if bytes_eq k key then rest else field k v rest

unfoldable pub insert : Text → Value → Fields → Fields
unfolding remove
insert key v fields = field key v (remove key fields)

abbrev pub as_str : Value → Option Text
as_str (string t) = some t
as_str null = none
as_str (boolean b) = none
as_str (number n) = none
as_str (array items) = none
as_str (object fields) = none

abbrev pub as_array : Value → Option (List Value)
as_array (array items) = some (to_list items)
as_array null = none
as_array (boolean b) = none
as_array (number n) = none
as_array (string t) = none
as_array (object fields) = none

abbrev pub as_object : Value → Option Fields
as_object (object fields) = some fields
as_object null = none
as_object (boolean b) = none
as_object (number n) = none
as_object (string t) = none
as_object (array items) = none

abbrev pub as_bool : Value → Option Bool
as_bool (boolean b) = some b
as_bool null = none
as_bool (number n) = none
as_bool (string t) = none
as_bool (array items) = none
as_bool (object fields) = none

abbrev pub as_u64 : Value → Option ℕ
as_u64 (number (unsigned n)) = some n
as_u64 (number (negative n)) = none
as_u64 (number (quotient n d)) = none
as_u64 null = none
as_u64 (boolean b) = none
as_u64 (string t) = none
as_u64 (array items) = none
as_u64 (object fields) = none

-- An absent field and a `null` one are read alike.
abbrev pub present : Option Value → Option Value
present none = none
present (some null) = none
present (some (boolean b)) = some (boolean b)
present (some (number n)) = some (number n)
present (some (string t)) = some (string t)
present (some (array items)) = some (array items)
present (some (object fields)) = some (object fields)

-- `unwrap_or_default` of `as_array` and of `as_object`.
abbrev pub items_or_empty : Option (List Value) → List Value
items_or_empty none = []
items_or_empty (some values) = values

abbrev pub fields_or_empty : Option Fields → Fields
fields_or_empty none = end
fields_or_empty (some fields) = fields
