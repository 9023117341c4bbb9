-- ===== src/Types/Text.antt =====
-- The operations of Rust's `str`, of its integer parser and of its `{:x}` formatter that the
-- program uses. A text is the list of its code points.
pub mod Digits
pub mod Ascii
use kanari_evm.Prelude.{
  ℕ, zero, suc, ◌+◌, ◌-◌, ◌*◌, ◌/◌, ◌%◌, Bool, true, false, ◌&&◌, ◌||◌, Option, none, some, List,
  [], ◌∷◌, ◌++◌, ltb, leb, ◌==◌, if◌then◌else◌,
}

abbrev pub Text : Type 0
Text = List ℕ

abbrev between : ℕ → ℕ → ℕ → Bool
between lo hi c = leb lo c && leb c hi

-- `char::is_whitespace`, the Unicode property White_Space.
unfoldable pub is_whitespace : ℕ → Bool
is_whitespace c =
    between 0x09 0x0d c
    || c == 0x20
    || c == 0x85
    || c == 0xa0
    || c == 0x1680
    || between 0x2000 0x200a c
    || c == 0x2028
    || c == 0x2029
    || c == 0x202f
    || c == 0x205f
    || c == 0x3000

unfoldable pub trim_start : Text → Text
trim_start [] = []
trim_start (c ∷ s) = let rest = trim_start s in if is_whitespace c then rest else c ∷ s

abbrev is_empty : Text → Bool
is_empty [] = true
is_empty (c ∷ s) = false

unfoldable pub trim_end : Text → Text
trim_end [] = []
trim_end (c ∷ s) =
    let rest = trim_end s in if is_whitespace c && is_empty rest then [] else c ∷ rest

unfoldable pub trim : Text → Text
trim s = trim_end (trim_start s)

-- `trim_start_matches("0x")`: the pattern is removed as often as it stands in front.
unfoldable pub trim_0x : Text → Text
trim_0x (c ∷ d ∷ s) = let rest = trim_0x s in if c == b'0' && d == b'x' then rest else c ∷ d ∷ s
trim_0x s = s

-- `as_bytes`: UTF-8.
unfoldable pub utf8 : ℕ → List ℕ
utf8 c =
    if ltb c 0x80
    then c ∷ []
    else if ltb c 0x800
    then (0xc0 + c / 64) ∷ (0x80 + c % 64) ∷ []
    else if ltb c 0x1_0000
    then (0xe0 + c / 4096) ∷ (0x80 + c / 64 % 64) ∷ (0x80 + c % 64) ∷ []
    else (0xf0 + c / 26_2144) ∷ (0x80 + c / 4096 % 64) ∷ (0x80 + c / 64 % 64) ∷ (0x80 + c % 64) ∷ []

unfoldable pub as_bytes : Text → List ℕ
as_bytes [] = []
as_bytes (c ∷ s) = utf8 c ++ as_bytes s

-- `char::to_digit(16)`
unfoldable pub to_digit : ℕ → Option ℕ
to_digit c =
    if between b'0' b'9' c
    then some (c - b'0')
    else if between b'a' b'f' c
    then some (c - b'a' + 10)
    else if between b'A' b'F' c
    then some (c - b'A' + 10)
    else none

-- The digits of `from_str_radix(_, 16)`: a digit that is none, or a value above the word's largest
-- value `top`, is an error.
abbrev pub push_digit : ℕ → ℕ → Option ℕ → Option ℕ
push_digit top acc none = none
push_digit top acc (some d) = let v : ℕ = acc * 16 + d in if ltb top v then none else some v

unfoldable pub digits_value : ℕ → Option ℕ → List ℕ → Option ℕ
unfolding to_digit
digits_value top none s = none
digits_value top (some acc) [] = some acc
digits_value top (some acc) (c ∷ s) = digits_value top (push_digit top acc (to_digit c)) s

-- `from_str_radix(_, 16)` of an unsigned word: an empty text and a sign alone are errors, and a
-- leading `+` before a digit is skipped.
unfoldable pub from_str_radix16 : ℕ → List ℕ → Option ℕ
from_str_radix16 top [] = none
from_str_radix16 top (c ∷ []) = digits_value top (some 0) (c ∷ [])
from_str_radix16 top (c ∷ d ∷ s) =
    if c == b'+' then digits_value top (some 0) (d ∷ s) else digits_value top (some 0) (c ∷ d ∷ s)

abbrev get_or : List ℕ → ℕ → ℕ → ℕ
get_or [] i d = d
get_or (x ∷ xs) zero d = x
get_or (x ∷ xs) (suc i) d = get_or xs i d

-- The digit of a value below 16, from the table "0123456789abcdef".
unfoldable pub hex_char : ℕ → ℕ
hex_char n =
    get_or
      (b'0' ∷ b'1' ∷ b'2' ∷ b'3' ∷ b'4' ∷ b'5' ∷ b'6' ∷ b'7' ∷ b'8' ∷ b'9' ∷ b'a' ∷ b'b' ∷ b'c'
        ∷ b'd' ∷ b'e' ∷ b'f' ∷ [])
      n 0

-- `{:0wx}` of a value below 16 ^ w.
unfoldable pub padded_hex : ℕ → ℕ → Text
unfolding hex_char
padded_hex zero v = []
padded_hex (suc w) v = padded_hex w (v / 16) ++ hex_char (v % 16) ∷ []

-- `{:x}` of a value below 16 ^ w: no leading zero, and one digit for zero.
unfoldable pub lower_hex : ℕ → ℕ → Text
unfolding hex_char
lower_hex zero v = []
lower_hex (suc w) v =
    let front : Text = lower_hex w (v / 16) in
    (if v / 16 == 0 then [] else front) ++ hex_char (v % 16) ∷ []

-- `parse` of an unsigned word in decimal, with the errors of `from_str_radix`.
abbrev pub push_decimal : ℕ → ℕ → ℕ → Option ℕ
push_decimal top acc c =
    if between b'0' b'9' c
    then (let v : ℕ = acc * 10 + (c - b'0') in if ltb top v then none else some v)
    else none

unfoldable pub decimal_value : ℕ → Option ℕ → List ℕ → Option ℕ
decimal_value top none s = none
decimal_value top (some acc) [] = some acc
decimal_value top (some acc) (c ∷ s) = decimal_value top (push_decimal top acc c) s

unfoldable pub parse_decimal : ℕ → List ℕ → Option ℕ
parse_decimal top [] = none
parse_decimal top (c ∷ []) = decimal_value top (some 0) (c ∷ [])
parse_decimal top (c ∷ d ∷ s) =
    if c == b'+' then decimal_value top (some 0) (d ∷ s) else decimal_value top (some 0) (c ∷ d ∷ s)

-- `{}` of an unsigned word below 10 ^ w.
unfoldable pub decimal_text : ℕ → ℕ → Text
decimal_text zero v = []
decimal_text (suc w) v =
    let front : Text = decimal_text w (v / 10) in
    (if v / 10 == 0 then [] else front) ++ (b'0' + v % 10) ∷ []
