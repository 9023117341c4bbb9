-- ===== src/Fork/Slots.antt =====
-- Slot references as they are written and read.
use kanari_evm.Prelude.{ℕ, ◌≡◌, ◌≢◌, refl, some, [], ◌∷◌, ◌++◌, Bytes, ok, ◌==◌, false, arith}
use kanari_evm.Types.Text.{Text, trim, lower_hex}
use kanari_evm.Types.Text.Ascii.{IsHexText, trim-0x_hex, trim_0x-0x_hex}
use kanari_evm.Types.Hex.{quantity_u256}
use kanari_evm.Types.Hex.Quantity.{lower_hex-IsHexText}
use kanari_evm.Rpc.Forms.{Forms}
use kanari_evm.Fork.{split_once, parse_slot}

abbrev pub HasNoColon : Text → Type 0
HasNoColon [] = Unit {0}
HasNoColon (c ∷ s) = (c ≢ b':') × HasNoColon s

split_once-append : (s t : Text) → HasNoColon s → split_once (s ++ b':' ∷ t) ≡ some (s, t)
unfolding split_once
split_once-append [] t h = refl
split_once-append (c ∷ s) t h =
    let other : (c == b':') ≡ false = ground (arith, h.0) in
    rw (other, split_once-append s t h.1) refl

-- An address text without a colon, a colon and the quantity of a slot are read as that address and
-- that slot, where alloy reads the trimmed address text and the slot's digits so.
parse_slot-quantity_u256 :
    (forms : Forms) (text : Text) (address : Bytes) (slot : ℕ)
    → HasNoColon text
    → forms.parse_address (trim text) ≡ some address
    → forms.u256_from_str_radix16 (lower_hex 64 slot) ≡ some slot
    → parse_slot forms (text ++ b':' ∷ quantity_u256 slot)
      ≡ ok (record { address = address; slot = slot })
unfolding parse_slot quantity_u256
parse_slot-quantity_u256 forms text address slot plain parsed digits =
    let hex : IsHexText (lower_hex 64 slot) = lower_hex-IsHexText 64 slot in
    rw
      (
        split_once-append text (b'0' ∷ b'x' ∷ lower_hex 64 slot) plain,
        parsed,
        trim-0x_hex (lower_hex 64 slot) hex,
        trim_0x-0x_hex (lower_hex 64 slot) hex,
        digits,
      )
      refl
