-- ===== src/Types/Text/Ascii.antt =====
-- Texts of lowercase hex digits pass through trimming, prefix removal and UTF-8 unchanged.
use kanari_evm.Prelude.{ℕ, ◌≡◌, refl, ap, false, [], ◌∷◌, ◌++◌, arith}
use kanari_evm.Types.Text.{Text, is_whitespace, trim_start, trim_end, trim, trim_0x, utf8, as_bytes}
use kanari_evm.Types.Text.Digits.{IsHexChar}

abbrev pub IsHexText : Text → Type 0
IsHexText [] = Unit {0}
IsHexText (c ∷ s) = IsHexChar c × IsHexText s

is_whitespace-hex : (c : ℕ) → IsHexChar c → is_whitespace c ≡ false
unfolding is_whitespace
is_whitespace-hex c h = ground arith

pub trim_start-hex : (s : Text) → IsHexText s → trim_start s ≡ s
unfolding trim_start
trim_start-hex [] h = refl
trim_start-hex (c ∷ s) h = rw (is_whitespace-hex c h.0)

pub trim_end-hex : (s : Text) → IsHexText s → trim_end s ≡ s
unfolding trim_end
trim_end-hex [] h = refl
trim_end-hex (c ∷ s) h = rw (is_whitespace-hex c h.0, trim_end-hex s h.1)

pub trim-hex : (s : Text) → IsHexText s → trim s ≡ s
unfolding trim
trim-hex s h = rw (trim_start-hex s h) (trim_end-hex s h)

pub trim_0x-hex : (s : Text) → IsHexText s → trim_0x s ≡ s
unfolding trim_0x
trim_0x-hex [] h = refl
trim_0x-hex (c ∷ []) h = refl
trim_0x-hex (c ∷ d ∷ s) h = ground arith

pub utf8-hex : (c : ℕ) → IsHexChar c → utf8 c ≡ c ∷ []
unfolding utf8
utf8-hex c h = ground arith

pub as_bytes-hex : (s : Text) → IsHexText s → as_bytes s ≡ s
unfolding as_bytes
as_bytes-hex [] h = refl
as_bytes-hex (c ∷ s) h = rw (utf8-hex c h.0) (ap (λ (t : Text). c ∷ t) (as_bytes-hex s h.1))

pub IsHexText-append : (s t : Text) → IsHexText s → IsHexText t → IsHexText (s ++ t)
IsHexText-append [] t hs ht = ht
IsHexText-append (c ∷ s) t hs ht = (hs.0, IsHexText-append s t hs.1 ht)

-- A text of hex digits behind the prefix `0x`.
pub trim-0x_hex : (s : Text) → IsHexText s → trim (48 ∷ 120 ∷ s) ≡ 48 ∷ 120 ∷ s
unfolding trim trim_start trim_end is_whitespace
trim-0x_hex s h = rw (trim_end-hex s h)

pub trim_0x-0x_hex : (s : Text) → IsHexText s → trim_0x (48 ∷ 120 ∷ s) ≡ s
unfolding trim_0x
trim_0x-0x_hex s h = trim_0x-hex s h
