-- ===== src/Samples/Keys.antt =====
-- Four key pairs, each a key of 32 bytes.
use Prim.Native.String.{String}
use kanari_evm.Prelude.{
  ◌==◌, if◌then◌else◌, ℕ, zero, suc, ◌≡◌, refl, List, [], ◌∷◌, ◌++◌, Bytes, Result, ok, err, last?,
  Option, none, some, arith,
}
use kanari_evm.Types.Hex.RoundTrip.{IsBytes}
use kanari_evm.Consensus.Committee.{KeyScheme}

pub data SampleKey : Type 0 where
  north east south west : SampleKey

abbrev pub tag : SampleKey → ℕ
tag north = 1
tag east = 2
tag south = 3
tag west = 4

abbrev pub zeros : ℕ → Bytes
zeros zero = []
zeros (suc n) = 0 ∷ zeros n

abbrev pub tagged : SampleKey → Bytes
tagged key = zeros 31 ++ tag key ∷ []

abbrev pub of_tag : Option ℕ → Result String SampleKey
of_tag none = err "no key"
of_tag (some n) =
    if n == 1
    then ok north
    else if n == 2
    then ok east
    else if n == 3
    then ok south
    else if n == 4
    then ok west
    else err "no key"

pub of_tag-tagged : (key : SampleKey) → of_tag (last? (tagged key)) ≡ ok key
of_tag-tagged north = refl
of_tag-tagged east = refl
of_tag-tagged south = refl
of_tag-tagged west = refl

zeros-IsBytes : (n v : ℕ) → IsBytes (v ∷ []) → IsBytes (zeros n ++ v ∷ [])
zeros-IsBytes zero v h = h
zeros-IsBytes (suc n) v h = (omega arith, zeros-IsBytes n v h)

pub tagged-IsBytes : (key : SampleKey) → IsBytes (tagged key)
tagged-IsBytes north = zeros-IsBytes 31 1 (omega arith, tt)
tagged-IsBytes east = zeros-IsBytes 31 2 (omega arith, tt)
tagged-IsBytes south = zeros-IsBytes 31 3 (omega arith, tt)
tagged-IsBytes west = zeros-IsBytes 31 4 (omega arith, tt)

abbrev pub sample_keys : KeyScheme
sample_keys = record {
  Signer = SampleKey;
  PublicKey = SampleKey;
  public_key = λ key. key;
  key_bytes = tagged;
  key_from_bytes = λ bytes. of_tag (last? bytes);
  key_bytes-IsBytes = tagged-IsBytes;
  key_from_bytes-key_bytes = of_tag-tagged;
}

abbrev pub four_signers : List SampleKey
four_signers = north ∷ east ∷ south ∷ west ∷ []
