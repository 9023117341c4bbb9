-- ===== src/Consensus/Committee.antt =====
-- The committee file of `crates/consensus/src/committee.rs`. Keys are the DAG library's: signers, the
-- bytes of their public keys and the check of such bytes are parameters. The random signers are a
-- list, and key files are returned in the order in which they are written.
pub mod Ports
pub mod Members
mod Tests
use Prim.Native.String.{String}
use kanari_evm.Prelude.{
  ◌≡◌, ℕ, zero, suc, ◌+◌, ◌-◌, ◌*◌, ◌/◌, ◌%◌, ◌^◌, Bool, Option, none, some, List, [], ◌∷◌, ◌++◌,
  Bytes, bytes_eq, Result, ok, err, ◌>>=◌, ◌>>◌, map_err, length, ltb, leb, ◌==◌, if◌then◌else◌,
  get_elem?, map,
}
use kanari_evm.Types.Word.{u16_max, u32_max, saturating_add, saturating_mul}
use kanari_evm.Types.Text.{Text, hex_char}
use kanari_evm.Types.Hex.RoundTrip.{IsBytes}
use kanari_evm.Types.Hex.{HexError, hex_encode, hex_decode32}

pub data CommitteeError : Type 0 where
  io : String → CommitteeError
  too_few : ℕ → CommitteeError
  ports_overflow_mesh : ℕ → ℕ → CommitteeError
  port_range_overflow : CommitteeError
  bad_public_key : ℕ → CommitteeError
  public_key_length : ℕ → CommitteeError
  no_matching_validator : CommitteeError

abbrev pub CommitteeResult : Type 0 → Type 0
CommitteeResult = Result CommitteeError

-- The id `0x{i}` is kept as its number; the host is the same for all and kept as it is given.
pub record ValidatorEntry : Type 0 where
  pub id : ℕ
  pub host : Bytes
  pub port : ℕ
  pub public_key : Text

pub record DagCommittee : Type 0 where
  pub authorities : List ValidatorEntry

-- `(node_count as u32).saturating_sub(1).saturating_mul(10)`
abbrev pub port_span : ℕ → ℕ
port_span node_count = saturating_mul u32_max (node_count % 2 ^ 32 - 1) 10

abbrev pub top_port : ℕ → ℕ → ℕ
top_port node_count base_dag_port = saturating_add u32_max base_dag_port (port_span node_count)

-- `checked_add` of `(i as u16).saturating_mul(10)`
unfoldable pub entry_port : ℕ → ℕ → CommitteeResult ℕ
entry_port base_dag_port i =
    let port : ℕ = base_dag_port + saturating_mul u16_max (i % 2 ^ 16) 10 in
    if ltb u16_max port then err port_range_overflow else ok port

-- The key pairs of the DAG library: a public key is some bytes, and is read back from them.
pub record KeyScheme : Type 1 where
  pub Signer : Type 0
  pub PublicKey : Type 0
  pub public_key : Signer → PublicKey
  pub key_bytes : PublicKey → Bytes
  pub key_from_bytes : Bytes → Result String PublicKey
  pub key_bytes-IsBytes : (key : PublicKey) → IsBytes (key_bytes key)
  pub key_from_bytes-key_bytes : (key : PublicKey) → key_from_bytes (key_bytes key) ≡ ok key

module _ (scheme : KeyScheme) where
  open scheme use {Signer, PublicKey, public_key, key_bytes, key_from_bytes}

  unfoldable pub encode_pubkey : PublicKey → CommitteeResult Text
  encode_pubkey key =
      let bytes = key_bytes key in
      if length bytes == 32 then ok (hex_encode bytes) else err (public_key_length (length bytes))

  -- The text of the error is dropped by the caller here: only the entry is named.
  unfoldable pub decode_pubkey : ℕ → Text → CommitteeResult PublicKey
  decode_pubkey id hex = do
    bytes ← map_err (λ _. bad_public_key id) (hex_decode32 hex)
    map_err (λ _. bad_public_key id) (key_from_bytes bytes)

  unfoldable pub decode_keys : List ValidatorEntry → CommitteeResult (List PublicKey)
  unfolding decode_pubkey
  decode_keys [] = ok []
  decode_keys (entry ∷ entries) = do
    key ← decode_pubkey entry.id entry.public_key
    keys ← decode_keys entries
    ok (key ∷ keys)

  -- The keys of the Mysticeti committee, each with stake 1.
  unfoldable pub to_mysticeti : DagCommittee → CommitteeResult (List PublicKey)
  to_mysticeti committee =
      if ltb (length committee.authorities) 4
      then err (too_few (length committee.authorities))
      else decode_keys committee.authorities

  -- The loop of `generate_committee` over the signers, from index `i`.
  unfoldable pub make_entries : Bytes → ℕ → ℕ → List Signer → CommitteeResult (List ValidatorEntry)
  unfolding entry_port encode_pubkey
  make_entries host base_dag_port i [] = ok []
  make_entries host base_dag_port i (signer ∷ signers) = do
    port ← entry_port base_dag_port i
    key ← encode_pubkey (public_key signer)
    entries ← make_entries host base_dag_port (suc i) signers
    ok (record { id = i + 1; host = host; port = port; public_key = key } ∷ entries)

  -- The node count is the number of signers that are drawn.
  unfoldable pub generate_committee : List Signer → Bytes → ℕ → CommitteeResult DagCommittee
  generate_committee signers host base_dag_port =
      if ltb (length signers) 4
      then err (too_few (length signers))
      else if ltb u16_max (saturating_mul u32_max (top_port (length signers) base_dag_port) 10)
      then err (ports_overflow_mesh base_dag_port (top_port (length signers) base_dag_port))
      else (do
        entries ← make_entries host base_dag_port 0 signers
        ok (record { authorities = entries }))

  pub record LoadedValidator : Type 0 where
    pub index : ℕ
    pub id : ℕ
    pub signer : Signer
    pub committee : List PublicKey
    pub own_port : ℕ
    pub dag_ports : List ℕ

  -- `position` of the first entry with the key.
  unfoldable pub position : Text → ℕ → List ValidatorEntry → Option (ℕ × ValidatorEntry)
  position key i [] = none
  position key i (entry ∷ entries) =
      if bytes_eq entry.public_key key then some (i, entry) else position key (suc i) entries

  abbrev pub found_entry : Option (ℕ × ValidatorEntry) → CommitteeResult (ℕ × ValidatorEntry)
  found_entry none = err no_matching_validator
  found_entry (some found) = ok found

  abbrev pub ports_of : List ValidatorEntry → List ℕ
  ports_of [] = []
  ports_of (entry ∷ entries) = entry.port ∷ ports_of entries

  -- The files are read and parsed by the caller.
  unfoldable pub load_validator : DagCommittee → Signer → CommitteeResult LoadedValidator
  load_validator committee signer = do
    own ← encode_pubkey (public_key signer)
    found ← found_entry (position own 0 committee.authorities)
    keys ← to_mysticeti committee
    ok (record {
      index = found.0;
      id = found.1.id;
      signer = signer;
      committee = keys;
      own_port = found.1.port;
      dag_ports = ports_of committee.authorities;
    })
