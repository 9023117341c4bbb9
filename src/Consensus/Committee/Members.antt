-- ===== src/Consensus/Committee/Members.antt =====
-- A generated committee is read back, and each of its signers finds its own entry.
use kanari_evm.Prelude.{
  ℕ, zero, suc, ◌+◌, ◌*◌, ◌^◌, ◌<◌, ◌≡◌, refl, sym, ◌∙◌, ap, subst, true, false, some, List, [],
  ◌∷◌, Bytes, bytes_eq, bytes_eq_self, bytes_eq→eq, ok, length, ltb, ◌==◌, arith, Bool-cases, inl,
  inr, get_elem?, map,
}
use kanari_evm.Types.Hex.{HexResult, hex_encode, hex_decode, hex_decode32, exactly_32}
use kanari_evm.Types.Hex.RoundTrip.{IsBytes, hex_decode-hex_encode}
use kanari_evm.Consensus.Committee.{
  ValidatorEntry, DagCommittee, KeyScheme, LoadedValidator, decode_pubkey, decode_keys,
  to_mysticeti, generate_committee, position, ports_of, load_validator,
}
use kanari_evm.Consensus.Committee.Ports.{
  EntryOf, Made, length-Made, Generated, generate_committee-Generated, encode_pubkey_long,
  generate_committee-ports,
}

hex_decode32-hex_encode :
    (bytes : Bytes) → IsBytes bytes → length bytes ≡ 32 → hex_decode32 (hex_encode bytes) ≡ ok bytes
unfolding hex_decode32 exactly_32
hex_decode32-hex_encode bytes h long =
    let e : (length bytes == 32) ≡ true = ground arith in
    rw ((hex_decode-hex_encode bytes h).0, e) refl

module _ (scheme : KeyScheme) where
  open scheme use {
    Signer, PublicKey, public_key, key_bytes, key_from_bytes, key_bytes-IsBytes,
    key_from_bytes-key_bytes,
  }

  decode_pubkey-entry :
      (base i : ℕ) (signer : Signer) (entry : ValidatorEntry)
      → EntryOf scheme base i signer entry
      → decode_pubkey scheme entry.id entry.public_key ≡ ok (public_key signer)
  unfolding decode_pubkey
  decode_pubkey-entry base i signer entry made =
      rw
        (
          made.key,
          hex_decode32-hex_encode (key_bytes (public_key signer))
              (key_bytes-IsBytes (public_key signer)) made.key_length,
          key_from_bytes-key_bytes (public_key signer),
        )
        refl

  decode_keys-Made :
      (base i : ℕ) (signers : List Signer) (entries : List ValidatorEntry)
      → Made scheme base i signers entries
      → decode_keys scheme entries ≡ ok (map public_key signers)
  unfolding decode_keys
  decode_keys-Made base i [] [] h = refl
  decode_keys-Made base i [] (entry ∷ entries) h = absurd h
  decode_keys-Made base i (signer ∷ signers) [] h = absurd h
  decode_keys-Made base i (signer ∷ signers) (entry ∷ entries) h =
      rw
        (
          decode_pubkey-entry base i signer entry h.0,
          decode_keys-Made base (suc i) signers entries h.1,
        )
        refl

  to_mysticeti-Generated :
      (signers : List Signer) (base : ℕ) (committee : DagCommittee)
      → Generated scheme signers base committee
      → to_mysticeti scheme committee ≡ ok (map public_key signers)
  unfolding to_mysticeti
  to_mysticeti-Generated signers base committee g =
      let enough : ltb (length committee.authorities) 4 ≡ false =
        ground (arith, length-Made scheme base 0 signers committee.authorities g.made, g.enough) in
      rw enough (decode_keys-Made base 0 signers committee.authorities g.made)

  eq_of_hex_encode : (g h : Bytes) → IsBytes g → IsBytes h → hex_encode g ≡ hex_encode h → g ≡ h
  eq_of_hex_encode g h p q e =
      let decoded : ◌≡◌ {A = HexResult} (ok g) (ok h) =
        cc ((hex_decode-hex_encode g p).0, (hex_decode-hex_encode h q).0, ap hex_decode e) in
      cc decoded

  -- The key of a signer that no earlier one shares is found at its index.
  position-Made :
      (base i k : ℕ) (signers : List Signer) (entries : List ValidatorEntry) (signer : Signer)
      → Made scheme base i signers entries
      → get_elem? signers k ≡ some signer
      → ((j : ℕ) (other : Signer)
          → get_elem? signers j ≡ some other
          → key_bytes (public_key other) ≡ key_bytes (public_key signer)
          → j ≡ k)
      → (entry : ValidatorEntry) × (position scheme
            (hex_encode (key_bytes (public_key signer)))
            i
            entries
          ≡ some (i + k, entry))
        × (get_elem? entries k ≡ some entry)
  unfolding position
  position-Made base i k [] entries signer h e only = cc e
  position-Made base i k (s ∷ signers) [] signer h e only = absurd h
  position-Made base i zero (s ∷ signers) (c ∷ entries) signer h e only =
      let same : s ≡ signer = cc e in
      let key : c.public_key ≡ hex_encode (key_bytes (public_key signer)) =
        h.0.key ∙ ap (λ (t : Signer). hex_encode (key_bytes (public_key t))) same in
      let at : i + zero ≡ i = omega arith in
      (c, rw (key, bytes_eq_self (hex_encode (key_bytes (public_key signer))), at) refl, refl)
  position-Made base i (suc k) (s ∷ signers) (c ∷ entries) signer h e only =
      let (entry, found, there) =
        position-Made base (suc i) k signers entries signer h.1 e (λ j other g same.
          let s : suc j ≡ suc k = only (suc j) other g same in omega (arith, s)) in
      let at : suc i + k ≡ i + suc k = omega arith in
      elim (Bool-cases (bytes_eq c.public_key (hex_encode (key_bytes (public_key signer))))) [
        | inr other ↦ (entry, rw other (found ∙ ap (λ n. some (n, entry)) at), there)
        | inl same ↦
            let equal : key_bytes (public_key s) ≡ key_bytes (public_key signer) =
              eq_of_hex_encode _ _ (key_bytes-IsBytes (public_key s))
                (key_bytes-IsBytes (public_key signer)) (sym h.0.key ∙ bytes_eq→eq _ _ same) in
            let bad : zero ≡ suc k = only zero s refl equal in absurd (omega (arith, bad))
      ]

  key_long :
      (base i k : ℕ) (signers : List Signer) (entries : List ValidatorEntry) (signer : Signer)
      → Made scheme base i signers entries
      → get_elem? signers k ≡ some signer
      → length (key_bytes (public_key signer)) ≡ 32
  key_long base i k [] entries signer h e = cc e
  key_long base i k (s ∷ signers) [] signer h e = absurd h
  key_long base i zero (s ∷ signers) (c ∷ entries) signer h e =
      let same : s ≡ signer = cc e in
      subst (λ t. length (key_bytes (public_key t)) ≡ 32) same h.0.key_length
  key_long base i (suc k) (s ∷ signers) (c ∷ entries) signer h e =
      key_long base (suc i) k signers entries signer h.1 e

  found_loaded :
      (committee : DagCommittee) (signer : Signer) (keys : List PublicKey) (k : ℕ)
      (entry : ValidatorEntry)
      → length (key_bytes (public_key signer)) ≡ 32
      → position scheme (hex_encode (key_bytes (public_key signer))) 0 committee.authorities
        ≡ some (k, entry)
      → to_mysticeti scheme committee ≡ ok keys
      → (v : LoadedValidator scheme) × (load_validator scheme committee signer ≡ ok v)
        × (v.index ≡ k)
        × (v.id ≡ entry.id)
        × (v.own_port ≡ entry.port)
        × (v.committee ≡ keys)
  unfolding load_validator
  found_loaded committee signer keys k entry long found read = (
    record {
      index = k;
      id = entry.id;
      signer = signer;
      committee = keys;
      own_port = entry.port;
      dag_ports = ports_of scheme committee.authorities;
    },
    rw (load_validator, encode_pubkey_long scheme (public_key signer) long, found, read) refl,
    refl,
    refl,
    refl,
    refl,
  )

  -- In a generated committee of fewer than 2^32 validators, a signer whose key no other signer of the list
  -- has loads: at its own index, with the next number as its id, its own port, and the keys of all signers in order.
  pub load_validator-generate_committee :
      (signers : List Signer) (host : Bytes) (base k : ℕ) (committee : DagCommittee)
      (signer : Signer)
      → length signers < 2 ^ 32
      → generate_committee scheme signers host base ≡ ok committee
      → get_elem? signers k ≡ some signer
      → ((j : ℕ) (other : Signer)
          → get_elem? signers j ≡ some other
          → key_bytes (public_key other) ≡ key_bytes (public_key signer)
          → j ≡ k)
      → (v : LoadedValidator scheme) × (load_validator scheme committee signer ≡ ok v)
        × (v.index ≡ k)
        × (v.id ≡ k + 1)
        × (v.own_port ≡ base + k * 10)
        × (v.committee ≡ map public_key signers)
  load_validator-generate_committee signers host base k committee signer small h e only =
      let g : Generated scheme signers base committee =
        generate_committee-Generated scheme signers host base committee h in
      let (entry, found, there) =
        position-Made base 0 k signers committee.authorities signer g.made e only in
      let at : 0 + k ≡ k = omega arith in
      let (count, id, port, in_mesh, of) =
        generate_committee-ports scheme signers host base k committee entry small h there in
      let (v, loaded, index, v_id, v_port, keys) =
        found_loaded committee signer (map public_key signers) k entry
          (key_long base 0 k signers committee.authorities signer g.made e)
          (found ∙ ap (λ n. some (n, entry)) at)
          (to_mysticeti-Generated signers base committee g) in
      (v, loaded, index, v_id ∙ id, v_port ∙ port, keys)
