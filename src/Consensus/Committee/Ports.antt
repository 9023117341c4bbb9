-- ===== src/Consensus/Committee/Ports.antt =====
-- The entries that `generate_committee` makes: their ids, ports and keys.
use kanari_evm.Prelude.{
  ℕ, zero, suc, ◌+◌, ◌*◌, ◌%◌, ◌^◌, ◌≤◌, ◌<◌, ◌≡◌, refl, sym, ap, subst, true, some, List, [], ◌∷◌,
  Bytes, ok, length, ltb, ◌==◌, arith, Bool-cases, inl, inr, >>=-eq-ok, get_elem?,
}
use kanari_evm.Types.Word.{u16_max, u32_max, saturating_mul}
use kanari_evm.Types.Hex.{hex_encode}
use kanari_evm.Consensus.Committee.{
  ValidatorEntry, DagCommittee, KeyScheme, entry_port, encode_pubkey, make_entries,
  generate_committee, top_port,
}

-- An entry's port, where it is one: the index as a 16-bit word times ten, above the base.
entry_port-eq-ok :
    (base i port : ℕ)
    → entry_port base i ≡ ok port
    → (port ≡ base + saturating_mul u16_max (i % 2 ^ 16) 10) × (port ≤ u16_max)
unfolding entry_port
entry_port-eq-ok base i port h =
    let p : ℕ = base + saturating_mul u16_max (i % 2 ^ 16) 10 in
    elim (Bool-cases (ltb u16_max p)) [
      | inl over ↦ cc (rw over at h)
      | inr fits ↦ let e : p ≡ port = cc (rw fits at h) in (sym e, ground (arith, e))
    ]

get_elem?-lt : {A : Type 0} (xs : List A) (i : ℕ) {x : A} → get_elem? xs i ≡ some x → i < length xs
get_elem?-lt [] i h = cc h
get_elem?-lt (y ∷ xs) zero h = omega arith
get_elem?-lt (y ∷ xs) (suc i) h = omega (arith, get_elem?-lt xs i h)

module _ (scheme : KeyScheme) where
  open scheme use {Signer, PublicKey, public_key, key_bytes}

  encode_pubkey-eq-ok :
      (key : PublicKey) {hex : List ℕ}
      → encode_pubkey scheme key ≡ ok hex
      → (length (key_bytes key) ≡ 32) × (hex ≡ hex_encode (key_bytes key))
  unfolding encode_pubkey
  encode_pubkey-eq-ok key h = elim (Bool-cases (length (key_bytes key) == 32)) [
    | inl long ↦ (ground arith, cc (rw long at h))
    | inr other ↦ cc (rw other at h)
  ]

  pub encode_pubkey_long :
      (key : PublicKey)
      → length (key_bytes key) ≡ 32
      → encode_pubkey scheme key ≡ ok (hex_encode (key_bytes key))
  unfolding encode_pubkey
  encode_pubkey_long key h =
      let e : (length (key_bytes key) == 32) ≡ true = ground arith in rw e refl

  -- What is written of one signer, with the index of its entry.
  pub record EntryOf (base i : ℕ) (signer : Signer) (entry : ValidatorEntry) : Type 0 where
    pub id : entry.id ≡ i + 1
    pub port : entry.port ≡ base + saturating_mul u16_max (i % 2 ^ 16) 10
    pub port_range : entry.port ≤ u16_max
    pub key_length : length (key_bytes (public_key signer)) ≡ 32
    pub key : entry.public_key ≡ hex_encode (key_bytes (public_key signer))

  -- The signers and the entries, one for one, from an index.
  abbrev pub Made : ℕ → ℕ → List Signer → List ValidatorEntry → Type 0
  Made base i [] [] = Unit {0}
  Made base i [] (entry ∷ entries) = ⊥
  Made base i (signer ∷ signers) [] = ⊥
  Made base i (signer ∷ signers) (entry ∷ entries) =
      EntryOf base i signer entry × Made base (suc i) signers entries

  make_entries-Made :
      (host : Bytes) (base i : ℕ) (signers : List Signer) (entries : List ValidatorEntry)
      → make_entries scheme host base i signers ≡ ok entries
      → Made base i signers entries
  unfolding make_entries
  make_entries-Made host base i [] [] h = tt
  make_entries-Made host base i [] (entry ∷ entries) h = cc h
  make_entries-Made host base i (signer ∷ signers) entries h =
      let (port, p, h1) = >>=-eq-ok (entry_port base i) _ h in
      let (key, k, h2) = >>=-eq-ok (encode_pubkey scheme (public_key signer)) _ h1 in
      let (rest, r, h3) = >>=-eq-ok (make_entries scheme host base (suc i) signers) _ h2 in
      let (port_is, fits) = entry_port-eq-ok base i port p in
      let (long, key_is) = encode_pubkey-eq-ok (public_key signer) k in
      let split : record { id = i + 1; host = host; port = port; public_key = key } ∷ rest
          ≡ entries =
        cc h3 in
      subst (Made base i (signer ∷ signers)) split (
        record { id = refl; port = port_is; port_range = fits; key_length = long; key = key_is },
        make_entries-Made host base (suc i) signers rest r,
      )

  pub length-Made :
      (base i : ℕ) (signers : List Signer) (entries : List ValidatorEntry)
      → Made base i signers entries
      → length entries ≡ length signers
  length-Made base i [] [] h = refl
  length-Made base i [] (entry ∷ entries) h = absurd h
  length-Made base i (signer ∷ signers) [] h = absurd h
  length-Made base i (signer ∷ signers) (entry ∷ entries) h =
      ap suc (length-Made base (suc i) signers entries h.1)

  pub get_elem?-Made :
      (base i k : ℕ) (signers : List Signer) (entries : List ValidatorEntry)
      (entry : ValidatorEntry)
      → Made base i signers entries
      → get_elem? entries k ≡ some entry
      → (signer : Signer) × (get_elem? signers k ≡ some signer) × EntryOf base (i + k) signer entry
  get_elem?-Made base i k [] [] entry h e = cc e
  get_elem?-Made base i k [] (c ∷ entries) entry h e = absurd h
  get_elem?-Made base i k (signer ∷ signers) [] entry h e = absurd h
  get_elem?-Made base i zero (signer ∷ signers) (c ∷ entries) entry h e =
      let same : c ≡ entry = cc e in
      let at : i ≡ i + zero = omega arith in
      (
        signer,
        refl,
        subst (λ k. EntryOf base k signer entry) at (subst (EntryOf base i signer) same h.0),
      )
  get_elem?-Made base i (suc k) (signer ∷ signers) (c ∷ entries) entry h e =
      let (s, g, made) = get_elem?-Made base (suc i) k signers entries entry h.1 e in
      let at : suc i + k ≡ i + suc k = omega arith in
      (s, g, subst (λ k. EntryOf base k s entry) at made)

  -- What a generated committee has passed.
  pub record Generated (signers : List Signer) (base : ℕ) (committee : DagCommittee) : Type 0 where
    pub enough : 4 ≤ length signers
    pub in_mesh : saturating_mul u32_max (top_port (length signers) base) 10 ≤ u16_max
    pub made : Made base 0 signers committee.authorities

  pub generate_committee-Generated :
      (signers : List Signer) (host : Bytes) (base : ℕ) (committee : DagCommittee)
      → generate_committee scheme signers host base ≡ ok committee
      → Generated signers base committee
  unfolding generate_committee
  generate_committee-Generated signers host base committee h =
      elim (Bool-cases (ltb (length signers) 4)) [
        | inl few ↦ cc (rw few at h)
        | inr enough ↦
            elim (Bool-cases
              (ltb u16_max (saturating_mul u32_max (top_port (length signers) base) 10))) [
                | inl over ↦ cc (rw (enough, over) at h)
                | inr fits ↦
                    let (entries, made, h1) =
                      >>=-eq-ok (make_entries scheme host base 0 signers) _
                        (rw (enough, fits) at h) in
                    let e : record { authorities = entries } ≡ committee = cc h1 in
                    record {
                      enough = ground arith;
                      in_mesh = ground arith;
                      made =
                          subst (λ (c : DagCommittee). Made base 0 signers c.authorities) e
                            (make_entries-Made host base 0 signers entries made);
                    }
              ]
      ]

  -- In a generated committee of fewer than 2^32 validators there is one entry for each signer, and the
  -- entry at an index has the next number as its id, a port ten times the index above the base, ten times which is
  -- still a port, and the hex of its signer's key.
  pub generate_committee-ports :
      (signers : List Signer) (host : Bytes) (base i : ℕ) (committee : DagCommittee)
      (entry : ValidatorEntry)
      → length signers < 2 ^ 32
      → generate_committee scheme signers host base ≡ ok committee
      → get_elem? committee.authorities i ≡ some entry
      → (length committee.authorities ≡ length signers)
        × (entry.id ≡ i + 1)
        × (entry.port ≡ base + i * 10)
        × (entry.port * 10 ≤ u16_max)
        × ((signer : Signer) × (get_elem? signers i ≡ some signer)
            × (entry.public_key ≡ hex_encode (key_bytes (public_key signer))))
  generate_committee-ports signers host base i committee entry small h e =
      let g : Generated signers base committee =
        generate_committee-Generated signers host base committee h in
      let (signer, at, made) =
        get_elem?-Made base 0 i signers committee.authorities entry g.made e in
      let inside : i < length committee.authorities = get_elem?-lt committee.authorities i e in
      let count : length committee.authorities ≡ length signers =
        length-Made base 0 signers committee.authorities g.made in
      let port : entry.port ≡ base + i * 10 =
        omega (arith, made.port, g.in_mesh, inside, count, small) in
      (
        count,
        omega (arith, made.id),
        port,
        omega (arith, port, g.in_mesh, inside, count, small),
        (signer, at, made.key),
      )
