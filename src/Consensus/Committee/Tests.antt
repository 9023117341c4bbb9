-- ===== src/Consensus/Committee/Tests.antt =====
-- A committee of four.
use Prim.Native.String.{String}
use kanari_evm.Prelude.{
  Result, sym, ◌∙◌, ap, last?, zero, suc, ℕ, ◌+◌, ◌*◌, ◌≤◌, ◌≡◌, refl, [], Bytes, ok, some, length,
  get_elem?, arith, map, zero, suc,
}
use kanari_evm.Types.Word.{u16_max}
use kanari_evm.Types.Hex.{hex_encode}
use kanari_evm.Consensus.Committee.{
  DagCommittee, ValidatorEntry, LoadedValidator, generate_committee, make_entries, entry_port,
  encode_pubkey, load_validator,
}
use kanari_evm.Consensus.Committee.Ports.{generate_committee-ports}
use kanari_evm.Consensus.Committee.Members.{load_validator-generate_committee}
use kanari_evm.Samples.Keys.{
  of_tag, of_tag-tagged, SampleKey, south, tagged, sample_keys, four_signers,
}

generating : (c : DagCommittee) × (generate_committee sample_keys four_signers [] 3500 ≡ ok c)
unfolding generate_committee make_entries entry_port encode_pubkey
generating = (_, refl)

third : (entry : ValidatorEntry) × (get_elem? generating.0.authorities 2 ≡ some entry)
unfolding generating
third = (_, refl)

generate_committee-ports_example :
    (length generating.0.authorities ≡ length four_signers)
    × (third.0.id ≡ 2 + 1)
    × (third.0.port ≡ 3500 + 2 * 10)
    × (third.0.port * 10 ≤ u16_max)
    × ((signer : SampleKey) × (get_elem? four_signers 2 ≡ some signer)
        × (third.0.public_key ≡ hex_encode (tagged signer)))
generate_committee-ports_example =
    generate_committee-ports sample_keys four_signers [] 3500 2 generating.0 third.0 (omega arith)
      generating.1 third.1

only_third :
    (j : ℕ) (other : SampleKey)
    → get_elem? four_signers j ≡ some other
    → tagged other ≡ tagged south
    → j ≡ 2
only_third j other g same =
    let e : ◌≡◌ {A = Result String SampleKey} (ok other) (ok south) =
      sym (of_tag-tagged other)
      ∙ ap (λ (bytes : Bytes). of_tag (last? bytes)) same
      ∙ of_tag-tagged south in
    at j (g ∙ ap some (cc e))
  where
    at : (j : ℕ) → get_elem? four_signers j ≡ some south → j ≡ 2
    at zero g = cc g
    at (suc zero) g = cc g
    at (suc (suc zero)) g = refl
    at (suc (suc (suc zero))) g = cc g
    at (suc (suc (suc (suc j)))) g = cc g

load_validator-generate_committee_example :
    (v : LoadedValidator sample_keys) × (load_validator sample_keys generating.0 south ≡ ok v)
    × (v.index ≡ 2)
    × (v.id ≡ 2 + 1)
    × (v.own_port ≡ 3500 + 2 * 10)
    × (v.committee ≡ map (λ key. key) four_signers)
load_validator-generate_committee_example =
    load_validator-generate_committee sample_keys four_signers [] 3500 2 generating.0 south
      (omega arith) generating.1 refl only_third
