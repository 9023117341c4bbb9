-- ===== src/Rpc/Params/Ranges.antt =====
-- The range of a log filter, `log_block_range` of `crates/server_rpc/src/rpc.rs`.
use kanari_evm.Prelude.{
  ℕ, suc, ◌+◌, ◌≤◌, min, max, ◌≡◌, refl, ap, Bool, Option, none, some, List, [], ◌∷◌, Bytes, ok,
  length, find, arith, Bool-cases, inl, inr, bytes_eq, >>=-eq-ok,
}
use kanari_evm.Storage.Records.{SealedBlock}
use kanari_evm.Json.{Value, Fields}
use kanari_evm.Execution.Machine.{Machine}
use kanari_evm.Execution.Node.{KanariNode, block_number, block_by_hash}
use kanari_evm.Execution.Seal.{genesis_hash}
use kanari_evm.Execution.Seal.Chain.{LinkedFrom, IsValid, next_number}
use kanari_evm.Rpc.Forms.{Forms}
use kanari_evm.Rpc.Params.{
  Parsed, parse_hash, bound_value, pinned_range, range_from, log_range_from_json,
}

module _ (forms : Forms) (m : Machine) where
  find-le :
      (p : SealedBlock → Bool) (number : ℕ) (parent : Bytes) (blocks : List SealedBlock)
      (b : SealedBlock)
      → LinkedFrom m parent number blocks
      → find p blocks ≡ some b
      → b.number + 1 ≤ number + length blocks
  find-le p number parent [] b h e = cc e
  find-le p number parent (c ∷ blocks) b h e = elim (Bool-cases (p c)) [
    | inl here ↦
        let same : c ≡ b = cc (rw here at e) in
        omega (arith, ap (λ (d : SealedBlock). d.number) same, h.0.numbered)
    | inr further ↦ omega (arith, find-le p (suc number) c.hash blocks b h.1 (rw further at e))
  ]

  pinned_range-le :
      (latest : ℕ) (found : Option SealedBlock) {from to : ℕ}
      → ((b : SealedBlock) → found ≡ some b → b.number ≤ latest)
      → pinned_range forms m found ≡ ok (from, to)
      → to ≤ latest
  pinned_range-le latest none le h = cc h
  pinned_range-le latest (some b) {from} {to} le h =
      let e : ◌≡◌ {A = Parsed (ℕ × ℕ)} (ok (b.number, b.number)) (ok (from, to)) = h in
      let same : b.number ≡ to = cc e in omega (arith, same, le b refl)

  range_from-le :
      (latest : ℕ) (node : KanariNode m) (hash from_v to_v : Option Value) {from to : ℕ}
      → ((h : Bytes) (b : SealedBlock) → block_by_hash m node h ≡ some b → b.number ≤ latest)
      → range_from forms m latest node hash from_v to_v ≡ ok (from, to)
      → to ≤ latest
  range_from-le latest node (some v) from_v to_v le h =
      let (hash, e, h1) = >>=-eq-ok (parse_hash forms v) _ h in
      pinned_range-le latest (block_by_hash m node hash) (le hash) h1
  range_from-le latest node none from_v to_v {from} {to} le h =
      let (a, e, h1) = >>=-eq-ok (bound_value forms latest from_v) _ h in
      let (z, e1, h2) = >>=-eq-ok (bound_value forms latest to_v) _ h1 in
      let e2 : min (max z a) latest ≡ to = cc h2 in omega (arith, e2)

  -- On a valid node a range never goes past the latest block, whatever the filter asks for.
  pub log_range_from_json-le :
      (filter : Fields) (node : KanariNode m) {from to : ℕ}
      → IsValid m node
      → log_range_from_json forms m filter (block_number m node) node ≡ ok (from, to)
      → to ≤ block_number m node
  unfolding log_range_from_json block_by_hash
  log_range_from_json-le filter node v h =
      range_from-le (block_number m node) node _ _ _
        (λ hash b found. omega (
          arith,
          next_number m node v,
          find-le (λ (c : SealedBlock). bytes_eq c.hash hash) 1 (genesis_hash m) node.blocks b
              v.chain found,
        ))
        h
