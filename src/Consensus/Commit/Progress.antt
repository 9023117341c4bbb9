-- ===== src/Consensus/Commit/Progress.antt =====
-- What the execution of a commit does to the chain and to the queue, step by step.
use kanari_evm.Prelude.{
  ℕ, ◌+◌, ◌^◌, ◌<◌, ◌≡◌, refl, sym, ◌∙◌, ap, List, [], ◌∷◌, ◌++◌, Bytes, bytes_eq, ok, err, length,
  length-append, if◌then◌else◌, arith,
}
use mathlib.Core.List.{append_assoc, append-nil}
use kanari_evm.Types.Word.{as_u64}
use kanari_evm.Storage.Records.{SealedBlock}
use kanari_evm.Execution.Machine.{Machine}
use kanari_evm.Execution.Errors.{NodeResult}
use kanari_evm.Execution.Node.{KanariNode, block_number, pending_base_fee}
use kanari_evm.Execution.Seal.{seal_committed}
use kanari_evm.Execution.Seal.Outcome.{Outcome}
use kanari_evm.Execution.Seal.Chain.{IsValid, seal_committed-IsValid, seal_committed-Outcome}
use kanari_evm.Consensus.Commit.{Sweep, after_seal}

-- How often a payload occurs.
abbrev pub occurrences : Bytes → List Bytes → ℕ
occurrences raw [] = 0
occurrences raw (p ∷ payloads) = (if bytes_eq raw p then 1 else 0) + occurrences raw payloads

pub occurrences-append :
    (raw : Bytes) (xs ys : List Bytes)
    → occurrences raw (xs ++ ys) ≡ occurrences raw xs + occurrences raw ys
occurrences-append raw [] ys = omega arith
occurrences-append raw (x ∷ xs) ys = omega (arith, occurrences-append raw xs ys)

abbrev pub txs_of : List SealedBlock → List Bytes
txs_of [] = []
txs_of (b ∷ blocks) = b.txs ++ txs_of blocks

pub txs_of-append : (xs ys : List SealedBlock) → txs_of (xs ++ ys) ≡ txs_of xs ++ txs_of ys
txs_of-append [] ys = refl
txs_of-append (x ∷ xs) ys =
    rw (txs_of-append xs ys) (sym (append_assoc x.txs (txs_of xs) (txs_of ys)))

-- All blocks have one timestamp.
abbrev pub AllAt : ℕ → List SealedBlock → Type 0
AllAt ts [] = Unit {0}
AllAt ts (b ∷ blocks) = (b.timestamp ≡ ts) × AllAt ts blocks

pub AllAt-append :
    (ts : ℕ) (xs ys : List SealedBlock) → AllAt ts xs → AllAt ts ys → AllAt ts (xs ++ ys)
AllAt-append ts [] ys h k = k
AllAt-append ts (x ∷ xs) ys h k = (h.0, AllAt-append ts xs ys h.1 k)

module _ (m : Machine) where
  -- From a node and a queue to a node and a queue: blocks with the given timestamp are appended,
  -- one for each payload that leaves the queue, and the chain stays valid.
  pub record Progress (ts : ℕ) (n n' : KanariNode m) (before after : List Bytes) : Type 0 where
    pub added : List SealedBlock
    pub blocks : n'.blocks ≡ n.blocks ++ added
    pub stamped : AllAt ts added
    pub counted : length added + length after ≡ length before
    pub conserved :
        (raw : Bytes)
        → occurrences raw (txs_of added) + occurrences raw after ≡ occurrences raw before
    pub valid : IsValid m n → length n.blocks + length before < 2 ^ 64 → IsValid m n'

  pub Progress-refl : (ts : ℕ) (n : KanariNode m) (queue : List Bytes) → Progress ts n n queue queue
  Progress-refl ts n queue = record {
    added = [];
    blocks = sym (append-nil n.blocks);
    stamped = tt;
    counted = omega arith;
    conserved = λ raw. omega arith;
    valid = λ v fits. v;
  }

  pub Progress-trans :
      (ts : ℕ) (n1 n2 n3 : KanariNode m) (q1 q2 q3 : List Bytes)
      → Progress ts n1 n2 q1 q2
      → Progress ts n2 n3 q2 q3
      → Progress ts n1 n3 q1 q3
  Progress-trans ts n1 n2 n3 q1 q2 q3 p r = record {
    added = p.added ++ r.added;
    blocks = r.blocks ∙ ap (λ l. l ++ r.added) p.blocks ∙ append_assoc n1.blocks p.added r.added;
    stamped = AllAt-append ts p.added r.added p.stamped r.stamped;
    counted = omega (arith, p.counted, r.counted, length-append p.added r.added);
    conserved = λ raw. omega (
      arith,
      p.conserved raw,
      r.conserved raw,
      occurrences-append raw (txs_of p.added) (txs_of r.added),
      ap (occurrences raw) (txs_of-append p.added r.added),
    );
    valid = λ v fits.
        r.valid (p.valid v fits)
          (omega (arith, ap length p.blocks, length-append n1.blocks p.added, p.counted, fits));
  }

  -- One payload, between those kept before it and those still to come.
  pub Progress-after_seal :
      (ts : ℕ) (raw : Bytes) (rest : List Bytes) (s : Sweep m)
      → let s' : Sweep m = after_seal m s raw (seal_committed m raw ts s.node) in
        Progress ts s.node s'.node (s.still_pending ++ raw ∷ rest) (s'.still_pending ++ rest)
  Progress-after_seal ts raw rest s =
      go (seal_committed m raw ts s.node) (seal_committed-Outcome m raw ts s.node)
        (λ v fits. seal_committed-IsValid m raw ts s.node v fits)
    where
      go :
          (out : NodeResult Bytes × KanariNode m)
          → Outcome m s.node raw
              (block_number m s.node + 1)
              ts
              (as_u64 (pending_base_fee m s.node))
              out
          → (IsValid m s.node → length s.node.blocks + 1 < 2 ^ 64 → IsValid m out.1)
          → Progress ts s.node
              (after_seal m s raw out).node
              (s.still_pending ++ raw ∷ rest)
              ((after_seal m s raw out).still_pending ++ rest)
      go (ok hash, node) o v = record {
        added = o.block ∷ [];
        blocks = o.blocks;
        stamped = (o.stamped, tt);
        counted =
            omega (
              arith,
              length-append s.still_pending rest,
              length-append s.still_pending (raw ∷ rest),
            );
        conserved = λ x. omega (
          arith,
          occurrences-append x s.still_pending rest,
          occurrences-append x s.still_pending (raw ∷ rest),
          ap (λ (l : List Bytes). occurrences x (l ++ [])) o.one_tx,
        );
        valid = λ h fits. v h (omega (arith, length-append s.still_pending (raw ∷ rest), fits));
      }
      go (err e, node) same v = record {
        added = [];
        blocks = same.blocks ∙ sym (append-nil s.node.blocks);
        stamped = tt;
        counted = omega (arith, ap length (append_assoc s.still_pending (raw ∷ []) rest));
        conserved =
            λ x. omega (arith, ap (occurrences x) (append_assoc s.still_pending (raw ∷ []) rest));
        valid = λ h fits. v h (omega (arith, length-append s.still_pending (raw ∷ rest), fits));
      }
