-- ===== src/Execution/Seal/Chain.antt =====
-- The chain of a node: numbered from 1, linked by parent hashes, one transaction in each block, and
-- the same in memory and on disk.
use kanari_evm.Prelude.{
  ℕ, suc, ◌+◌, ◌^◌, ◌<◌, ◌≡◌, refl, sym, ◌∙◌, ap, Option, none, some, List, [], ◌∷◌, ◌++◌, Bytes,
  ok, err, length, last?, arith, subst,
}
use kanari_evm.Types.Word.{as_u64}
use kanari_evm.Storage.Keys.{block_key, meta_height}
use kanari_evm.Storage.Records.{SealedBlock}
use kanari_evm.Storage.ChainStore.History.{Holds, Holds-save_block, Holds-same}
use kanari_evm.Execution.Machine.{Machine}
use kanari_evm.Execution.Errors.{NodeResult}
use kanari_evm.Execution.Node.{
  KanariNode, Mailbox, block_number, latest_number, number_or_zero, pending_base_fee,
}
use kanari_evm.Execution.Seal.{
  seal_raw, seal_committed, send_raw_transaction, send_in_mode, queued, try_send, next_parent_hash,
  genesis_hash, block_hash,
}
use kanari_evm.Execution.Seal.Outcome.{Sealed, Outcome, seal_raw_with_fee-Outcome}
use kanari_evm.Execution.Seal.SameChain.{SameChain}

module _ (m : Machine) where
  open m use {engine}

  -- A block that follows a given parent.
  pub record Follows (parent : Bytes) (number : ℕ) (b : SealedBlock) : Type 0 where
    pub numbered : b.number ≡ number
    pub linked : b.parent_hash ≡ parent
    pub hashed : b.hash ≡ block_hash m parent number b.timestamp
    pub raw : Bytes
    pub one_tx : b.txs ≡ raw ∷ []

  abbrev pub LinkedFrom : Bytes → ℕ → List SealedBlock → Type 0
  LinkedFrom parent number [] = Unit {0}
  LinkedFrom parent number (b ∷ blocks) =
      Follows parent number b × LinkedFrom b.hash (suc number) blocks

  abbrev pub IsChain : List SealedBlock → Type 0
  IsChain blocks = LinkedFrom (genesis_hash m) 1 blocks

  abbrev pub hash_or : Bytes → Option SealedBlock → Bytes
  hash_or parent none = parent
  hash_or parent (some b) = b.hash

  hash_or-last :
      (p q : Bytes) (b : SealedBlock) (blocks : List SealedBlock)
      → hash_or p (last? (b ∷ blocks)) ≡ hash_or q (last? (b ∷ blocks))
  hash_or-last p q b [] = refl
  hash_or-last p q b (c ∷ blocks) = hash_or-last p q c blocks

  pub hash_or-genesis :
      (blocks : List SealedBlock)
      → next_parent_hash m blocks ≡ hash_or (genesis_hash m) (last? blocks)
  unfolding next_parent_hash
  hash_or-genesis [] = refl
  hash_or-genesis (b ∷ []) = refl
  hash_or-genesis (b ∷ c ∷ blocks) = hash_or-genesis (c ∷ blocks)

  LinkedFrom-append :
      (parent : Bytes) (number : ℕ) (blocks : List SealedBlock) (b : SealedBlock)
      → LinkedFrom parent number blocks
      → Follows (hash_or parent (last? blocks)) (length blocks + number) b
      → LinkedFrom parent number (blocks ++ b ∷ [])
  LinkedFrom-append parent number [] b h f =
      let e : 0 + number ≡ number = omega arith in (subst (λ k. Follows parent k b) e f, tt)
  LinkedFrom-append parent number (c ∷ []) b h f =
      let e : 1 + number ≡ suc number = omega arith in
      (h.0, (subst (λ k. Follows c.hash k b) e f, tt))
  LinkedFrom-append parent number (c ∷ d ∷ blocks) b h f =
      let e : length (c ∷ d ∷ blocks) + number ≡ length (d ∷ blocks) + suc number = omega arith in
      (
        h.0,
        LinkedFrom-append c.hash (suc number) (d ∷ blocks) b h.1 (
            subst (λ k. Follows (hash_or c.hash (last? (d ∷ blocks))) k b) e
              (subst (λ p. Follows p (length (c ∷ d ∷ blocks) + number) b)
                (hash_or-last parent c.hash d blocks) f)),
      )

  -- The number of the last block is the length of the chain.
  last_number :
      (parent : Bytes) (number : ℕ) (b : SealedBlock) (blocks : List SealedBlock)
      → LinkedFrom parent number (b ∷ blocks)
      → number_or_zero (last? (b ∷ blocks)) ≡ length blocks + number
  last_number parent number b [] h = omega (arith, h.0.numbered)
  last_number parent number b (c ∷ blocks) h =
      omega (arith, last_number b.hash (suc number) c blocks h.1)

  pub latest_number-length :
      (blocks : List SealedBlock) → IsChain blocks → latest_number blocks ≡ length blocks
  unfolding latest_number
  latest_number-length [] h = refl
  latest_number-length (b ∷ blocks) h = omega (arith, last_number (genesis_hash m) 1 b blocks h)

  -- The node's invariant.
  pub record IsValid (n : KanariNode m) : Type 0 where
    pub chain : IsChain n.blocks
    pub stored : Holds engine n.store n.blocks

  pub Holds-SameChain :
      (n n' : KanariNode m)
      → SameChain m n n'
      → {blocks : List SealedBlock} → Holds engine n.store blocks
      → Holds engine n'.store blocks
  unfolding block_key
  Holds-SameChain n n' same h =
      Holds-same engine n.store n'.store (same.stored meta_height (omega arith, omega arith))
        (λ k. same.stored (block_key k) (omega arith, omega arith)) h

  SameChain-IsValid : (n n' : KanariNode m) → SameChain m n n' → IsValid n → IsValid n'
  SameChain-IsValid n n' same v = record {
    chain = subst IsChain (sym same.blocks) v.chain;
    stored = subst (Holds engine n'.store) (sym same.blocks) (Holds-SameChain n n' same v.stored);
  }

  Sealed-Follows :
      (n n' : KanariNode m) (raw : Bytes) (number timestamp base_fee : ℕ) (hash : Bytes)
      → number ≡ length n.blocks + 1
      → (s : Sealed m n raw number timestamp base_fee hash n')
      → Follows (hash_or (genesis_hash m) (last? n.blocks)) (length n.blocks + 1) s.block
  Sealed-Follows n n' raw number timestamp base_fee hash next s =
      let parent : s.block.parent_hash ≡ hash_or (genesis_hash m) (last? n.blocks) =
        s.linked ∙ hash_or-genesis n.blocks in
      record {
        numbered = omega (arith, s.numbered, next);
        linked = parent;
        hashed = cc (s.hashed, parent, next, s.stamped);
        raw = raw;
        one_tx = s.one_tx;
      }

  Sealed-IsValid :
      (n n' : KanariNode m) (raw : Bytes) (number timestamp base_fee : ℕ) (hash : Bytes)
      → number ≡ length n.blocks + 1
      → number < 2 ^ 64
      → IsValid n
      → Sealed m n raw number timestamp base_fee hash n'
      → IsValid n'
  Sealed-IsValid n n' raw number timestamp base_fee hash next fits v s = record {
    chain = subst IsChain (sym s.blocks) (
        LinkedFrom-append (genesis_hash m) 1 n.blocks s.block v.chain
          (Sealed-Follows n n' raw number timestamp base_fee hash next s));
    stored = subst (Holds engine n'.store) (sym s.blocks) (
        Holds-save_block engine s.before.store n'.store s.block ((hash, s.receipt) ∷ []) s.saved
          (omega (arith, s.numbered)) n.blocks (Holds-SameChain n s.before s.same v.stored)
          (omega (arith, s.numbered)));
  }

  Outcome-IsValid :
      (n : KanariNode m) (raw : Bytes) (number timestamp base_fee : ℕ)
      → number ≡ length n.blocks + 1
      → number < 2 ^ 64
      → IsValid n
      → (out : NodeResult Bytes × KanariNode m) → Outcome m n raw number timestamp base_fee out
      → IsValid out.1
  Outcome-IsValid n raw number timestamp base_fee next fits v (ok hash, n') s =
      Sealed-IsValid n n' raw number timestamp base_fee hash next fits v s
  Outcome-IsValid n raw number timestamp base_fee next fits v (err e, n') same =
      SameChain-IsValid n n' same v

  pub next_number : (n : KanariNode m) → IsValid n → block_number m n + 1 ≡ length n.blocks + 1
  unfolding block_number
  next_number n v = ap (λ k. k + 1) (latest_number-length n.blocks v.chain)

  -- What `seal_committed` does to the node.
  pub seal_committed-Outcome :
      (raw : Bytes) (timestamp : ℕ) (n : KanariNode m)
      → Outcome m n raw
          (block_number m n + 1)
          timestamp
          (as_u64 (pending_base_fee m n))
          (seal_committed m raw timestamp n)
  unfolding seal_committed seal_raw
  seal_committed-Outcome raw timestamp n =
      seal_raw_with_fee-Outcome m raw (block_number m n + 1) timestamp
        (as_u64 (pending_base_fee m n)) n

  -- `seal_committed` keeps the chain valid, in memory and on disk, whether it seals or fails.
  pub seal_committed-IsValid :
      (raw : Bytes) (timestamp : ℕ) (n : KanariNode m)
      → IsValid n
      → length n.blocks + 1 < 2 ^ 64
      → IsValid (seal_committed m raw timestamp n).1
  seal_committed-IsValid raw timestamp n v fits =
      Outcome-IsValid n raw (block_number m n + 1) timestamp (as_u64 (pending_base_fee m n))
        (next_number n v) (omega (arith, next_number n v)) v (seal_committed m raw timestamp n)
        (seal_committed-Outcome raw timestamp n)

  -- `send_raw_transaction` keeps the chain valid in either mode: it seals a block, or queues the
  -- transaction, or fails.
  pub send_raw_transaction-IsValid :
      (now_secs : ℕ) (raw : Bytes) (n : KanariNode m)
      → IsValid n
      → length n.blocks + 1 < 2 ^ 64
      → IsValid (send_raw_transaction m now_secs raw n).1
  unfolding send_raw_transaction seal_raw
  send_raw_transaction-IsValid now_secs raw n v fits = in_mode n.dag_sender
    where
      sent : (sender : Option Mailbox) → IsValid (queued m raw sender n).1
      sent none = v
      sent (some sender) = record { chain = v.chain; stored = v.stored }

      in_mode : (sender : Option Mailbox) → IsValid (send_in_mode m now_secs raw sender n).1
      in_mode none =
          Outcome-IsValid n raw (block_number m n + 1) now_secs (as_u64 (pending_base_fee m n))
            (next_number n v) (omega (arith, next_number n v)) v _
            (seal_raw_with_fee-Outcome m raw (block_number m n + 1) now_secs
              (as_u64 (pending_base_fee m n)) n)
      in_mode (some sender) = sent (try_send (raw ∷ []) sender)
