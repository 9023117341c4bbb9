-- ===== src/Consensus/Commit/Sweeps.antt =====
-- One sweep over the queue, and sweeps until none makes progress.
use mathlib.Core.List.{append_assoc, append-nil}
use kanari_evm.Prelude.{
  ℕ, zero, suc, ◌+◌, ◌≤◌, ◌<◌, ◌≡◌, refl, sym, ◌∙◌, ap, subst, true, false, not, ◌||◌, Bool-cases,
  ◌⊎◌, inl, inr, Option, some, List, [], ◌∷◌, ◌++◌, Bytes, ok, err, length, length-append, arith,
  is_empty,
}
use kanari_evm.Execution.Machine.{Machine}
use kanari_evm.Execution.Errors.{NodeError, NodeResult}
use kanari_evm.Execution.Node.{KanariNode}
use kanari_evm.Execution.Seal.{seal_committed}
use kanari_evm.Consensus.Commit.{Sweep, after_seal, sweep, start, fixation}
use kanari_evm.Consensus.Commit.Progress.{
  Progress, Progress-refl, Progress-trans, Progress-after_seal,
}

is_empty→nil : (queue : List Bytes) → is_empty queue ≡ true → queue ≡ []
is_empty→nil [] h = refl
is_empty→nil (raw ∷ queue) h = cc h

module _ (m : Machine) where
  -- Every payload of the queue fails, one after the other, from the first node to the second.
  pub data AllFail (ts : ℕ) : List Bytes → KanariNode m → KanariNode m → Type 0 where
    none_left : {n : KanariNode m} → AllFail ts [] n n
    fails :
        {n n1 n2 : KanariNode m} {raw : Bytes} {e : NodeError} {rest : List Bytes}
        → seal_committed m raw ts n ≡ (err e, n1)
        → AllFail ts rest n1 n2
        → AllFail ts (raw ∷ rest) n n2

  sweep-Progress :
      (ts : ℕ) (queue : List Bytes) (s : Sweep m)
      → Progress m ts s.node
          (sweep m ts queue s).node
          (s.still_pending ++ queue)
          (sweep m ts queue s).still_pending
  unfolding sweep
  sweep-Progress ts [] s =
      subst (λ q. Progress m ts s.node s.node (s.still_pending ++ []) q)
        (append-nil s.still_pending) (Progress-refl m ts s.node (s.still_pending ++ []))
  sweep-Progress ts (raw ∷ rest) s =
      let s' : Sweep m = after_seal m s raw (seal_committed m raw ts s.node) in
      Progress-trans m ts s.node s'.node (sweep m ts rest s').node (s.still_pending ++ raw ∷ rest)
        (s'.still_pending ++ rest) (sweep m ts rest s').still_pending
        (Progress-after_seal m ts raw rest s) (sweep-Progress ts rest s')

  -- The counter and the flag say what happened.
  abbrev Told : ℕ → List Bytes → Sweep m → Sweep m → Type 0
  Told ts queue s s' =
      (s'.sealed + length s'.still_pending ≡ s.sealed + length s.still_pending + length queue)
      × (s.sealed ≤ s'.sealed)
      × ((s'.progress ≡ true) × ((s.progress ≡ true) ⊎ (s.sealed < s'.sealed))
          ⊎ (s'.progress ≡ false)
            × (s.progress ≡ false)
            × (s'.sealed ≡ s.sealed)
            × (s'.still_pending ≡ s.still_pending ++ queue)
            × AllFail ts queue s.node s'.node)

  sweep-Told : (ts : ℕ) (queue : List Bytes) (s : Sweep m) → Told ts queue s (sweep m ts queue s)
  unfolding sweep
  sweep-Told ts [] s = (
    omega arith,
    omega arith,
    elim (Bool-cases s.progress) [
      | inl did ↦ inl (did, inl did)
      | inr idle ↦ inr (idle, idle, refl, sym (append-nil s.still_pending), none_left)
    ],
  )
  sweep-Told ts (raw ∷ rest) s =
      go (λ t. sweep-Told ts rest t) (seal_committed m raw ts s.node) refl
    where
      go :
          ((t : Sweep m) → Told ts rest t (sweep m ts rest t))
          → (out : NodeResult Bytes × KanariNode m) → seal_committed m raw ts s.node ≡ out
          → Told ts (raw ∷ rest) s (sweep m ts rest (after_seal m s raw out))
      go told (ok hash, node) h =
          let (count, more, flag) = told (after_seal m s raw (ok hash, node)) in
          (
            omega (arith, count),
            omega (arith, more),
            elim flag [
              | inl (did, why) ↦ inl (did, inr (omega (arith, more)))
              | inr (idle, before, same, kept, all) ↦ cc before
            ],
          )
      go told (err e, node) h =
          let (count, more, flag) = told (after_seal m s raw (err e, node)) in
          (
            omega (arith, count, length-append s.still_pending (raw ∷ [])),
            more,
            elim flag [
              | inl (did, why) ↦ inl (did, why)
              | inr (idle, before, same, kept, all) ↦ inr (
                idle,
                before,
                same,
                kept ∙ append_assoc s.still_pending (raw ∷ []) rest,
                fails h all,
              )
            ],
          )

  module _ (fuel ts : ℕ) (pending : List Bytes) (node : KanariNode m) (sealed : ℕ) where
    abbrev swept : Sweep m
    swept = sweep m ts pending (start m node sealed)

    fixation_stop :
        (not swept.progress || is_empty swept.still_pending) ≡ true
        → fixation m (suc fuel) ts pending node sealed ≡ some swept
    unfolding fixation
    fixation_stop h = rw h refl

    fixation_again :
        (not swept.progress || is_empty swept.still_pending) ≡ false
        → fixation m (suc fuel) ts pending node sealed
          ≡ fixation m fuel ts swept.still_pending swept.node swept.sealed
    unfolding fixation
    fixation_again h = rw h refl

  -- How the loop ends: with an empty queue, or with one whose payloads have all just failed.
  abbrev pub Fixed : ℕ → Sweep m → Type 0
  Fixed ts s = (s.still_pending ≡ []) ⊎ ((n : KanariNode m) × AllFail ts s.still_pending n s.node)

  abbrev pub Settles : ℕ → List Bytes → KanariNode m → ℕ → Option (Sweep m) → Type 0
  Settles ts pending node sealed out =
      (s : Sweep m) × (out ≡ some s)
      × Progress m ts node s.node pending s.still_pending
      × (s.sealed + length s.still_pending ≡ sealed + length pending)
      × Fixed ts s

  -- With fuel for one round more than the queue has payloads, the loop ends.
  pub fixation-Settles :
      (fuel ts : ℕ) (pending : List Bytes) (node : KanariNode m) (sealed : ℕ)
      → length pending < fuel
      → Settles ts pending node sealed (fixation m fuel ts pending node sealed)
  fixation-Settles zero ts pending node sealed h = absurd (omega (arith, h))
  fixation-Settles (suc fuel) ts pending node sealed h =
      let s : Sweep m = sweep m ts pending (start m node sealed) in
      let p : Progress m ts node s.node pending s.still_pending =
        sweep-Progress ts pending (start m node sealed) in
      let (count, more, flag) = sweep-Told ts pending (start m node sealed) in
      elim flag [
        | inr (idle, before, same, kept, all) ↦ (
          s,
          fixation_stop fuel ts pending node sealed
              (ap (λ b. not b || is_empty s.still_pending) idle),
          p,
          omega (arith, count),
          inr (node, subst (λ q. AllFail ts q node s.node) (sym kept) all),
        )
        | inl (did, why) ↦ elim (Bool-cases (is_empty s.still_pending)) [
          | inl done ↦ (
            s,
            fixation_stop fuel ts pending node sealed (cc (did, done)),
            p,
            omega (arith, count),
            inl (is_empty→nil s.still_pending done),
          )
          | inr left ↦
              let less : sealed < s.sealed = elim why [ inl bad ↦ cc bad | inr l ↦ l ] in
              let (t, e, q, kept, fixed) =
                fixation-Settles fuel ts s.still_pending s.node s.sealed
                  (omega (arith, count, less, h)) in
              (
                t,
                fixation_again fuel ts pending node sealed (cc (did, left)) ∙ e,
                Progress-trans m ts node s.node t.node pending s.still_pending t.still_pending p q,
                omega (arith, count, kept),
                fixed,
              )
        ]
      ]
