-- ===== src/Execution/Action.antt =====
-- Methods that change an object and may fail: what was changed before a failure stays changed.
use mathlib.Core.Path.{◌≡◌, refl, ap}
use kanari_evm.Prelude.{ok, err}
use kanari_evm.Execution.Errors.{NodeError, NodeResult}

abbrev pub Action : Type 0 → Type 0 → Type 0
Action S A = S → NodeResult A × S

module _ {S A : Type 0} where
  abbrev pub pure : A → Action S A
  pure a s = (ok a, s)

  abbrev pub lift : NodeResult A → Action S A
  lift r s = (r, s)

  abbrev pub gets : (S → A) → Action S A
  gets f s = (ok (f s), s)

abbrev pub modify : {S : Type 0} → (S → S) → Action S (Unit {0})
modify f s = (ok tt, f s)

ok-ne-err : {A : Type 0} {a : A} {e : NodeError} → ◌≡◌ {A = NodeResult A} (err e) (ok a) → ⊥
ok-ne-err h = cc h

module _ {S A B : Type 0} where
  abbrev pub continue : NodeResult A → (A → Action S B) → Action S B
  continue (ok a) f s = f a s
  continue (err e) f s = (err e, s)

  infixl 5 ◌>>=◌ ◌>>◌
  abbrev pub ◌>>=◌ : Action S A → (A → Action S B) → Action S B
  ◌>>=◌ m f s = let (r, s') = m s in continue r f s'

  abbrev pub ◌>>◌ : Action S A → Action S B → Action S B
  m >> k = m >>= λ _. k

  -- A statement about the result of a chain, from the results of its first step.
  pub bind_post :
      (R : NodeResult B × S → Type 0) (m : Action S A) (f : A → Action S B) (s : S)
      → ((a : A) (s' : S) → m s ≡ (ok a, s') → R (f a s'))
      → ((e : NodeError) (s' : S) → m s ≡ (err e, s') → R (err e, s'))
      → R ((m >>= f) s)
  bind_post R m f s on_ok on_err = go (m s) refl
    where
      go : (p : NodeResult A × S) → m s ≡ p → R (continue p.0 f p.1)
      go (ok a, s') h = on_ok a s' h
      go (err e, s') h = on_err e s' h

  -- A chain that succeeds has succeeded at its first step.
  pub bind-eq-ok :
      (m : Action S A) (f : A → Action S B) (s : S) {b : B} {end : S}
      → (m >>= f) s ≡ (ok b, end)
      → (a : A) × (mid : S) × (m s ≡ (ok a, mid)) × (f a mid ≡ (ok b, end))
  bind-eq-ok m f s {b} {end} h = go (m s) refl h
    where
      go :
          (p : NodeResult A × S)
          → m s ≡ p
          → continue p.0 f p.1 ≡ (ok b, end)
          → (a : A) × (mid : S) × (m s ≡ (ok a, mid)) × (f a mid ≡ (ok b, end))
      go (ok a, mid) e k = (a, mid, e, k)
      go (err why, mid) e k = absurd (ok-ne-err (ap (λ (r : NodeResult B × S). r.0) k))
