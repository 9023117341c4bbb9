-- ===== src/Execution/Open/Steps.antt =====
-- What a step of `open` that reads or writes the database has done where it succeeds.
use kanari_evm.Prelude.{◌≡◌, refl, ap, ok, err, ok_injective}
use kanari_evm.Storage.ChainStore.{StoreResult}
use kanari_evm.Execution.Errors.{NodeResult, from_store}
use kanari_evm.Execution.Machine.{Machine}
use kanari_evm.Execution.Node.{KanariNode}
use kanari_evm.Execution.Open.{put_store}

module _ (m : Machine) where
  open m use {engine}

  abbrev pub Outcome : Type 0 → Type 0
  Outcome A = NodeResult A × KanariNode m

  pub written :
      (r : StoreResult engine.Db) (n n' : KanariNode m) (u : Unit {0})
      → ◌≡◌ {A = Outcome (Unit {0})} (put_store m (from_store r) n) (ok u, n')
      → (db : engine.Db) × (r ≡ ok db) × (record n { store = db } ≡ n')
  written (ok db) n n' u h = (db, refl, ap (λ (p : Outcome (Unit {0})). p.1) h)
  written (err e) n n' u h = cc h

  pub read :
      {A : Type 0} (r : StoreResult A) (n n' : KanariNode m) {a : A}
      → ◌≡◌ {A = Outcome A} (from_store r, n) (ok a, n')
      → (r ≡ ok a) × (n ≡ n')
  read {A} (ok b) n n' h =
      (ap ok (ok_injective (ap (λ (p : Outcome A). p.0) h)), ap (λ (p : Outcome A). p.1) h)
  read (err e) n n' h = cc h
