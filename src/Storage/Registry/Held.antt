-- ===== src/Storage/Registry/Held.antt =====
-- What the steps of `crates/storage/src/db.rs` keep of a handle that somebody holds.
use kanari_evm.Prelude.{
  ℕ, ◌+◌, ◌≡◌, refl, ap, sym, subst, true, false, ◌∷◌, ◌==◌, Bool-cases, inl, inr, err, some,
  ok_injective, arith, ok,
}
use kanari_evm.Storage.ChainStore.{StoreError, StoreResult, backend}
use kanari_evm.Storage.Registry.{
  PathParts, path_eq, Opened, Rocks, registered, without, is_locked, release, look_up, create,
  backend_error, register, created,
}
use kanari_evm.Storage.Registry.Entries.{
  holds, path_eq_self, path_eq→eq, holds-is_alive, holds-is_locked, holds-gone, registered-retain,
  registered-without,
}

-- The path is registered with this handle, and somebody holds it.
abbrev pub Held : PathParts → ℕ → Opened → Type 0
Held path db w = (holds db path w.alive ≡ true) × (registered path w.registry ≡ some db)

release-Held :
    (path : PathParts) (db other : ℕ) (w : Opened)
    → (db == other) ≡ false
    → Held path db w
    → Held path db (release other w)
release-Held path db other w d (alive, found) = (holds-gone db other path w.alive d alive, found)

module _ (r : Rocks) where
  open r use {create_parent, db_open, db_open-locked}

  abbrev Reply : Type 0
  Reply = StoreResult ℕ × Opened

  look_up-Held :
      (path other : PathParts) (db : ℕ) (w : Opened)
      → Held path db w
      → Held path db (look_up r other w).1
  unfolding look_up
  look_up-Held path other db w (alive, found) = (
    alive,
    registered-retain db path w.alive w.registry (holds-is_alive db path w.alive alive) found,
  )

  pub look_up-found :
      (path : PathParts) (db : ℕ) (w : Opened) → Held path db w → (look_up r path w).0 ≡ some db
  unfolding look_up
  look_up-found path db w (alive, found) =
      registered-retain db path w.alive w.registry (holds-is_alive db path w.alive alive) found

  -- The handle of a new database is registered and held.
  register-Held :
      (path : PathParts) (opened : StoreResult (Unit {0})) (w w' : Opened) (db : ℕ)
      → ◌≡◌ {A = Reply} (register r path opened w) (ok db, w')
      → Held path db w'
  register-Held path (err e) w w' db h = cc h
  register-Held path (ok u) w w' db h =
      let new : Opened = record {
        registry = (path, w.next) ∷ without path w.registry;
        alive = (w.next, path) ∷ w.alive;
        next = w.next + 1;
      } in
      let e : w.next ≡ db = ok_injective (ap (λ (p : Reply). p.0) h) in
      let k : new ≡ w' = ap (λ (p : Reply). p.1) h in
      let own : (w.next == w.next) ≡ true = ground arith in
      let held : Held path w.next new =
        (rw (own, path_eq_self path) refl, rw (path_eq_self path) refl) in
      subst (λ d. Held path d w') e (subst (Held path w.next) k held)

  created-Held :
      (path : PathParts) (parent : StoreResult (Unit {0})) (w w' : Opened) (db : ℕ)
      → ◌≡◌ {A = Reply} (created r path parent w) (ok db, w')
      → Held path db w'
  created-Held path (err e) w w' db h = cc h
  created-Held path (ok u) w w' db h =
      register-Held path (backend_error (db_open (is_locked path w.alive) path)) w w' db h

  pub create-Held :
      (path : PathParts) (w w' : Opened) (db : ℕ) → create r path w ≡ (ok db, w') → Held path db w'
  unfolding create
  create-Held path w w' db h = created-Held path (backend_error (create_parent path)) w w' db h

  created-locked :
      (path : PathParts) (parent : StoreResult (Unit {0})) (w : Opened)
      → is_locked path w.alive ≡ true
      → (e : StoreError) × ◌≡◌ {A = Reply} (created r path parent w) (err e, w)
  created-locked path (err e) w h = (e, refl)
  created-locked path (ok u) w h = let (e, k) = db_open-locked path in (backend e, rw (h, k) refl)

  -- While the handle is held, the database is not opened a second time.
  pub create-locked :
      (path : PathParts) (db : ℕ) (w : Opened)
      → Held path db w
      → (e : StoreError) × (create r path w ≡ (err e, w))
  unfolding create
  create-locked path db w (alive, found) =
      created-locked path (backend_error (create_parent path)) w
        (holds-is_locked db path w.alive alive)

  register-others :
      (path other : PathParts) (db : ℕ) (opened : StoreResult (Unit {0})) (w : Opened)
      → path_eq other path ≡ false
      → Held path db w
      → Held path db (register r other opened w).1
  register-others path other db (err e) w d h = h
  register-others path other db (ok u) w d (alive, found) = (
    elim (Bool-cases (w.next == db)) [ inl e ↦ rw (e, d, alive) refl | inr e ↦ rw (e, alive) refl ],
    rw (d, registered-without path other w.registry d) found,
  )

  created-others :
      (path other : PathParts) (db : ℕ) (parent : StoreResult (Unit {0})) (w : Opened)
      → path_eq other path ≡ false
      → Held path db w
      → Held path db (created r other parent w).1
  created-others path other db (err e) w d h = h
  created-others path other db (ok u) w d h =
      register-others path other db (backend_error (db_open (is_locked other w.alive) other)) w d h

  made-Held :
      (path other : PathParts) (db : ℕ) (w : Opened)
      → Held path db w
      → Held path db (create r other w).1
  unfolding create
  made-Held path other db w h = elim (Bool-cases (path_eq other path)) [
    | inl e ↦
        let (why, k) = create-locked path db w h in
        subst (λ p. Held path db (create r p w).1) (sym (path_eq→eq other path e))
          (subst (λ (p : Reply). Held path db p.1) (sym k) h)
    | inr e ↦ created-others path other db (backend_error (create_parent other)) w e h
  ]

  -- The steps of any threads that open databases, in any order, and of the drop of handles, all but
  -- this one.
  pub data Later (db : ℕ) (w : Opened) : Opened → Type 0 where
    now : Later db w w
    looked : {w' : Opened} (path : PathParts) → Later db w w' → Later db w (look_up r path w').1
    made : {w' : Opened} (path : PathParts) → Later db w w' → Later db w (create r path w').1
    released :
        {w' : Opened} (other : ℕ)
        → (db == other) ≡ false
        → Later db w w'
        → Later db w (release other w')

  pub Later-Held :
      (path : PathParts) (db : ℕ) (w : Opened) {w' : Opened}
      → Held path db w
      → Later db w w'
      → Held path db w'
  Later-Held path db w h now = h
  Later-Held path db w h (looked {w'} other l) =
      look_up-Held path other db w' (Later-Held path db w h l)
  Later-Held path db w h (made {w'} other l) = made-Held path other db w' (Later-Held path db w h l)
  Later-Held path db w h (released {w'} other d l) =
      release-Held path db other w' d (Later-Held path db w h l)
