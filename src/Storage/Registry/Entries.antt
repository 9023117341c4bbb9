-- ===== src/Storage/Registry/Entries.antt =====
-- The lists of `crates/storage/src/db.rs`: entries of the registry, and handles that are alive.
use kanari_evm.Prelude.{
  ℕ, ◌≡◌, refl, sym, subst, Bool, true, false, ◌&&◌, List, [], ◌∷◌, ◌==◌, Bool-cases, inl, inr,
  some, bytes_eq, bytes_eq_self, bytes_eq→eq, arith, if◌then◌else◌,
}
use kanari_evm.Storage.Registry.{
  PathParts, path_eq, retain, registered, without, is_alive, is_locked, gone,
}

pub path_eq_self : (p : PathParts) → path_eq p p ≡ true
path_eq_self [] = refl
path_eq_self (x ∷ p) = rw (bytes_eq_self x, path_eq_self p) refl

pub path_eq→eq : (p q : PathParts) → path_eq p q ≡ true → p ≡ q
path_eq→eq [] [] h = refl
path_eq→eq [] (y ∷ q) h = cc h
path_eq→eq (x ∷ p) [] h = cc h
path_eq→eq (x ∷ p) (y ∷ q) h = elim (Bool-cases (bytes_eq x y)) [
  | inl e ↦
      let same = bytes_eq→eq x y e in let rest = path_eq→eq p q (rw e at h) in rw (same, rest) refl
  | inr e ↦ cc (rw e at h)
]

-- This handle is alive, with this path.
abbrev pub holds : ℕ → PathParts → List (ℕ × PathParts) → Bool
holds db path [] = false
holds db path ((other, p) ∷ alive) =
    if other == db && path_eq p path then true else holds db path alive

pub holds-is_alive :
    (db : ℕ) (path : PathParts) (alive : List (ℕ × PathParts))
    → holds db path alive ≡ true
    → is_alive db alive ≡ true
holds-is_alive db path [] h = cc h
holds-is_alive db path ((other, p) ∷ alive) h = elim (Bool-cases (other == db)) [
  | inl e ↦ rw e refl
  | inr e ↦ rw e (holds-is_alive db path alive (rw e at h))
]

pub holds-is_locked :
    (db : ℕ) (path : PathParts) (alive : List (ℕ × PathParts))
    → holds db path alive ≡ true
    → is_locked path alive ≡ true
holds-is_locked db path [] h = cc h
holds-is_locked db path ((other, p) ∷ alive) h = elim (Bool-cases (path_eq p path)) [
  | inl e ↦ rw e refl
  | inr e ↦ elim (Bool-cases (other == db)) [
    | inl o ↦ rw e (holds-is_locked db path alive (rw (o, e) at h))
    | inr o ↦ rw e (holds-is_locked db path alive (rw o at h))
  ]
]

pub holds-gone :
    (db other : ℕ) (path : PathParts) (alive : List (ℕ × PathParts))
    → (db == other) ≡ false
    → holds db path alive ≡ true
    → holds db path (gone other alive) ≡ true
holds-gone db other path [] d h = cc h
holds-gone db other path ((x, p) ∷ alive) d h = elim (Bool-cases (x == other)) [
  | inl e ↦
      let same : (x == db) ≡ false = ground arith in
      rw e (holds-gone db other path alive d (rw same at h))
  | inr e ↦ elim (Bool-cases (x == db && path_eq p path)) [
    | inl here ↦ rw (e, here) refl
    | inr later ↦ rw (e, later) (holds-gone db other path alive d (rw later at h))
  ]
]

pub registered-retain :
    (db : ℕ) (path : PathParts) (alive : List (ℕ × PathParts)) (registry : List (PathParts × ℕ))
    → is_alive db alive ≡ true
    → registered path registry ≡ some db
    → registered path (retain alive registry) ≡ some db
unfolding retain
registered-retain db path alive [] a h = cc h
registered-retain db path alive ((p, other) ∷ registry) a h = elim (Bool-cases (path_eq p path)) [
  | inl e ↦
      let k : some other ≡ some db = rw e at h in
      let same : other ≡ db = cc k in rw (same, a, e) refl
  | inr e ↦ elim (Bool-cases (is_alive other alive)) [
    | inl l ↦ rw (l, e) (registered-retain db path alive registry a (rw e at h))
    | inr l ↦ rw l (registered-retain db path alive registry a (rw e at h))
  ]
]

pub registered-without :
    (path other : PathParts) (registry : List (PathParts × ℕ))
    → path_eq other path ≡ false
    → registered path (without other registry) ≡ registered path registry
registered-without path other [] d = refl
registered-without path other ((p, db) ∷ registry) d = elim (Bool-cases (path_eq p other)) [
  | inl e ↦
      let away : path_eq p path ≡ false =
        subst (λ x. path_eq x path ≡ false) (sym (path_eq→eq p other e)) d in
      rw (e, away) (registered-without path other registry d)
  | inr e ↦ rw (e, registered-without path other registry d) refl
]
