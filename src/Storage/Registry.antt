-- ===== src/Storage/Registry.antt =====
-- `open_or_get_db` of `crates/storage/src/db.rs`: one handle for each path. RocksDB itself is a
-- parameter; a handle is a number, and it is alive while somebody holds it. Paths are those of Unix.
pub mod Entries
pub mod Held
pub mod Shared
mod Tests
use Prim.Native.String.{String}
use kanari_evm.Prelude.{
  ℕ, ◌+◌, ◌≡◌, ◌&&◌, Bool, true, false, Option, none, some, List, [], ◌∷◌, ◌++◌, Bytes, bytes_eq,
  Result, ok, err, ◌==◌, if◌then◌else◌,
}
use kanari_evm.Types.Text.{Text}
use kanari_evm.Storage.Keys.{codes}
use kanari_evm.Storage.ChainStore.{StoreError, StoreResult, backend}

-- The components of an absolute path after its root, by which `PathBuf`s are compared: repeated and
-- trailing slashes and single dots make no difference.
abbrev pub PathParts : Type 0
PathParts = List Text

abbrev push_char : ℕ → List Text → List Text
push_char c [] = (c ∷ []) ∷ []
push_char c (piece ∷ pieces) = (c ∷ piece) ∷ pieces

unfoldable pub split_slash : Text → List Text
split_slash [] = [] ∷ []
split_slash (c ∷ s) = let rest = split_slash s in if c == b'/' then [] ∷ rest else push_char c rest

abbrev is_skipped : Text → Bool
is_skipped [] = true
is_skipped (c ∷ []) = c == b'.'
is_skipped (c ∷ d ∷ s) = false

abbrev kept_pieces : List Text → PathParts
kept_pieces [] = []
kept_pieces (piece ∷ pieces) =
    let rest = kept_pieces pieces in if is_skipped piece then rest else piece ∷ rest

unfoldable pub components : Text → PathParts
unfolding split_slash
components path = kept_pieces (split_slash path)

abbrev pub path_eq : PathParts → PathParts → Bool
path_eq [] [] = true
path_eq [] (q ∷ qs) = false
path_eq (p ∷ ps) [] = false
path_eq (p ∷ ps) (q ∷ qs) = bytes_eq p q && path_eq ps qs

-- The registry of paths and weak handles, and the handles that are alive with their paths, each of
-- which holds the lock of its directory.
pub record Opened : Type 0 where
  pub registry : List (PathParts × ℕ)
  pub alive : List (ℕ × PathParts)
  pub next : ℕ

abbrev pub is_alive : ℕ → List (ℕ × PathParts) → Bool
is_alive db [] = false
is_alive db ((other, path) ∷ alive) = if other == db then true else is_alive db alive

-- `retain` of the entries that are alive.
unfoldable pub retain : List (ℕ × PathParts) → List (PathParts × ℕ) → List (PathParts × ℕ)
retain alive [] = []
retain alive ((path, db) ∷ registry) =
    let rest = retain alive registry in if is_alive db alive then (path, db) ∷ rest else rest

abbrev pub registered : PathParts → List (PathParts × ℕ) → Option ℕ
registered path [] = none
registered path ((other, db) ∷ registry) =
    if path_eq other path then some db else registered path registry

-- `insert` replaces what the path had.
abbrev pub without : PathParts → List (PathParts × ℕ) → List (PathParts × ℕ)
without path [] = []
without path ((other, db) ∷ registry) =
    let rest = without path registry in if path_eq other path then rest else (other, db) ∷ rest

abbrev pub is_locked : PathParts → List (ℕ × PathParts) → Bool
is_locked path [] = false
is_locked path ((db, other) ∷ alive) = if path_eq other path then true else is_locked path alive

-- The drop of the last `Arc` of a handle, which closes the database.
abbrev pub gone : ℕ → List (ℕ × PathParts) → List (ℕ × PathParts)
gone db [] = []
gone db ((other, path) ∷ alive) =
    let rest = gone db alive in if other == db then rest else (other, path) ∷ rest

abbrev pub release : ℕ → Opened → Opened
release db w = record w { alive = gone db w.alive }

-- The current directory, the creation of the parent, and `DB::open`, which a directory's lock makes
-- fail.
pub record Rocks : Type 0 where
  pub current_dir : Result String Text
  pub create_parent : PathParts → Result String (Unit {0})
  pub db_open : Bool → PathParts → Result String (Unit {0})
  pub db_open-locked : (path : PathParts) → (e : String) × (db_open true path ≡ err e)

abbrev pub is_relative : Text → Bool
is_relative [] = true
is_relative (c ∷ path) = if c == b'/' then false else true

abbrev pub backend_error : {A : Type 0} → Result String A → StoreResult A
backend_error (ok a) = ok a
backend_error (err e) = err (backend e)

abbrev pub joined : Text → StoreResult Text → StoreResult PathParts
joined path (ok cwd) = ok (components (cwd ++ b'/' ∷ path))
joined path (err e) = err e

module _ (r : Rocks) where
  open r use {current_dir, create_parent, db_open}

  unfoldable pub absolute : Text → StoreResult PathParts
  unfolding components
  absolute path =
      if is_relative path then joined path (backend_error current_dir) else ok (components path)

  -- Under the lock of the registry: what is not alive is forgotten, and the path looked up.
  unfoldable pub look_up : PathParts → Opened → Option ℕ × Opened
  unfolding retain
  look_up path w =
      let kept = retain w.alive w.registry in (registered path kept, record w { registry = kept })

  abbrev pub register : PathParts → StoreResult (Unit {0}) → Opened → StoreResult ℕ × Opened
  register path (err e) w = (err e, w)
  register path (ok u) w = (
    ok w.next,
    record {
      registry = (path, w.next) ∷ without path w.registry;
      alive = (w.next, path) ∷ w.alive;
      next = w.next + 1;
    },
  )

  abbrev pub created : PathParts → StoreResult (Unit {0}) → Opened → StoreResult ℕ × Opened
  created path (err e) w = (err e, w)
  created path (ok u) w = register path (backend_error (db_open (is_locked path w.alive) path)) w

  -- With the lock released: the database is opened, and then registered.
  unfoldable pub create : PathParts → Opened → StoreResult ℕ × Opened
  create path w = created path (backend_error (create_parent path)) w

  abbrev pub found_or : PathParts → Option ℕ × Opened → StoreResult ℕ × Opened
  found_or path (some db, w) = (ok db, w)
  found_or path (none, w) = create path w

  abbrev pub at_path : StoreResult PathParts → Opened → StoreResult ℕ × Opened
  at_path (err e) w = (err e, w)
  at_path (ok path) w = found_or path (look_up path w)

  unfoldable pub open_or_get_db : Text → Opened → StoreResult ℕ × Opened
  unfolding absolute look_up create
  open_or_get_db dir w = at_path (absolute dir) w
