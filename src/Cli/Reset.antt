-- ===== src/Cli/Reset.antt =====
-- `cmd_reset` of `crates/kanari-node/src/main.rs`. The removal of an entry is the file system's; the
-- message that is printed is the result.
pub mod Removed
pub mod Outcome
mod Tests
use Prim.Native.String.{String}
use kanari_evm.Prelude.{
  ℕ, Bool, true, false, not, ◌||◌, Option, none, some, List, [], ◌∷◌, ◌+◌, Result, ok, err,
  bytes_eq, if◌then◌else◌,
}
use kanari_evm.Types.Text.{Text, trim}
use kanari_evm.Storage.Keys.{codes}
use kanari_evm.Cli.{Fatal, message, is_state_entry}

-- The name is none where it is not UTF-8.
pub record Entry : Type 0 where
  pub name : Option Text
  pub is_dir : Bool

abbrev pub name_text : Option Text → Text
name_text none = []
name_text (some name) = name

-- An entry of the directory that cannot be read is none, and skipped.
unfoldable pub state_entry : Option Entry → Bool
unfolding is_state_entry
state_entry none = false
state_entry (some entry) = is_state_entry (name_text entry.name)

pub record Removal : Type 0 where
  pub remove_dir_all : Entry → Result String (Unit {0})
  pub remove_file : Entry → Result String (Unit {0})

pub data Reset : Type 0 where
  nothing_to_reset aborted : Reset
  complete : ℕ → Reset

pub record DataDir : Type 0 where
  pub exists : Bool
  pub listing : Result String (List (Option Entry))

abbrev pub one_more : Result Fatal ℕ → Result Fatal ℕ
one_more (ok removed) = ok (removed + 1)
one_more (err e) = err e

module _ (fs : Removal) where
  open fs use {remove_dir_all, remove_file}

  abbrev pub remove_entry : Option Entry → Result String (Unit {0})
  remove_entry none = ok tt
  remove_entry (some entry) = if entry.is_dir then remove_dir_all entry else remove_file entry

  -- Where an entry is not removed, the process ends, and so the later ones stay.
  abbrev pub after_removal :
      Result String (Unit {0})
      → Option Entry
      → List (Option Entry)
      → List (Option Entry) × Result Fatal ℕ
      → List (Option Entry) × Result Fatal ℕ
  after_removal (ok u) entry entries (rest, removed) = (rest, one_more removed)
  after_removal (err e) entry entries r = (entry ∷ entries, err (message "cannot remove"))

  abbrev pub keep_entry :
      Option Entry → List (Option Entry) × Result Fatal ℕ → List (Option Entry) × Result Fatal ℕ
  keep_entry entry (rest, removed) = (entry ∷ rest, removed)

  -- The loop over the entries: what remains, and how many were removed.
  unfoldable pub remove_entries : List (Option Entry) → List (Option Entry) × Result Fatal ℕ
  unfolding state_entry
  remove_entries [] = ([], ok 0)
  remove_entries (entry ∷ entries) =
      let rest = remove_entries entries in
      if state_entry entry
      then after_removal (remove_entry entry) entry entries rest
      else keep_entry entry rest

  abbrev pub completed : Result Fatal ℕ → Result Fatal Reset
  completed (ok removed) = ok (complete removed)
  completed (err e) = err e

  abbrev pub swept_dir : List (Option Entry) × Result Fatal ℕ → Result Fatal Reset × DataDir
  swept_dir (rest, removed) = (completed removed, record { exists = true; listing = ok rest })

  unfoldable pub remove_listed :
      Result String (List (Option Entry)) → DataDir → Result Fatal Reset × DataDir
  unfolding remove_entries
  remove_listed (err e) dir = (err (message "cannot read"), dir)
  remove_listed (ok entries) dir = swept_dir (remove_entries entries)

  -- Whether the answer, where it is read, is YES.
  abbrev pub confirmed : Result String Text → Bool
  confirmed (ok line) = bytes_eq (trim line) (codes "YES")
  confirmed (err e) = false

  unfoldable pub cmd_reset : Bool → Result String Text → DataDir → Result Fatal Reset × DataDir
  unfolding remove_listed
  cmd_reset force line dir =
      if not dir.exists
      then (ok nothing_to_reset, dir)
      else if not (force || confirmed line)
      then (ok aborted, dir)
      else remove_listed dir.listing dir
