-- ===== src/Cli/Reset/Tests.antt =====
-- A reset of a data directory at concrete entries.
use Prim.Native.String.{String}
use kanari_evm.Prelude.{
  ◌≡◌, refl, true, false, Option, none, some, List, [], ◌∷◌, ok, err, bytes_eq,
}
use kanari_evm.Types.Text.{trim, trim_end, trim_start, is_whitespace}
use kanari_evm.Storage.Keys.{codes}
use kanari_evm.Storage.Paths.{chain_db_name, stem}
use kanari_evm.Cli.{message, ends_with, is_state_entry}
use kanari_evm.Cli.Reset.{
  Entry, Removal, aborted, complete, DataDir, state_entry, remove_entries, remove_listed, cmd_reset,
}
use kanari_evm.Cli.Reset.Outcome.{Outcome, cmd_reset-Outcome}

abbrev file : String → Option Entry
file name = some (record { name = some (codes name); is_dir = false })

abbrev folder : String → Option Entry
folder name = some (record { name = some (codes name); is_dir = true })

abbrev removal : Removal
removal = record { remove_dir_all = λ entry. ok tt; remove_file = λ entry. ok tt }

-- Directories are in use.
abbrev locked : Removal
locked = record { remove_dir_all = λ entry. err "in use"; remove_file = λ entry. ok tt }

abbrev entries : List (Option Entry)
entries =
    file "state.json"
    ∷ folder "state.chain.db"
    ∷ none
    ∷ file "notes.txt"
    ∷ file "state.faucet.key"
    ∷ folder "dag-wal"
    ∷ []

abbrev data_dir : DataDir
data_dir = record { exists = true; listing = ok entries }

abbrev left : List (Option Entry)
left = none ∷ file "notes.txt" ∷ folder "dag-wal" ∷ []

reset_forced :
    cmd_reset removal true (err "closed") data_dir
    ≡ (ok (complete 3), record { exists = true; listing = ok left })
unfolding cmd_reset remove_listed remove_entries state_entry is_state_entry ends_with bytes_eq
reset_forced = refl

reset_declined : cmd_reset removal false (ok (codes "yes\n")) data_dir ≡ (ok aborted, data_dir)
unfolding cmd_reset bytes_eq trim trim_end trim_start is_whitespace
reset_declined = refl

reset_locked : cmd_reset locked true (err "closed") data_dir ≡ (
  err (message "cannot remove"),
  record {
    exists = true;
    listing = ok (
        folder "state.chain.db"
        ∷ none
        ∷ file "notes.txt"
        ∷ file "state.faucet.key"
        ∷ folder "dag-wal"
        ∷ []);
  },
)
unfolding cmd_reset remove_listed remove_entries state_entry is_state_entry ends_with bytes_eq
reset_locked = refl

-- The answer is trimmed.
reset_confirmed :
    cmd_reset removal false (ok (codes " YES\n")) data_dir
    ≡ (ok (complete 3), record { exists = true; listing = ok left })
unfolding cmd_reset remove_listed remove_entries state_entry is_state_entry ends_with bytes_eq trim
    trim_end trim_start is_whitespace
reset_confirmed = refl

-- Everything after the first dot of the state file's name is dropped.
two_state_files :
    chain_db_name (some (codes "node.1.json")) ≡ chain_db_name (some (codes "node.2.json"))
unfolding chain_db_name stem
two_state_files = refl

cmd_reset-Outcome_example :
    Outcome removal
      (some (codes "state.json"))
      (ok [])
      false
      (ok (codes " YES\n"))
      data_dir
      (cmd_reset removal false (ok (codes " YES\n")) data_dir)
cmd_reset-Outcome_example =
    cmd_reset-Outcome removal (some (codes "state.json")) (ok []) false (ok (codes " YES\n"))
      data_dir
