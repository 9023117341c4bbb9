-- ===== src/Cli/Reset/Outcome.antt =====
-- What `cmd_reset` of `crates/kanari-node/src/main.rs` comes to.
use kanari_evm.Prelude.{
  bytes_eq_self, bytes_eq→eq, ℕ, ◌≡◌, refl, ap, Bool, true, false, not, ◌||◌, Bool-cases, inl, inr,
  Option, List, ◌+◌, Result, ok, err, length, if◌then◌else◌, ◌⊎◌,
}
use Prim.Native.String.{String}
use kanari_evm.Types.Text.{Text, trim}
use kanari_evm.Storage.Keys.{codes}
use kanari_evm.Cli.{Fatal}
use kanari_evm.Cli.Reset.{
  Entry, Removal, Reset, nothing_to_reset, aborted, complete, DataDir, swept_dir, remove_listed,
  confirmed, cmd_reset,
}
use kanari_evm.Cli.Reset.Removed.{
  kept, NoDatabase, kept-NoDatabase, Sweeps, remove_entries-Sweeps, remove_entries-kept,
}

module _ (fs : Removal) where
  -- The directory after a reset that completes. A second reset would find nothing.
  abbrev pub Cleared :
      Option Text → Result String Text → Result String (List (Option Entry)) → ℕ → DataDir → Type 0
  Cleared file line listing removed dir' =
      (entries : List (Option Entry)) × (listing ≡ ok entries)
      × (dir'.listing ≡ ok (kept entries))
      × (removed + length (kept entries) ≡ length entries)
      × NoDatabase file (kept entries)
      × (cmd_reset fs true line dir' ≡ (ok (complete 0), dir'))

  -- Where a reset fails, entries that are no state remain all the same.
  abbrev pub KeepsRest : Result String (List (Option Entry)) → DataDir → Type 0
  KeepsRest listing dir' =
      (entries rest : List (Option Entry)) × (listing ≡ ok entries)
      × (dir'.listing ≡ ok rest)
      × (kept rest ≡ kept entries)

  -- What has started: every reset that completes or fails.
  abbrev pub Removes :
      Option Text → Result String Text → DataDir → Result Fatal Reset × DataDir → Type 0
  Removes file line dir (ok nothing_to_reset, dir') = ⊥
  Removes file line dir (ok aborted, dir') = ⊥
  Removes file line dir (ok (complete n), dir') = Cleared file line dir.listing n dir'
  Removes file line dir (err e, dir') = (dir' ≡ dir) ⊎ KeepsRest dir.listing dir'

  -- The line that was read is YES, but for white space around it.
  abbrev pub SaysYes : Result String Text → Type 0
  SaysYes (ok line) = trim line ≡ codes "YES"
  SaysYes (err e) = ⊥

  abbrev pub Outcome :
      Option Text
      → Result String Text
      → Bool
      → Result String Text
      → DataDir
      → Result Fatal Reset × DataDir
      → Type 0
  Outcome file again force line dir r =
      ((dir.exists ≡ false) × (r ≡ (ok nothing_to_reset, dir)))
      ⊎ ((dir.exists ≡ true) × (force ≡ false) × ¬ SaysYes line × (r ≡ (ok aborted, dir)))
      ⊎ ((dir.exists ≡ true) × ((force ≡ true) ⊎ SaysYes line) × Removes file again dir r)

  swept_dir-Removes :
      (file : Option Text) (line : Result String Text) (dir : DataDir)
      (entries : List (Option Entry)) (p : List (Option Entry) × Result Fatal ℕ)
      → dir.listing ≡ ok entries
      → Sweeps fs entries p
      → Removes file line dir (swept_dir fs p)
  unfolding cmd_reset remove_listed
  swept_dir-Removes file line dir entries (rest, ok removed) e (left, count) = (
    entries,
    e,
    ap ok left,
    rw (← left) count,
    kept-NoDatabase file entries,
    rw (left, remove_entries-kept fs entries) refl,
  )
  swept_dir-Removes file line dir entries (rest, err x) e h = inr (entries, rest, e, refl, h)

  remove_listed-Removes :
      (file : Option Text) (line : Result String Text) (dir : DataDir)
      (listing : Result String (List (Option Entry)))
      → dir.listing ≡ listing
      → Removes file line dir (remove_listed fs listing dir)
  unfolding remove_listed
  remove_listed-Removes file line dir (err x) e = inl refl
  remove_listed-Removes file line dir (ok entries) e =
      swept_dir-Removes file line dir entries _ e (remove_entries-Sweeps fs entries)

  confirmed-true : (line : Result String Text) → confirmed fs line ≡ true → SaysYes line
  confirmed-true (ok line) e = bytes_eq→eq (trim line) (codes "YES") e
  confirmed-true (err x) e = cc e

  confirmed-false : (line : Result String Text) → confirmed fs line ≡ false → SaysYes line → ⊥
  confirmed-false (ok line) e h = let t = bytes_eq_self (trim line) in cc (e, h, t)
  confirmed-false (err x) e h = h

  proceeds :
      (file : Option Text) (again : Result String Text) (force : Bool) (line : Result String Text)
      (dir : DataDir)
      → dir.exists ≡ true
      → Outcome file again force line dir (
          if not (force || confirmed fs line)
          then (ok aborted, dir)
          else remove_listed fs dir.listing dir)
  proceeds file again true line dir there =
      inr (inr (there, inl refl, remove_listed-Removes file again dir dir.listing refl))
  proceeds file again false line dir there = elim (Bool-cases (confirmed fs line)) [
    | inl e ↦ rw e (
        inr (
          inr (
            there,
            inr (confirmed-true line e),
            remove_listed-Removes file again dir dir.listing refl,
          )))
    | inr e ↦ rw e (inr (inl (there, refl, confirmed-false line e, refl)))
  ]

  reaches :
      (file : Option Text) (again : Result String Text) (force : Bool) (line : Result String Text)
      (dir : DataDir) (present : Bool)
      → dir.exists ≡ present
      → Outcome file again force line dir (
          if not present
          then (ok nothing_to_reset, dir)
          else if not (force || confirmed fs line)
          then (ok aborted, dir)
          else remove_listed fs dir.listing dir)
  reaches file again force line dir true e = proceeds file again force line dir e
  reaches file again force line dir false e = inl (e, refl)

  -- A directory that does not exist stays as it is, and so does one whose reset is neither forced nor
  -- confirmed with YES. Any other reset completes or fails. One that completes has removed as many
  -- entries as it says: what is left are the entries that are no state, in their order, none is named
  -- like the database of a state file, whatever its name, and a second reset removes nothing. One that
  -- fails has changed nothing, or at least left every entry that is no state.
  pub cmd_reset-Outcome :
      (file : Option Text) (again : Result String Text) (force : Bool) (line : Result String Text)
      (dir : DataDir)
      → Outcome file again force line dir (cmd_reset fs force line dir)
  unfolding cmd_reset
  cmd_reset-Outcome file again force line dir = reaches file again force line dir dir.exists refl
