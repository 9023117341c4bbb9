-- ===== src/Cli/Reset/Removed.antt =====
-- The loop of `cmd_reset` of `crates/kanari-node/src/main.rs`: which entries it removes.
use kanari_evm.Prelude.{
  arith, ℕ, ◌≡◌, refl, ap, Bool, true, false, ◌||◌, Bool-cases, inl, inr, Option, none, some, List,
  [], ◌∷◌, ◌++◌, ◌+◌, Result, ok, err, bytes_eq_self, length, if◌then◌else◌,
}
use Prim.Native.String.{String}
use kanari_evm.Types.Text.{Text}
use kanari_evm.Storage.Keys.{codes}
use kanari_evm.Storage.Paths.{chain_db_name, stem, base_name}
use kanari_evm.Cli.{Fatal, ends_with, is_state_entry}
use kanari_evm.Cli.Reset.{
  Entry, state_entry, Removal, remove_entry, after_removal, keep_entry, remove_entries,
}

-- The entries that are no state, in their order.
abbrev pub kept : List (Option Entry) → List (Option Entry)
kept [] = []
kept (entry ∷ entries) = let rest = kept entries in if state_entry entry then rest else entry ∷ rest

or_true : (a : Bool) → (a || true) ≡ true
or_true true = refl
or_true false = refl

or_here : (a b c : Bool) → a || true || b || c ≡ true
or_here true b c = refl
or_here false b c = refl

ends_with_self : (p : Text) → ends_with p p ≡ true
unfolding ends_with
ends_with_self [] = bytes_eq_self []
ends_with_self (c ∷ p) = rw (bytes_eq_self (c ∷ p)) refl

ends_with-append : (s p : Text) → ends_with (s ++ p) p ≡ true
unfolding ends_with
ends_with-append [] p = ends_with_self p
ends_with-append (c ∷ s) p = rw (ends_with-append s p) (or_true _)

-- The database of a state file of any name is a state entry.
is_state_entry-chain_db_name : (file : Option Text) → is_state_entry (chain_db_name file) ≡ true
unfolding is_state_entry chain_db_name
is_state_entry-chain_db_name file =
    rw (ends_with-append (stem (base_name file)) (codes ".chain.db")) (or_here _ _ _)

abbrev entry_name : Option Entry → Option Text
entry_name none = none
entry_name (some entry) = entry.name

-- No entry is named like the database of the state file of this name.
abbrev pub NoDatabase : Option Text → List (Option Entry) → Type 0
NoDatabase file [] = Unit {0}
NoDatabase file (entry ∷ entries) =
    ¬ (entry_name entry ≡ some (chain_db_name file)) × NoDatabase file entries

state_entry-database :
    (entry : Option Entry) (file : Option Text)
    → entry_name entry ≡ some (chain_db_name file)
    → state_entry entry ≡ true
unfolding state_entry
state_entry-database none file e = cc
state_entry-database (some entry) file e = rw e (is_state_entry-chain_db_name file)

pub kept-NoDatabase :
    (file : Option Text) (entries : List (Option Entry)) → NoDatabase file (kept entries)
kept-NoDatabase file [] = tt
kept-NoDatabase file (entry ∷ entries) = elim (Bool-cases (state_entry entry)) [
  | inl e ↦ rw e (kept-NoDatabase file entries)
  | inr e ↦
      rw e
        (λ named. let s = state_entry-database entry file named in cc, kept-NoDatabase file entries)
]

module _ (fs : Removal) where
  -- What one sweep of the entries comes to.
  abbrev pub Sweeps : List (Option Entry) → List (Option Entry) × Result Fatal ℕ → Type 0
  Sweeps entries (rest, ok removed) =
      (rest ≡ kept entries) × (removed + length rest ≡ length entries)
  Sweeps entries (rest, err e) = kept rest ≡ kept entries

  after_removal-Sweeps :
      (r : Result String (Unit {0})) (entry : Option Entry) (entries : List (Option Entry))
      (p : List (Option Entry) × Result Fatal ℕ)
      → state_entry entry ≡ true
      → Sweeps entries p
      → Sweeps (entry ∷ entries) (after_removal fs r entry entries p)
  after_removal-Sweeps (ok u) entry entries (rest, ok removed) e (left, count) =
      rw e (left, omega arith)
  after_removal-Sweeps (ok u) entry entries (rest, err x) e h = rw e h
  after_removal-Sweeps (err x) entry entries p e h = refl

  keep_entry-Sweeps :
      (entry : Option Entry) (entries : List (Option Entry))
      (p : List (Option Entry) × Result Fatal ℕ)
      → state_entry entry ≡ false
      → Sweeps entries p
      → Sweeps (entry ∷ entries) (keep_entry fs entry p)
  keep_entry-Sweeps entry entries (rest, ok removed) e (left, count) =
      rw e (ap (λ es. entry ∷ es) left, omega arith)
  keep_entry-Sweeps entry entries (rest, err x) e h = rw e (ap (λ es. entry ∷ es) h)

  pub remove_entries-Sweeps :
      (entries : List (Option Entry)) → Sweeps entries (remove_entries fs entries)
  unfolding remove_entries
  remove_entries-Sweeps [] = (refl, refl)
  remove_entries-Sweeps (entry ∷ entries) = elim (Bool-cases (state_entry entry)) [
    | inl e ↦
        let h =
          after_removal-Sweeps (remove_entry fs entry) entry entries _ e
            (remove_entries-Sweeps entries) in
        rw e h
    | inr e ↦ let h = keep_entry-Sweeps entry entries _ e (remove_entries-Sweeps entries) in rw e h
  ]

  pub remove_entries-kept :
      (entries : List (Option Entry)) → remove_entries fs (kept entries) ≡ (kept entries, ok 0)
  unfolding remove_entries
  remove_entries-kept [] = refl
  remove_entries-kept (entry ∷ entries) = elim (Bool-cases (state_entry entry)) [
    | inl e ↦ rw e (remove_entries-kept entries)
    | inr e ↦ rw e (rw (remove_entries-kept entries, e) refl)
  ]
