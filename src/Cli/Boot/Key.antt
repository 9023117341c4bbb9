-- ===== src/Cli/Boot/Key.antt =====
-- The faucet's key after a start.
use Prim.Native.String.{String}
use kanari_evm.Prelude.{
  ℕ, ◌≡◌, refl, sym, ap, subst, ◌∙◌, Bool, true, false, Option, none, some, Bytes, ok, err, not,
  >>=-eq-ok, ok_injective,
}
use kanari_evm.Storage.Keys.{meta_faucet_key}
use kanari_evm.Storage.ChainStore.{load_faucet_key, set_faucet_key}
use kanari_evm.Storage.ChainStore.Meta.{get-set_faucet_key}
use kanari_evm.Execution.Machine.{Machine}
use kanari_evm.Execution.Action.{bind-eq-ok}
use kanari_evm.Execution.Errors.{NodeResult}
use kanari_evm.Execution.Node.{KanariNode}
use kanari_evm.Execution.Open.{LegacyFiles, open_node, new_node, read_store, write_store}
use kanari_evm.Execution.Open.Steps.{Outcome, written, read}
use kanari_evm.Execution.Faucet.{Wallet}
use kanari_evm.Execution.Faucet.Keys.{
  faucet_address, install_faucet_key, reload_faucet_key, keep_loaded,
}
use kanari_evm.Cli.{Logging, init_logging, level_text}
use kanari_evm.Cli.Boot.{run, after_reload, derivable, faucet_secret, signer_of, take_key, or_exit}
use kanari_evm.Cli.Spec.{StartOptions, check_network, start_spec}

module _ (m : Machine) (w : Wallet) (logging : Logging) where
  open m use {engine}
  open logging use {Global}

  -- The key that was given, in memory and on disk; or else the one on disk, if any, in memory.
  abbrev pub KeyTaken : Option Bytes → KanariNode m → Type 0
  KeyTaken (some secret) n =
      (n.faucet_key ≡ some secret) × (engine.get n.store meta_faucet_key ≡ ok (some secret))
  KeyTaken none n =
      (stored : Option Bytes) × (load_faucet_key engine n.store ≡ ok stored)
      × ((secret : Bytes) → stored ≡ some secret → n.faucet_key ≡ some secret)

  pub or_exit-eq-ok :
      {A : Type 0} (why : String) (p : NodeResult A × KanariNode m) {n : KanariNode m}
      → or_exit m w logging why p ≡ ok n
      → (a : A) × (p ≡ (ok a, n))
  or_exit-eq-ok why (ok a, n) h = (a, ap (λ k. (ok a, k)) (ok_injective h))
  or_exit-eq-ok why (err e, n) h = cc h

  -- A key that is installed is on disk and in memory.
  install_faucet_key-eq-ok :
      (secret : Bytes) (n n' : KanariNode m)
      → install_faucet_key m secret n ≡ (ok tt, n')
      → KeyTaken (some secret) n'
  unfolding install_faucet_key
  install_faucet_key-eq-ok secret n n' h =
      let (u, n1, w1, h1) =
        bind-eq-ok (write_store m (λ db. set_faucet_key engine db secret)) _ n h in
      let (db, e, same) = written m (set_faucet_key engine n.store secret) n n1 u w1 in
      let kept : record n1 { faucet_key = some secret } ≡ n' =
        ap (λ (p : Outcome m (Unit {0})). p.1) h1 in
      subst (KeyTaken (some secret))
        (ap (λ (k : KanariNode m). record k { faucet_key = some secret }) same ∙ kept)
        (refl, get-set_faucet_key engine n.store db secret e)

  loaded :
      (stored : Option Bytes) (n n' : KanariNode m) (found : Bool)
      → load_faucet_key engine n.store ≡ ok stored
      → keep_loaded m stored n ≡ (ok found, n')
      → KeyTaken none n'
  loaded none n n' found e h =
      subst (KeyTaken none) (ap (λ (p : Outcome m Bool). p.1) h) (none, e, λ secret k. cc k)
  loaded (some secret) n n' found e h =
      subst (KeyTaken none) (ap (λ (p : Outcome m Bool). p.1) h) (some secret, e, λ other k. k)

  -- A reload that succeeds leaves the stored key, if any, in memory.
  reload_faucet_key-eq-ok :
      (found : Bool) (n n' : KanariNode m)
      → reload_faucet_key m n ≡ (ok found, n')
      → KeyTaken none n'
  unfolding reload_faucet_key
  reload_faucet_key-eq-ok found n n' h =
      let (stored, n1, r1, h1) = bind-eq-ok (read_store m (load_faucet_key engine)) _ n h in
      let (e, same) = read m (load_faucet_key engine n.store) n n1 r1 in
      loaded stored n1 n' found
        (subst (λ (k : KanariNode m). load_faucet_key engine k.store ≡ ok stored) same e) h1

  pub after_reload-eq-ok :
      (p : NodeResult Bool × KanariNode m) {n : KanariNode m}
      → after_reload m w logging p ≡ ok n
      → (found : Bool) × (p ≡ (ok found, n))
  after_reload-eq-ok (err e, n) h = cc h
  after_reload-eq-ok (ok false, n) h = (false, ap (λ k. (ok false, k)) (ok_injective h))
  after_reload-eq-ok (ok true, n) h = go (faucet_address m w n) h
    where
      go :
          {n' : KanariNode m} (r : NodeResult (Option Bytes))
          → derivable m w logging r n ≡ ok n'
          → (found : Bool) × ◌≡◌ {A = NodeResult Bool × KanariNode m} (ok true, n) (ok found, n')
      go (ok a) k = (true, ap (λ x. (ok true, x)) (ok_injective k))
      go (err e) k = cc k

  take_key-KeyTaken :
      (key : Option Bytes) (n n' : KanariNode m)
      → take_key m w logging key n ≡ ok n'
      → KeyTaken key n'
  take_key-KeyTaken (some secret) n n' h =
      let (u, e) = or_exit-eq-ok "failed to store faucet key" (install_faucet_key m secret n) h in
      install_faucet_key-eq-ok secret n n' e
  take_key-KeyTaken none n n' h =
      let (found, e) = after_reload-eq-ok (reload_faucet_key m n) h in
      reload_faucet_key-eq-ok found n n' e

  -- The key that a start is to take: the flag's, a new one where there is no state file, or none.
  abbrev pub key_to_take : Option Bytes → Bool → Bytes → Option Bytes
  key_to_take (some secret) exists generated = some secret
  key_to_take none false generated = some generated
  key_to_take none true generated = none

  faucet_secret-eq-ok :
      (flag : Option Bytes) (exists : Bool) (generated : Bytes) (key : Option Bytes)
      → faucet_secret m w logging flag (not exists) generated ≡ ok key
      → key_to_take flag exists generated ≡ key
  faucet_secret-eq-ok (some secret) exists generated key h =
      let (signer, e, k) =
        >>=-eq-ok (signer_of m w logging "invalid --faucet-key secret" secret) _ h in
      ok_injective k
  faucet_secret-eq-ok none false generated key h = ok_injective h
  faucet_secret-eq-ok none true generated key h = ok_injective h

  -- A start that serves a node has taken the flag's key, or else, where there is no state file, the
  -- new one, whatever key the database held, or else the database's, if any.
  pub run-KeyTaken :
      (genesis_spec : ℕ) (exists : Bool) (files : Option LegacyFiles) (generated : Bytes)
      (global : Global) (opts : StartOptions) (store : engine.Db) (n : KanariNode m)
      → run m w logging genesis_spec exists files generated global opts store ≡ ok n
      → KeyTaken (key_to_take opts.faucet_key exists generated) n
  unfolding run
  run-KeyTaken genesis_spec exists files generated global opts store n h =
      let fresh : Bool = not exists in
      let opening = open_node m files (new_node m (start_spec genesis_spec fresh opts) store) in
      let (g, e1, h1) = >>=-eq-ok (init_logging logging (level_text opts.log_level) global) _ h in
      let (u, e2, h2) = >>=-eq-ok (check_network opts.network) _ h1 in
      let (key, e3, h3) =
        >>=-eq-ok (faucet_secret m w logging opts.faucet_key fresh generated) _ h2 in
      let (opened, e4, h4) = >>=-eq-ok (or_exit m w logging "failed to open node" opening) _ h3 in
      subst (λ k. KeyTaken k n) (sym (faucet_secret-eq-ok opts.faucet_key exists generated key e3))
        (take_key-KeyTaken key opened n h4)
