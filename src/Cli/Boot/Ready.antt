-- ===== src/Cli/Boot/Ready.antt =====
-- A node from its start through whatever it serves.
use kanari_evm.Prelude.{
  ℕ, ◌≡◌, ◌∙◌, ap, subst, Bool, not, Option, none, some, List, ◌++◌, Bytes, ok, >>=-eq-ok,
}
use kanari_evm.Storage.Records.{SealedBlock}
use kanari_evm.Storage.ChainStore.{set_faucet_key, load_faucet_key}
use kanari_evm.Storage.ChainStore.Meta.{Holds-set_faucet_key}
use kanari_evm.Execution.Machine.{Machine}
use kanari_evm.Execution.Action.{bind-eq-ok}
use kanari_evm.Execution.Node.{KanariNode}
use kanari_evm.Execution.Seal.Chain.{IsValid}
use kanari_evm.Execution.Open.{LegacyFiles, open_node, new_node, read_store, write_store}
use kanari_evm.Execution.Open.Steps.{Outcome, written, read}
use kanari_evm.Execution.Open.Started.{Openable, open_node-IsValid}
use kanari_evm.Execution.Faucet.{Wallet}
use kanari_evm.Execution.Faucet.Keys.{install_faucet_key, reload_faucet_key, keep_loaded}
use kanari_evm.Rpc.Services.{Services}
use kanari_evm.Rpc.Server.Safety.{Reach, Reach-IsValid}
use kanari_evm.Cli.{Logging, init_logging, level_text}
use kanari_evm.Cli.Boot.{run, faucet_secret, or_exit, take_key}
use kanari_evm.Cli.Spec.{StartOptions, start_spec, check_network}
use kanari_evm.Cli.Boot.Key.{or_exit-eq-ok, after_reload-eq-ok}

module _ (m : Machine) (w : Wallet) (logging : Logging) where
  open m use {engine}
  open logging use {Global}

  -- A valid node with these blocks.
  abbrev Ready : List SealedBlock → KanariNode m → Type 0
  Ready blocks n = (n.blocks ≡ blocks) × IsValid m n

  Ready-keyed :
      (blocks : List SealedBlock) (key : Option Bytes) (n : KanariNode m)
      → Ready blocks n
      → Ready blocks (record n { faucet_key = key })
  Ready-keyed blocks key n (e, v) = (e, record { chain = v.chain; stored = v.stored })

  install_faucet_key-Ready :
      (blocks : List SealedBlock) (secret : Bytes) (n n' : KanariNode m)
      → install_faucet_key m secret n ≡ (ok tt, n')
      → Ready blocks n
      → Ready blocks n'
  unfolding install_faucet_key
  install_faucet_key-Ready blocks secret n n' h (e, v) =
      let (u, n1, w1, h1) =
        bind-eq-ok (write_store m (λ db. set_faucet_key engine db secret)) _ n h in
      let (db, wrote, same) = written m (set_faucet_key engine n.store secret) n n1 u w1 in
      let stored : Ready blocks (record n { store = db }) = (
        e,
        record {
          chain = v.chain;
          stored = Holds-set_faucet_key engine n.store db secret wrote v.stored;
        },
      ) in
      subst (Ready blocks) (ap (λ (p : Outcome m (Unit {0})). p.1) h1)
        (Ready-keyed blocks (some secret) n1 (subst (Ready blocks) same stored))

  loaded-Ready :
      (blocks : List SealedBlock) (stored : Option Bytes) (n n' : KanariNode m) (found : Bool)
      → keep_loaded m stored n ≡ (ok found, n')
      → Ready blocks n
      → Ready blocks n'
  loaded-Ready blocks none n n' found h r =
      subst (Ready blocks) (ap (λ (p : Outcome m Bool). p.1) h) r
  loaded-Ready blocks (some secret) n n' found h r =
      subst (Ready blocks) (ap (λ (p : Outcome m Bool). p.1) h)
        (Ready-keyed blocks (some secret) n r)

  reload_faucet_key-Ready :
      (blocks : List SealedBlock) (n n' : KanariNode m) (found : Bool)
      → reload_faucet_key m n ≡ (ok found, n')
      → Ready blocks n
      → Ready blocks n'
  unfolding reload_faucet_key
  reload_faucet_key-Ready blocks n n' found h r =
      let (stored, n1, r1, h1) = bind-eq-ok (read_store m (load_faucet_key engine)) _ n h in
      let (e, same) = read m (load_faucet_key engine n.store) n n1 r1 in
      loaded-Ready blocks stored n1 n' found h1 (subst (Ready blocks) same r)

  take_key-Ready :
      (blocks : List SealedBlock) (key : Option Bytes) (n n' : KanariNode m)
      → take_key m w logging key n ≡ ok n'
      → Ready blocks n
      → Ready blocks n'
  take_key-Ready blocks (some secret) n n' h r =
      let (u, e) =
        or_exit-eq-ok m w logging "failed to store faucet key" (install_faucet_key m secret n) h in
      install_faucet_key-Ready blocks secret n n' e r
  take_key-Ready blocks none n n' h r =
      let (found, e) = after_reload-eq-ok m w logging (reload_faucet_key m n) h in
      reload_faucet_key-Ready blocks n n' found e r

  -- A start that serves a node over a database that can be opened serves a valid one with exactly
  -- its blocks.
  run-Ready :
      (genesis_spec : ℕ) (exists : Bool) (files : Option LegacyFiles) (generated : Bytes)
      (global : Global) (opts : StartOptions) (store : engine.Db) (blocks : List SealedBlock)
      (n : KanariNode m)
      → Openable m files store blocks
      → run m w logging genesis_spec exists files generated global opts store ≡ ok n
      → Ready blocks n
  unfolding run
  run-Ready genesis_spec exists files generated global opts store blocks n openable h =
      let fresh : Bool = not exists in
      let spec = start_spec genesis_spec fresh opts in
      let opening = open_node m files (new_node m spec store) in
      let (g, e1, h1) = >>=-eq-ok (init_logging logging (level_text opts.log_level) global) _ h in
      let (u, e2, h2) = >>=-eq-ok (check_network opts.network) _ h1 in
      let (key, e3, h3) =
        >>=-eq-ok (faucet_secret m w logging opts.faucet_key fresh generated) _ h2 in
      let (opened, e4, h4) = >>=-eq-ok (or_exit m w logging "failed to open node" opening) _ h3 in
      let (v, e5) = or_exit-eq-ok m w logging "failed to open node" opening e4 in
      take_key-Ready blocks key opened n h4
        (open_node-IsValid m files spec store blocks opened openable e5)

module _ (s : Services) (logging : Logging) where
  open s use {machine, wallet}

  -- A start that serves a node, over a database that is new where there is no journal of the old
  -- format, or over one that holds a chain from the genesis of fewer than 2^64 blocks with all state
  -- roots recorded: whatever requests and committed transactions it serves then, each with room for
  -- one more block number below 2^64, the node is valid, and its blocks are those of the database and
  -- more.
  pub run-Reach :
      (genesis_spec : ℕ) (exists : Bool) (files : Option LegacyFiles) (generated : Bytes)
      (global : logging.Global) (opts : StartOptions) (store : machine.engine.Db)
      (blocks : List SealedBlock) (n n' : KanariNode machine)
      → Openable machine files store blocks
      → run machine wallet logging genesis_spec exists files generated global opts store ≡ ok n
      → Reach s n n'
      → IsValid machine n' × ((more : List SealedBlock) × (n'.blocks ≡ blocks ++ more))
  run-Reach genesis_spec exists files generated global opts store blocks n n' openable h reach =
      let (e, v) =
        run-Ready machine wallet logging genesis_spec exists files generated global opts store
          blocks n openable h in
      let (valid, (more, grown)) = Reach-IsValid s reach v in
      (valid, (more, grown ∙ ap (λ l. l ++ more) e))
