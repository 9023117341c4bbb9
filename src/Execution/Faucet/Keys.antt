-- ===== src/Execution/Faucet/Keys.antt =====
-- The key methods of `crates/move-execution/src/faucet.rs`.
use kanari_evm.Prelude.{Bool, true, false, Option, none, some, Bytes, ok, err}
use kanari_evm.Storage.ChainStore.{set_faucet_key, load_faucet_key}
use kanari_evm.Execution.Errors.{NodeResult, storage, or_error}
use kanari_evm.Execution.Machine.{Machine}
use kanari_evm.Execution.Action.{Action, modify, ◌>>=◌, ◌>>◌}
use kanari_evm.Execution.Node.{KanariNode}
use kanari_evm.Execution.Open.{read_store, write_store}
use kanari_evm.Execution.Faucet.{Wallet}

module _ (m : Machine) where
  open m use {engine}

  -- `set_faucet_key`
  unfoldable pub install_faucet_key : Bytes → Action (KanariNode m) (Unit {0})
  install_faucet_key secret = do
    write_store m (λ db. set_faucet_key engine db secret)
    modify (λ node. record node { faucet_key = some secret })

  abbrev pub keep_loaded : Option Bytes → Action (KanariNode m) Bool
  keep_loaded none node = (ok false, node)
  keep_loaded (some secret) node = (ok true, record node { faucet_key = some secret })

  -- `load_faucet_key`
  unfoldable pub reload_faucet_key : Action (KanariNode m) Bool
  reload_faucet_key = do stored ← read_store m (load_faucet_key engine); keep_loaded stored

  abbrev told : (w : Wallet) → NodeResult w.Signer → NodeResult (Option Bytes)
  told w (ok signer) = ok (some (w.address signer))
  told w (err e) = err e

  abbrev address_of : Wallet → Option Bytes → NodeResult (Option Bytes)
  address_of w none = ok none
  address_of w (some secret) = told w (or_error storage (w.from_bytes secret))

  unfoldable pub faucet_address : Wallet → KanariNode m → NodeResult (Option Bytes)
  faucet_address w node = address_of w node.faucet_key
